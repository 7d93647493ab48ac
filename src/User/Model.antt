-- ===== src/User/Model.antt =====
-- src/module/user/schema/user.schema.ts and enum/user-role.enum.ts.
use zombiies_api.Common.{ℕ, Bool}

pub data UserRole : Type 0 where
  user admin : UserRole

pub record User : Type 0 where
  pub id : ℕ
  pub username : ℕ
  pub email : ℕ
  pub password_digest : ℕ
  pub private_key_cipher : ℕ
  pub is_verified : Bool
  pub role : UserRole
