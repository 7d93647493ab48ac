-- ===== src/User/Service.antt =====
-- src/module/user/user.service.ts: the methods of the user service over the collection of users and
-- the wallets.
use zombiies_api.Common.{
  ℕ, ◌≡◌, Bool, false, ◌||◌, Option, ◌==◌, any, ok, external, throw_if, Action, lift, gets, modify,
  Collection, find_by_id,
}
use zombiies_api.Common.Async.{◌>>=◌, ◌>>◌}
use zombiies_api.User.Model.{User}
use zombiies_api.User.Model
use zombiies_api.Ether.Wallets.{EtherClient, create_new_private_key_cipher, get_wallet_of_user}

pub record CreateUserDto : Type 0 where
  pub username : ℕ
  pub email : ℕ
  pub password_digest : ℕ

pub record UserWalletModel : Type 0 where
  pub address : ℕ
  pub balance : ℕ

pub record UserEnv (S C : Type 0) : Type 0 where
  pub user_model : Collection S User
  pub id_lem : (u : User) → user_model.id u ≡ u.id
  pub client : EtherClient C
  -- `isDev()`.
  pub is_dev : Bool
  -- ethers: the balance of an address, and the text of an amount.
  pub get_balance : ℕ → Action C ℕ
  pub format_ether : ℕ → ℕ

-- `draws` numbers the random salts of the passwords.
pub record World (S C : Type 0) : Type 0 where
  pub users : S
  pub chain_state : C
  pub draws : ℕ

-- The unique fields of the schema.
abbrev pub clashes : User → User → Bool
clashes a b = (a.username == b.username) || (a.email == b.email)

-- The document of a sign-up; the last two fields have the defaults of the schema.
abbrev pub new_user : CreateUserDto → ℕ → ℕ → User
new_user dto cipher id = record {
  id = id;
  username = dto.username;
  email = dto.email;
  password_digest = dto.password_digest;
  private_key_cipher = cipher;
  is_verified = false;
  role = Model.user;
}

module _ {S C : Type 0} (env : UserEnv S C) where
  open env use {user_model, client}

  abbrev pub UserAction : Type 0 → Type 0
  UserAction = Action (World S C)

  abbrev pub on_chain : {A : Type 0} → Action C A → UserAction A
  on_chain m w = let (r, c) = m w.chain_state in (r, record w { chain_state = c })

  abbrev pub find_one_by_email : ℕ → UserAction (Option User)
  find_one_by_email email = gets (λ w. user_model.find_one (λ u. u.email == email) w.users)

  abbrev pub find_user_by_id : ℕ → UserAction (Option User)
  find_user_by_id id = gets (λ w. find_by_id user_model id w.users)

  abbrev pub find_one_user : (User → Bool) → UserAction (Option User)
  find_one_user query = gets (λ w. user_model.find_one query w.users)

  -- `save()`: the unique indexes refuse a document that shares a field with a stored one.
  unfoldable pub save_user : (ℕ → User) → UserAction User
  save_user f = do
    id ← gets (λ w. user_model.new_id w.users)
    taken ← gets (λ w. any (clashes (f id)) (user_model.docs w.users))
    lift (throw_if taken (external "E11000 duplicate key error"))
    modify (λ w. record w { users = user_model.create f w.users })
    lift (ok (f id))

  unfoldable pub create_user : CreateUserDto → UserAction User
  unfolding save_user
  create_user dto = do
    cipher ← on_chain (create_new_private_key_cipher client env.is_dev)
    save_user (new_user dto cipher)

  unfoldable pub get_wallet_info_of : User → UserAction UserWalletModel
  get_wallet_info_of user = do
    let wallet = get_wallet_of_user client user
    balance ← on_chain (env.get_balance wallet.address)
    lift (ok (record { address = wallet.address; balance = env.format_ether balance }))
