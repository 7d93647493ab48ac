-- ===== src/Auth/Service.antt =====
-- src/module/auth/auth.service.ts and password.service.ts, with the check of a request's token of
-- strategy/jwt.strategy.ts and guard/jwt-auth.guard.ts.
use zombiies_api.Common.{
  ℕ, suc, ◌+◌, ◌≤◌, ◌<◌, ◌≡◌, Bool, true, Option, none, some, if◌then◌else◌, ok, unauthorized,
  or_throw, Action, lift,
}
use zombiies_api.Common.Async.{◌>>=◌}
use zombiies_api.User.Model.{User}
use zombiies_api.User.Service.{UserEnv, World, find_one_by_email, find_user_by_id, create_user}

pub record SignupInput : Type 0 where
  pub username : ℕ
  pub email : ℕ
  pub password : ℕ

pub record LoginInput : Type 0 where
  pub email : ℕ
  pub password : ℕ

pub record AuthModel : Type 0 where
  pub user : User
  pub token : ℕ

-- `hash password rounds k` uses the `k`-th random salt. `sign id now` is a token of the payload
-- `{ userId: id }` that is issued at `now`, and `verify token now` the user of a valid token.
pub record AuthEnv (S C : Type 0) : Type 0 where
  pub user_service : UserEnv S C
  pub bcrypt_round : ℕ
  pub hash : ℕ → ℕ → ℕ → ℕ
  pub compare : ℕ → ℕ → Bool
  pub expires_in : ℕ
  pub sign : ℕ → ℕ → ℕ
  pub verify : ℕ → ℕ → Option ℕ
  pub compare-hash : (password rounds k : ℕ) → compare password (hash password rounds k) ≡ true
  pub verify-sign :
      (id now later : ℕ)
      → now ≤ later
      → later < now + expires_in
      → verify (sign id now) later ≡ some id

module _ {S C : Type 0} (env : AuthEnv S C) where
  open env use {user_service}

  abbrev pub AuthAction : Type 0 → Type 0
  AuthAction = Action (World S C)

  abbrev pub validate_password : ℕ → ℕ → Bool
  validate_password = env.compare

  abbrev pub hash_password : ℕ → AuthAction ℕ
  hash_password password w =
      (ok (env.hash password env.bcrypt_round w.draws), record w { draws = suc w.draws })

  abbrev pub with_password : ℕ → Option User → Option User
  with_password password none = none
  with_password password (some u) =
      if validate_password password u.password_digest then some u else none

  unfoldable pub validate : ℕ → ℕ → AuthAction (Option User)
  validate email password = do
    user ← find_one_by_email user_service email
    lift (ok (with_password password user))

  abbrev pub get_user_from_payload : ℕ → AuthAction (Option User)
  get_user_from_payload user_id = find_user_by_id user_service user_id

  abbrev pub generate_token : User → ℕ → ℕ
  generate_token user now = env.sign user.id now

  unfoldable pub signup : SignupInput → ℕ → AuthAction AuthModel
  signup input now = do
    digest ← hash_password input.password
    user ←
        create_user user_service
          (record { username = input.username; email = input.email; password_digest = digest })
    lift (ok (record { user = user; token = generate_token user now }))

  unfoldable pub login : LoginInput → ℕ → AuthAction AuthModel
  unfolding validate
  login input now = do
    found ← validate input.email input.password
    user ← lift (or_throw found (unauthorized ""))
    lift (ok (record { user = user; token = generate_token user now }))

  -- What the guard does with the token of a request: without a user it refuses the request.
  unfoldable pub authenticate : ℕ → ℕ → AuthAction User
  authenticate token now = do
    user_id ← lift (or_throw (env.verify token now) (unauthorized ""))
    found ← get_user_from_payload user_id
    lift (or_throw found (unauthorized ""))
