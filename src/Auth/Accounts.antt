-- ===== src/Auth/Accounts.antt =====
-- What sign-ups and log-ins do to the users.
pub mod Login
pub mod Distinct
use mathlib.Core.List.{append-nil, append_assoc}
use zombiies_api.Common.{
  ℕ, ◌+◌, ◌≤◌, ◌<◌, ◌≡◌, ◌↔◌, ◌⊎◌, refl, sym, ap, ◌∙◌, inl, inr, Bool, true, false, none, some,
  List, [], ◌∷◌, subst, ◌++◌, ◌==◌, ==_refl, any, find, filter, All, All-append, Result, ok, is_ok,
  ok-injective, and_then, Result-cases, Option-cases, Bool-cases, find_by_id, arith,
}
use zombiies_api.User.Model.{User, UserRole, admin}
use zombiies_api.User.Model
use zombiies_api.Ether.Wallets.{create_new_private_key_cipher}
use zombiies_api.User.Service.{World, clashes, CreateUserDto, new_user, save_user, create_user}
use zombiies_api.Auth.Service.{
  AuthEnv, SignupInput, LoginInput, AuthModel, with_password, signup, login, authenticate,
}

-- A call of the authentication service, at a time.
pub data Call : Type 0 where
  signs_up : SignupInput → ℕ → Call
  logs_in : LoginInput → ℕ → Call

module _ {S C : Type 0} (env : AuthEnv S C) where
  open env use {user_service}
  open user_service use {user_model, client}

  abbrev pub docs_of : World S C → List User
  docs_of w = user_model.docs w.users

  -- The user was added, as the input says and with no other user's name or email, and got a token.
  abbrev pub Signed : SignupInput → ℕ → World S C → Result AuthModel × World S C → Type 0
  Signed input now w out =
      (u : User) × (u.email ≡ input.email)
      × (env.compare input.password u.password_digest ≡ true)
      × (u.role ≡ Model.user)
      × (u.id ≡ user_model.new_id w.users)
      × (any (clashes u) (docs_of w) ≡ false)
      × (out.0 ≡ ok (record { user = u; token = env.sign u.id now }))
      × (docs_of out.1 ≡ docs_of w ++ u ∷ [])

  pub signup-cases :
      (input : SignupInput) (now : ℕ) (w : World S C)
      → let out = signup env input now w in
        ((is_ok out.0 ≡ false) × (out.1.users ≡ w.users)) ⊎ Signed input now w out
  unfolding signup create_user save_user
  signup-cases input now w =
      let digest = env.hash input.password env.bcrypt_round w.draws in
      let dto : CreateUserDto = record {
        username = input.username;
        email = input.email;
        password_digest = digest;
      } in
      elim (Result-cases
        (create_new_private_key_cipher client user_service.is_dev w.chain_state).0) [
          | inr (x, e) ↦ rw (e, and_then) (inl (refl, refl))
          | inl (cipher, e) ↦
              let u = new_user dto cipher (user_model.new_id w.users) in
              elim (Bool-cases (any (clashes u) (docs_of w))) [
                | inl taken ↦ rw (e, and_then) (rw (taken, and_then) (inl (refl, refl)))
                | inr free ↦
                    rw (e, and_then)
                      (rw (free, and_then)
                        (inr (
                          u,
                          refl,
                          env.compare-hash input.password env.bcrypt_round w.draws,
                          refl,
                          refl,
                          free,
                          refl,
                          user_model.create_lem _ w.users,
                        )))
              ]
        ]

  login_keeps : (input : LoginInput) (now : ℕ) (w : World S C) → (login env input now w).1 ≡ w
  unfolding login
  login_keeps input now w =
      elim (Option-cases (
        with_password env input.password
          (user_model.find_one (λ u. u.email == input.email) w.users))) [
            | inl n ↦ rw (n, and_then) refl
            | inr (u, e) ↦ rw (e, and_then) refl
          ]

  unfoldable pub after_call : Call → World S C → World S C
  after_call (signs_up input now) w = (signup env input now w).1
  after_call (logs_in input now) w = (login env input now w).1

  unfoldable pub after_calls : List Call → World S C → World S C
  unfolding after_call
  after_calls [] w = w
  after_calls (c ∷ cs) w = after_calls cs (after_call c w)

  -- Users are only added, and only by sign-ups.
  pub after_call-docs :
      (c : Call) (w : World S C)
      → (docs_of (after_call c w) ≡ docs_of w)
        ⊎ ((u : User) × (docs_of (after_call c w) ≡ docs_of w ++ u ∷ [])
            × (any (clashes u) (docs_of w) ≡ false)
            × (u.role ≡ Model.user))
  unfolding after_call
  after_call-docs (logs_in input now) w = inl (ap docs_of (login_keeps input now w))
  after_call-docs (signs_up input now) w = elim (signup-cases input now w) [
    | inl (failed, same) ↦ inl (ap user_model.docs same)
    | inr (u, email, password, role, id, free, result, added) ↦ inr (u, added, free, role)
  ]

  pub after_calls-docs :
      (cs : List Call) (w : World S C)
      → (us : List User) × (docs_of (after_calls cs w) ≡ docs_of w ++ us)
  unfolding after_calls
  after_calls-docs [] w = ([], sym (append-nil (docs_of w)))
  after_calls-docs (c ∷ cs) w =
      let (us, e) = after_calls-docs cs (after_call c w) in
      elim (after_call-docs c w) [
        | inl same ↦ (us, e ∙ ap (λ ds. ds ++ us) same)
        | inr (u, added, free, role) ↦
            (u ∷ us, e ∙ ap (λ ds. ds ++ us) added ∙ append_assoc (docs_of w) (u ∷ []) us)
      ]
