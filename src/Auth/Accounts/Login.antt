-- ===== src/Auth/Accounts/Login.antt =====
-- Log-ins, and a log-in after a sign-up.
use zombiies_api.Common.{
  ℕ, ◌+◌, ◌≤◌, ◌<◌, ◌≡◌, ◌↔◌, refl, sym, ap, ◌∙◌, inl, inr, Bool, true, false, none, some, List, [],
  ◌∷◌, subst, ◌++◌, ◌==◌, ==_refl, any, find, ok, is_ok, ok-injective, and_then, Option-cases,
  Bool-cases, find_by_id, arith,
}
use zombiies_api.User.Model.{User}
use zombiies_api.User.Service.{World, clashes}
use zombiies_api.Auth.Service.{
  AuthEnv, SignupInput, LoginInput, AuthModel, signup, login, authenticate,
}
use zombiies_api.Auth.Accounts.{Call, docs_of, signup-cases, after_calls, after_calls-docs}

find_after :
    (p : User → Bool) (xs ys : List User) (u : User)
    → any p xs ≡ false
    → p u ≡ true
    → find p ((xs ++ u ∷ []) ++ ys) ≡ some u
find_after p [] ys u h k = rw k refl
find_after p (x ∷ xs) ys u h k = elim (Bool-cases (p x)) [
  | inl e ↦ absurd (ground (arith, e, h))
  | inr e ↦ rw e (find_after p xs ys u (rw e at h) k)
]

find_first : (p : User → Bool) (xs : List User) → any p xs ≡ false → find p xs ≡ none
find_first p [] h = refl
find_first p (x ∷ xs) h = ground (arith, find_first p xs)

-- Users whose fields do not clash share no email.
no_email :
    (u : User) (xs : List User)
    → any (clashes u) xs ≡ false
    → any (λ x. x.email == u.email) xs ≡ false
no_email u [] h = refl
no_email u (x ∷ xs) h = ground (arith, no_email u xs)

same_model : (a b : AuthModel) → a.user ≡ b.user → a.token ≡ b.token → a ≡ b
same_model a b p q i = record { user = p i; token = q i }

module _ {S C : Type 0} (env : AuthEnv S C) where
  open env use {user_service}
  open user_service use {user_model}

  -- A log-in changes nothing. It returns exactly when the first user of the email has a digest that
  -- fits the password, and then it returns that user with a new token.
  pub login_iff :
      (input : LoginInput) (now : ℕ) (w : World S C) (out : AuthModel)
      → let found = find (λ u. u.email == input.email) (docs_of env w) in
        ((login env input now w).1 ≡ w)
        × (((login env input now w).0 ≡ ok out) ↔ (
            (found ≡ some out.user)
            × (env.compare input.password out.user.password_digest ≡ true)
            × (out.token ≡ env.sign out.user.id now)))
  unfolding login
  login_iff input now w out =
      rw (user_model.find_one_lem (λ u. u.email == input.email) w.users)
        (elim (Option-cases (find (λ u. u.email == input.email) (docs_of env w))) [
          | inl n ↦ rw (n, and_then) (refl, ((λ e. cc), λ h. cc))
          | inr (u, f) ↦ elim (Bool-cases (env.compare input.password u.password_digest)) [
            | inr wrong ↦
                rw (f, wrong)
                  (refl, ((λ e. cc), λ (f', right, t). absurd (let same : u ≡ out.user = cc in cc)))
            | inl right ↦
                rw (f, right)
                  (
                    refl,
                    (
                      (λ e.
                          let same = ok-injective e in
                          (
                            ap (λ x. some x.user) same,
                            ap (λ x. env.compare input.password x.user.password_digest) (sym same)
                                ∙ right,
                            ap (λ x. x.token) (sym same) ∙ ap (λ x. env.sign x.user.id now) same,
                          )),
                      λ (f', r, t).
                          let same : u ≡ out.user = cc in
                          ap ok (same_model _ out same (ap (λ x. env.sign x.id now) same ∙ sym t)),
                    ),
                  )
          ]
        ])

  -- A user who has signed up can log in with the same email and password, whatever sign-ups and
  -- log-ins come between, and gets the same user; the token of the log-in authenticates that user
  -- until it expires.
  pub signup-login :
      (input : SignupInput) (now again : ℕ) (cs : List Call) (w : World S C) (out : AuthModel)
      → (signup env input now w).0 ≡ ok out
      → let v = after_calls env cs (signup env input now w).1 in
        let credentials : LoginInput = record { email = input.email; password = input.password } in
        let token = env.sign out.user.id again in
        ((login env credentials again v).0 ≡ ok (record { user = out.user; token = token }))
        × ((later : ℕ)
            → again ≤ later
            → later < again + env.expires_in
            → (authenticate env token later v).0 ≡ ok out.user)
  unfolding login authenticate
  signup-login input now again cs w out e = elim (signup-cases env input now w) [
    | inl (failed, same) ↦
        absurd (let bad : is_ok (ok out) ≡ false = ap is_ok (sym e) ∙ failed in cc)
    | inr (u, email, password, role, id, free, result, added) ↦
        let v = after_calls env cs (signup env input now w).1 in
        let (us, later_docs) = after_calls-docs env cs (signup env input now w).1 in
        let same : u ≡ out.user = ap (λ x. x.user) (ok-injective (sym result ∙ e)) in
        let docs : docs_of env v ≡ (docs_of env w ++ u ∷ []) ++ us =
          later_docs ∙ ap (λ ds. ds ++ us) added in
        let by_email : user_model.find_one (λ x. x.email == input.email) v.users ≡ some u =
          user_model.find_one_lem _ v.users
          ∙ ap (find (λ x. x.email == input.email)) docs
          ∙ find_after (λ x. x.email == input.email) (docs_of env w) us u
              (subst (λ m. any (λ x. x.email == m) (docs_of env w) ≡ false) email
                (no_email u (docs_of env w) free))
              (ground (arith, email, ==_refl input.email)) in
        let by_id : find_by_id user_model u.id v.users ≡ some u =
          user_model.find_one_lem _ v.users
          ∙ ap (find (λ x. user_model.id x == u.id)) docs
          ∙ find_after (λ x. user_model.id x == u.id) (docs_of env w) us u
              (rw id (user_model.new_id_lem w.users)) (rw (user_service.id_lem u) (==_refl u.id)) in
        (
          rw by_email (
              rw password (
                ap ok (
                  same_model _ (record { user = out.user; token = _ }) same
                    (ap (λ x. env.sign x.id again) same)))),
          λ later le lt.
              rw (env.verify-sign out.user.id again later le lt)
                (rw (subst (λ x. find_by_id user_model x.id v.users ≡ some x) same by_id) refl),
        )
  ]
