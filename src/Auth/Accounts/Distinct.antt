-- ===== src/Auth/Accounts/Distinct.antt =====
-- What keeps users apart, and administrators from being made.
use zombiies_api.Common.{
  ◌≡◌, refl, ap, ◌∙◌, inl, inr, Bool, true, false, List, [], ◌∷◌, ◌++◌, any, filter, All,
  All-append, arith,
}
use zombiies_api.User.Model.{User, UserRole, admin}
use zombiies_api.User.Model
use zombiies_api.User.Service.{World, clashes}
use zombiies_api.Auth.Service.{AuthEnv}
use zombiies_api.Auth.Accounts.{Call, docs_of, after_call, after_calls, after_call-docs}

module _ {S C : Type 0} (env : AuthEnv S C) where
  open env use {user_service}
  open user_service use {user_model}

  -- No two users share a username or an email.
  abbrev pub Unique : List User → Type 0
  Unique [] = Unit
  Unique (x ∷ xs) = All (λ y. clashes y x ≡ false) xs × Unique xs

  abbrev pub is_admin : User → Bool
  is_admin u = elim u.role [ Model.user ↦ false | admin ↦ true ]

  Unique-append :
      (xs : List User) (u : User) → Unique xs → any (clashes u) xs ≡ false → Unique (xs ++ u ∷ [])
  Unique-append [] u h k = (tt, tt)
  Unique-append (x ∷ xs) u h k = (
    All-append (λ y. clashes y x ≡ false) xs (u ∷ []) h.0 (ground (arith, k), tt),
    Unique-append xs u h.1 (ground (arith, k)),
  )

  admins-append :
      (xs : List User) (u : User)
      → u.role ≡ Model.user
      → filter is_admin (xs ++ u ∷ []) ≡ filter is_admin xs
  admins-append [] u h = rw h refl
  admins-append (x ∷ xs) u h = ground (arith, admins-append xs u h)

  -- Whatever sign-ups and log-ins come, and whatever exceptions end them: no two users share a
  -- username or an email, and the administrators are the ones that there were.
  pub after_calls-Unique :
      (cs : List Call) (w : World S C)
      → Unique (docs_of env w)
      → Unique (docs_of env (after_calls env cs w))
        × (filter is_admin (docs_of env (after_calls env cs w)) ≡ filter is_admin (docs_of env w))
  unfolding after_calls
  after_calls-Unique [] w h = (h, refl)
  after_calls-Unique (c ∷ cs) w h = elim (after_call-docs env c w) [
    | inl same ↦
        let rest = after_calls-Unique cs (after_call env c w) (rw same h) in
        (rest.0, rest.1 ∙ ap (filter is_admin) same)
    | inr (u, added, free, role) ↦
        let rest =
          after_calls-Unique cs (after_call env c w)
            (rw added (Unique-append (docs_of env w) u h free)) in
        (rest.0, rest.1 ∙ ap (filter is_admin) added ∙ admins-append (docs_of env w) u role)
  ]
