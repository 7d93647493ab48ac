-- ===== src/Connections/Injector.antt =====
-- The injector of NestJS as an interface, and the providers of a token.
use zombiies_api.Common.{
  ℕ, suc, ◌≡◌, refl, ap, true, false, List, [], ◌∷◌, ◌++◌, ==_refl, filter, Result, ok, ◌>>=◌,
  arith,
}
use zombiies_api.Filter.Texts.{Text}
use zombiies_api.Connections.{
  Token, text_eq, token_eq, Value, Provider, use_value, use_factory, use_class,
}

abbrev pub token_of : {O K : Type 0} → Provider O K → Token
token_of (use_value t v) = t
token_of (use_factory t inject f) = t
token_of (use_class t c) = t

-- The providers of a token.
abbrev pub registered : {O K : Type 0} → Token → List (Provider O K) → List (Provider O K)
registered t ps = filter (λ p. token_eq (token_of p) t) ps

abbrev pub get_all :
    {O K : Type 0} → (Token → Result (Value O K)) → List Token → Result (List (Value O K))
get_all get [] = ok []
get_all get (t ∷ ts) = do v ← get t; vs ← get_all get ts; ok (v ∷ vs)

-- `get n providers token` is the value of a token with a single provider, whose injected values are
-- nested at most `n` deep, and `instance c` an object of a class.
pub record Injector (O K : Type 0) : Type 0 where
  pub get : ℕ → List (Provider O K) → Token → Result (Value O K)
  pub instance_of : ℕ → Value O K
  pub value_lem :
      (n : ℕ) (ps : List (Provider O K)) (t : Token) (v : Value O K)
      → registered t ps ≡ use_value t v ∷ []
      → get (suc n) ps t ≡ ok v
  pub class_lem :
      (n : ℕ) (ps : List (Provider O K)) (t : Token) (c : ℕ)
      → registered t ps ≡ use_class t c ∷ []
      → get (suc n) ps t ≡ ok (instance_of c)
  pub factory_lem :
      (n : ℕ) (ps : List (Provider O K)) (t : Token) (inject : List Token)
      (f : List (Value O K) → Result (Value O K)) (vs : List (Value O K))
      → registered t ps ≡ use_factory t inject f ∷ []
      → get_all (get n ps) inject ≡ ok vs
      → get (suc n) ps t ≡ f vs

pub text_eq_refl : (s : Text) → text_eq s s ≡ true
text_eq_refl [] = refl
text_eq_refl (c ∷ s) = ground (arith, ==_refl c, text_eq_refl s)

pub text_eq-prefix : (p s t : Text) → text_eq (p ++ s) (p ++ t) ≡ text_eq s t
text_eq-prefix [] s t = refl
text_eq-prefix (c ∷ p) s t = ground (arith, ==_refl c, text_eq-prefix p s t)

module _ {O K : Type 0} where
  pub get_one :
      (get : Token → Result (Value O K)) (t : Token) {v : Value O K}
      → get t ≡ ok v
      → get_all get (t ∷ []) ≡ ok (v ∷ [])
  get_one get t e = rw e refl

  pub hit :
      (t : Token) (p : Provider O K) (ps : List (Provider O K))
      → token_eq (token_of p) t ≡ true
      → registered t ps ≡ []
      → registered t (p ∷ ps) ≡ p ∷ []
  hit t p ps e h = rw e (ap (λ qs. p ∷ qs) h)

  pub miss :
      (t : Token) (p : Provider O K) (ps : List (Provider O K)) {qs : List (Provider O K)}
      → token_eq (token_of p) t ≡ false
      → registered t ps ≡ qs
      → registered t (p ∷ ps) ≡ qs
  miss t p ps e h = rw e h
