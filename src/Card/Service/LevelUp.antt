-- ===== src/Card/Service/LevelUp.antt =====
-- The outcomes of `levelUpCard` of src/module/card/card.service.ts on the chain.
use zombiies_api.Common.{
  ℕ, Bool, some, find, ◌+◌, ◌≡◌, false, ◌&&◌, List, [], ◌∷◌, ◌++◌, ◌==◌, Result, ok, is_ok, arith,
}
use zombiies_api.User.Model.{User}
use zombiies_api.Ether
use zombiies_api.Ether.{Transfer, levelled_up, Receipt}
use zombiies_api.Card.Model.{CardTokenModel}
use zombiies_api.Card.Schema.{Card}
use zombiies_api.Card.Tokens.{matching}
use zombiies_api.Card.Service.History.{history}
use zombiies_api.Card.Service.{CardEnv, World, check_owners, find_card_tokens}

-- What `matching` accepts: two cards of one uri.
pub matching-ok :
    (cards : List CardTokenModel) (first : CardTokenModel)
    → matching cards ≡ ok first
    → (second : CardTokenModel) × (cards ≡ first ∷ second ∷ [])
      × (second.token_uri ≡ first.token_uri)
unfolding matching
matching-ok [] first e = cc
matching-ok (c ∷ []) first e = cc
matching-ok (c ∷ d ∷ x ∷ cs) first e = absurd (ground arith)
matching-ok (c ∷ d ∷ []) first e = (d, ground arith, ground arith)

module _ {S U C : Type 0} (env : CardEnv S U C) where
  open env use {card_model, client}
  open client use {chain}

  -- Nothing on the chain, and the call failed.
  abbrev pub Nothing : World S U C → Result CardTokenModel × World S U C → Type 0
  Nothing w out = (is_ok out.0 ≡ false) × (history env out.1 ≡ history env w)

  -- The query of the card that two cards are levelled up to.
  abbrev pub is_next_level : CardTokenModel → Card → Bool
  is_next_level first c = (c.level == first.level + 1) && (c.name == first.name)

  -- Two cards of one uri were given, and the first stored card of the same name and the next level
  -- took their place.
  abbrev pub Combined : ℕ → List ℕ → World S U C → Result CardTokenModel × World S U C → Type 0
  Combined address ids w out =
      (first : CardTokenModel) × (second : CardTokenModel) × (next : Card) × ((check_owners env
          address ids w).0
        ≡ ok tt)
      × ((find_card_tokens env ids (check_owners env address ids w).1).0 ≡ ok (first ∷ second ∷ []))
      × (second.token_uri ≡ first.token_uri)
      × (find (is_next_level first) (card_model.docs w.cards) ≡ some next)
      × (next.level ≡ first.level + 1)
      × (next.name ≡ first.name)
      × (history env out.1 ≡ history env w ++ levelled_up address ids next.token_uri ∷ [])
