-- ===== src/Deck/Service/Owner.antt =====
-- Who may change a deck, and what every call keeps: valid decks, and at most three to a user.
use zombiies_api.Common.{
  ℕ, ◌≡◌, refl, inl, inr, Bool, false, Option, none, some, [], leb, ◌==◌, All, All-find_one,
  All-update_one, All-create, All-delete, err, Error, forbidden, not_found, Bool-cases,
  Option-cases, Result-cases, find_by_id,
}
use zombiies_api.Deck.Model.{Deck}
use zombiies_api.Deck.Slots.{add_card}
use zombiies_api.Deck.Slots.Valid.{IsValid, add_card-IsValid_any, remove_card-IsValid}
use zombiies_api.Deck.Service.{
  DeckEnv, World, is_owner, type_of, remove_card_from_deck, add_card_to_deck, update_deck,
  create_deck, delete_deck,
}

module _ {S E : Type 0} (env : DeckEnv S E) where
  open env use {model, to_hex_string}

  abbrev denied : Option Deck → Error
  denied none = not_found "Not found this deck id"
  denied (some d) = forbidden "You do not have permission to do this action"

  abbrev owns : ℕ → Option Deck → Bool
  owns user none = false
  owns user (some d) = is_owner user d

  -- A deck that is missing, or that another user owns, cannot be changed in any way: every method
  -- refuses, with the same exception, and leaves the state as it was.
  pub permission_denied :
      (user deck_id token_id name : ℕ) (w : World S E)
      → owns user (find_by_id model deck_id w.decks) ≡ false
      → let e = denied (find_by_id model deck_id w.decks) in
        (add_card_to_deck env user token_id deck_id w ≡ (err e, w))
        × (remove_card_from_deck env user token_id deck_id w ≡ (err e, w))
        × (update_deck env user deck_id name w ≡ (err e, w))
        × (delete_deck env user deck_id w ≡ (err e, w))
  unfolding add_card_to_deck remove_card_from_deck update_deck delete_deck
  permission_denied user deck_id token_id name w h =
      elim (Option-cases (find_by_id model deck_id w.decks)) [
        | inl n ↦ rw n (refl, refl, refl, refl)
        | inr (d, f) ↦
            let strange : is_owner user d ≡ false = rw f at h in
            rw f (rw strange (refl, refl, refl, refl))
      ]

  abbrev pub AllValid : World S E → Type 0
  AllValid w = All (λ d. IsValid d.deck_cards) (model.docs w.decks)

  found-IsValid :
      (deck_id : ℕ) (w : World S E) (d : Deck)
      → AllValid w
      → find_by_id model deck_id w.decks ≡ some d
      → IsValid d.deck_cards
  found-IsValid deck_id w d h e =
      All-find_one model (λ x. IsValid x.deck_cards) (λ x. model.id x == deck_id) w.decks h e

  pub add_card_to_deck-AllValid :
      (user token_id deck_id : ℕ) (w : World S E)
      → AllValid w
      → AllValid (add_card_to_deck env user token_id deck_id w).1
  unfolding add_card_to_deck
  add_card_to_deck-AllValid user token_id deck_id w h =
      elim (Option-cases (find_by_id model deck_id w.decks)) [
        | inl n ↦ rw n h
        | inr (d, f) ↦ elim (Bool-cases (is_owner user d)) [
          | inr strange ↦ rw f (rw strange h)
          | inl owner ↦
              elim (Result-cases (env.find_and_check_token_by_user user token_id w.others).0) [
                | inr (x, e) ↦ rw f (rw (owner, e) h)
                | inl (token, e) ↦
                    elim (Result-cases
                      (add_card (to_hex_string token_id) (type_of token) d.deck_cards)) [
                        | inr (x, g) ↦ rw f (rw (owner, e, g) h)
                        | inl (cards, g) ↦ rw f (
                            rw (owner, e, g)
                              (All-update_one model (λ x. IsValid x.deck_cards) d.id
                                (λ x. record x { deck_cards = cards }) w.decks h
                                (λ x _ _.
                                  add_card-IsValid_any (to_hex_string token_id) (type_of token)
                                    d.deck_cards cards (found-IsValid deck_id w d h f) g)))
                      ]
              ]
        ]
      ]

  pub remove_card_from_deck-AllValid :
      (user token_id deck_id : ℕ) (w : World S E)
      → AllValid w
      → AllValid (remove_card_from_deck env user token_id deck_id w).1
  unfolding remove_card_from_deck
  remove_card_from_deck-AllValid user token_id deck_id w h =
      elim (Option-cases (find_by_id model deck_id w.decks)) [
        | inl n ↦ rw n h
        | inr (d, f) ↦ elim (Bool-cases (is_owner user d)) [
          | inr strange ↦ rw f (rw strange h)
          | inl owner ↦ rw f (
              rw owner (
                All-update_one model (λ x. IsValid x.deck_cards) d.id _ w.decks h
                  (λ x _ _.
                    (remove_card-IsValid (to_hex_string token_id) d.deck_cards
                      (found-IsValid deck_id w d h f)).0)))
        ]
      ]

  pub update_deck-AllValid :
      (user deck_id name : ℕ) (w : World S E)
      → AllValid w
      → AllValid (update_deck env user deck_id name w).1
  unfolding update_deck
  update_deck-AllValid user deck_id name w h =
      elim (Option-cases (find_by_id model deck_id w.decks)) [
        | inl n ↦ rw n h
        | inr (d, f) ↦ elim (Bool-cases (is_owner user d)) [
          | inr strange ↦ rw f (rw strange h)
          | inl owner ↦ rw f (
              rw owner
                (All-update_one model (λ x. IsValid x.deck_cards) d.id _ w.decks h (λ x _ v. v)))
        ]
      ]

  pub delete_deck-AllValid :
      (user deck_id : ℕ) (w : World S E) → AllValid w → AllValid (delete_deck env user deck_id w).1
  unfolding delete_deck
  delete_deck-AllValid user deck_id w h = elim (Option-cases (find_by_id model deck_id w.decks)) [
    | inl n ↦ rw n h
    | inr (d, f) ↦ elim (Bool-cases (is_owner user d)) [
      | inr strange ↦ rw f (rw strange h)
      | inl owner ↦ rw f (rw owner (All-delete model (λ x. IsValid x.deck_cards) _ w.decks h))
    ]
  ]

  pub create_deck-AllValid :
      (user name : ℕ) (w : World S E) → AllValid w → AllValid (create_deck env user name w).1
  unfolding create_deck
  create_deck-AllValid user name w h =
      elim (Bool-cases (leb 3 (model.count_documents (is_owner user) w.decks))) [
        | inl full ↦ rw full h
        | inr room ↦ rw room (
            All-create model (λ x. IsValid x.deck_cards)
              (λ i. record { id = i; name = name; owner = some user; deck_cards = [] }) w.decks h
              (record { slots = tt; tokens = tt }))
      ]
