-- ===== src/Deck/Service/Limit.antt =====
-- The limit of three decks to a user, over the number of a user's decks, and the calls of the deck
-- service in any order.
use zombiies_api.Common.{
  ℕ, ◌≤◌, ◌≡◌, refl, inl, inr, subst, Bool, false, some, List, [], ◌∷◌, ◌++◌, map, leb, ◌==◌,
  if◌then◌else◌, length, length-append, filter, arith, Bool-cases, Option-cases, Result-cases,
  find_by_id,
}
use zombiies_api.Deck.Model.{Deck}
use zombiies_api.Deck.Slots.{add_card}
use zombiies_api.Deck.Service.{
  DeckEnv, World, is_owner, type_of, remove_card_from_deck, add_card_to_deck, update_deck,
  create_deck, delete_deck,
}
use zombiies_api.Deck.Service.Owner.{
  AllValid, add_card_to_deck-AllValid, remove_card_from_deck-AllValid, update_deck-AllValid,
  delete_deck-AllValid, create_deck-AllValid,
}

count-map_if :
    (p q : Deck → Bool) (f : Deck → Deck) (ds : List Deck)
    → ((d : Deck) → p (f d) ≡ p d)
    → length (filter p (map (λ d. if q d then f d else d) ds)) ≡ length (filter p ds)
count-map_if p q f [] h = refl
count-map_if p q f (d ∷ ds) h = ground (arith, h d, count-map_if p q f ds h)

count-filter :
    (p q : Deck → Bool) (ds : List Deck) → length (filter p (filter q ds)) ≤ length (filter p ds)
count-filter p q [] = omega arith
count-filter p q (d ∷ ds) = ground (arith, count-filter p q ds)

filter-append :
    (p : Deck → Bool) (xs ys : List Deck) → filter p (xs ++ ys) ≡ filter p xs ++ filter p ys
filter-append p [] ys = refl
filter-append p (x ∷ xs) ys = ground (arith, filter-append p xs ys)

module _ {S E : Type 0} (env : DeckEnv S E) where
  open env use {model, to_hex_string}

  abbrev pub deck_count : ℕ → World S E → ℕ
  deck_count user w = length (filter (is_owner user) (model.docs w.decks))

  abbrev pub AtMostThree : World S E → Type 0
  AtMostThree w = (user : ℕ) → deck_count user w ≤ 3

  update-AtMostThree :
      (q : Deck → Bool) (f : Deck → Deck) (w : World S E)
      → ((d : Deck) → (f d).owner ≡ d.owner)
      → AtMostThree w
      → AtMostThree (record w { decks = model.update_many q f w.decks })
  update-AtMostThree q f w k h user =
      rw
        (
          model.update_many_lem q f w.decks,
          count-map_if (is_owner user) q f (model.docs w.decks) (λ d. rw (k d)),
        )
        (h user)

  add_card_to_deck-AtMostThree :
      (user token_id deck_id : ℕ) (w : World S E)
      → AtMostThree w
      → AtMostThree (add_card_to_deck env user token_id deck_id w).1
  unfolding add_card_to_deck
  add_card_to_deck-AtMostThree user token_id deck_id w h =
      elim (Option-cases (find_by_id model deck_id w.decks)) [
        | inl n ↦ rw n h
        | inr (d, f) ↦ elim (Bool-cases (is_owner user d)) [
          | inr strange ↦ rw f (rw strange h)
          | inl owner ↦
              elim (Result-cases (env.find_and_check_token_by_user user token_id w.others).0) [
                | inr (x, e) ↦ rw f (rw (owner, e) h)
                | inl (token, e) ↦
                    elim (Result-cases
                      (add_card (to_hex_string token_id) (type_of token) d.deck_cards)) [
                        | inr (x, g) ↦ rw f (rw (owner, e, g) h)
                        | inl (cards, g) ↦ rw f (
                            rw (owner, e, g)
                              (update-AtMostThree _ (λ x. record x { deck_cards = cards }) w
                                (λ _. refl) h))
                      ]
              ]
        ]
      ]

  remove_card_from_deck-AtMostThree :
      (user token_id deck_id : ℕ) (w : World S E)
      → AtMostThree w
      → AtMostThree (remove_card_from_deck env user token_id deck_id w).1
  unfolding remove_card_from_deck
  remove_card_from_deck-AtMostThree user token_id deck_id w h =
      elim (Option-cases (find_by_id model deck_id w.decks)) [
        | inl n ↦ rw n h
        | inr (d, f) ↦ elim (Bool-cases (is_owner user d)) [
          | inr strange ↦ rw f (rw strange h)
          | inl owner ↦ rw f (rw owner (update-AtMostThree _ _ w (λ _. refl) h))
        ]
      ]

  update_deck-AtMostThree :
      (user deck_id name : ℕ) (w : World S E)
      → AtMostThree w
      → AtMostThree (update_deck env user deck_id name w).1
  unfolding update_deck
  update_deck-AtMostThree user deck_id name w h =
      elim (Option-cases (find_by_id model deck_id w.decks)) [
        | inl n ↦ rw n h
        | inr (d, f) ↦ elim (Bool-cases (is_owner user d)) [
          | inr strange ↦ rw f (rw strange h)
          | inl owner ↦
              rw f (rw owner (update-AtMostThree _ (λ x. record x { name = name }) w (λ _. refl) h))
        ]
      ]

  delete_deck-AtMostThree :
      (user deck_id : ℕ) (w : World S E)
      → AtMostThree w
      → AtMostThree (delete_deck env user deck_id w).1
  unfolding delete_deck
  delete_deck-AtMostThree user deck_id w h =
      elim (Option-cases (find_by_id model deck_id w.decks)) [
        | inl n ↦ rw n h
        | inr (d, f) ↦ elim (Bool-cases (is_owner user d)) [
          | inr strange ↦ rw f (rw strange h)
          | inl owner ↦ rw f (
              rw owner (λ u.
                rw model.delete_many_lem
                  (omega (arith, count-filter (is_owner u) _ (model.docs w.decks), h u))))
        ]
      ]

  create_deck-AtMostThree :
      (user name : ℕ) (w : World S E) → AtMostThree w → AtMostThree (create_deck env user name w).1
  unfolding create_deck
  create_deck-AtMostThree user name w h =
      elim (Bool-cases (leb 3 (model.count_documents (is_owner user) w.decks))) [
        | inl full ↦ rw full h
        | inr room ↦
            rw room
              (λ u. one_more u (rw (model.count_documents_lem (is_owner user) w.decks) at room))
      ]
    where
      new : Deck
      new = record { id = model.new_id w.decks; name = name; owner = some user; deck_cards = [] }

      one_more :
          (u : ℕ)
          → leb 3 (deck_count user w) ≡ false
          → length
              (filter (is_owner u) (model.docs (model.create (λ i. record new { id = i }) w.decks)))
            ≤ 3
      one_more u room =
          rw
            (
              model.create_lem,
              filter-append (is_owner u) (model.docs w.decks) (new ∷ []),
              length-append (filter (is_owner u) (model.docs w.decks)),
            )
            (elim (Bool-cases (user == u)) [
              | inl e ↦
                  let same : user ≡ u = ground (arith, e) in
                  let few : deck_count u w ≤ 2 =
                    subst (λ (x : ℕ). deck_count x w ≤ 2) same (ground (arith, room)) in
                  rw e (omega (arith, few))
              | inr e ↦ rw e (omega (arith, h u))
            ])

-- A call of the deck service.
pub data Call : Type 0 where
  creates : (user name : ℕ) → Call
  adds removes : (user token_id deck_id : ℕ) → Call
  renames : (user deck_id name : ℕ) → Call
  deletes : (user deck_id : ℕ) → Call

module _ {S E : Type 0} (env : DeckEnv S E) where
  unfoldable pub after_call : Call → World S E → World S E
  after_call (creates user name) w = (create_deck env user name w).1
  after_call (adds user token_id deck_id) w = (add_card_to_deck env user token_id deck_id w).1
  after_call (removes user token_id deck_id) w =
      (remove_card_from_deck env user token_id deck_id w).1
  after_call (renames user deck_id name) w = (update_deck env user deck_id name w).1
  after_call (deletes user deck_id) w = (delete_deck env user deck_id w).1

  unfoldable pub after_calls : List Call → World S E → World S E
  unfolding after_call
  after_calls [] w = w
  after_calls (c ∷ cs) w = after_calls cs (after_call c w)

  pub record Inv (w : World S E) : Type 0 where
    pub valid : AllValid env w
    pub limited : AtMostThree env w

  after_call-Inv : (c : Call) (w : World S E) → Inv w → Inv (after_call c w)
  unfolding after_call
  after_call-Inv (creates user name) w v = record {
    valid = create_deck-AllValid env user name w v.valid;
    limited = create_deck-AtMostThree env user name w v.limited;
  }
  after_call-Inv (adds user token_id deck_id) w v = record {
    valid = add_card_to_deck-AllValid env user token_id deck_id w v.valid;
    limited = add_card_to_deck-AtMostThree env user token_id deck_id w v.limited;
  }
  after_call-Inv (removes user token_id deck_id) w v = record {
    valid = remove_card_from_deck-AllValid env user token_id deck_id w v.valid;
    limited = remove_card_from_deck-AtMostThree env user token_id deck_id w v.limited;
  }
  after_call-Inv (renames user deck_id name) w v = record {
    valid = update_deck-AllValid env user deck_id name w v.valid;
    limited = update_deck-AtMostThree env user deck_id name w v.limited;
  }
  after_call-Inv (deletes user deck_id) w v = record {
    valid = delete_deck-AllValid env user deck_id w v.valid;
    limited = delete_deck-AtMostThree env user deck_id w v.limited;
  }

  -- Whatever calls the deck service gets, one after the other, every deck stays valid and no user has
  -- more than three decks.
  pub after_calls-Inv : (cs : List Call) (w : World S E) → Inv w → Inv (after_calls cs w)
  unfolding after_calls
  after_calls-Inv [] w v = v
  after_calls-Inv (c ∷ cs) w v = after_calls-Inv cs (after_call c w) (after_call-Inv c w v)
