-- ===== src/Match/Combat/Damage.antt =====
-- One attack of `castSkill`: what it does to the board it is aimed at.
use zombiies_api.Common.{
  ℕ, ◌+◌, ◌-◌, ◌*◌, ◌/◌, ◌≤◌, ◌≡◌, subst, ◌≢◌, ◌↔◌, refl, inl, inr, true, none, some, List, Random,
  arith, Bool-cases, Option-cases,
}
use zombiies_api.Card.Model.{random, CardSkillModel}
use zombiies_api.Match.Model.{BoardCardModel, AttackEventModel}
use zombiies_api.Match.Combat.{
  get_hp_of, get_target, can_attack, get_dame, attack_event, cast_skill,
}
use zombiies_api.Match.Combat.Boards.{
  card_of, hp_left, IsAlive, IsDistinct, get_hp_of-sub_hp_of, card_of-hit_board,
  get_target_on_board,
}

-- The damage of a skill: its value, or for `RANDOM` a draw from half of it, rounded down, to one
-- and a half times it, rounded up.
pub get_dame_range :
    (r : Random) (k : ℕ) (skill : CardSkillModel)
    → let dame = (get_dame r k skill).0 in
      (skill.type ≢ random → dame ≡ skill.value)
      × (skill.value / 2 ≤ dame)
      × (dame ≤ (3 * skill.value + 1) / 2)
unfolding get_dame
get_dame_range r k skill =
    ground (arith, r.random_int_range k (skill.value / 2) ((3 * skill.value + 1) / 2 + 1))

-- What an attack event says of the attack.
pub record IsHit (card : BoardCardModel) (skill : CardSkillModel) (board : List BoardCardModel)
    (e : AttackEventModel) (t : BoardCardModel) : Type 0 where
  pub on_board : card_of t.card.token_id board ≡ some t
  pub allowed : can_attack card.position skill.type ≡ true
  pub attacker : e.token_id ≡ card.card.token_id
  pub aim : e.to_position ≡ t.position
  pub used : e.skill ≡ skill
  pub exact : skill.type ≢ random → e.damage ≡ skill.value
  pub least : skill.value / 2 ≤ e.damage
  pub most : e.damage ≤ (3 * skill.value + 1) / 2
  pub destroyed : (e.destroy ≡ true) ↔ (card_of t.card.token_id e.target_on_board ≡ none)
  pub hp_after : hp_left t.card.token_id e.target_on_board ≡ get_hp_of t.card - e.damage
  pub others : (j : ℕ) → j ≢ t.card.token_id → card_of j e.target_on_board ≡ card_of j board

attack_event-IsHit :
    (dame : ℕ) (card : BoardCardModel) (skill : CardSkillModel) (board : List BoardCardModel)
    (t : BoardCardModel)
    → IsAlive board
    → IsDistinct board
    → card_of t.card.token_id board ≡ some t
    → can_attack card.position skill.type ≡ true
    → (skill.type ≢ random → dame ≡ skill.value)
    → skill.value / 2 ≤ dame
    → dame ≤ (3 * skill.value + 1) / 2
    → IsHit card skill board (attack_event card skill board t dame) t
attack_event-IsHit dame card skill board t a d f c x l m =
    let token = t.card.token_id in
    let hit = card_of-hit_board token token dame board a d in
    record {
      on_board = f;
      allowed = c;
      attacker = refl;
      aim = refl;
      used = refl;
      exact = x;
      least = l;
      most = m;
      destroyed = ground (arith, hit, f);
      hp_after = ground (arith, hit, f, get_hp_of-sub_hp_of t dame);
      others = λ j ne. ground (arith, card_of-hit_board j token dame board a d, ne);
    }

-- On a target board whose cards are all alive and have distinct tokens, an attack event is right:
-- the attacker may attack from its position, the target is a card of the target board, the damage
-- is the skill's value or, of a random skill, from half of it, rounded down, to one and a half of
-- it, rounded up, `destroy` says exactly that the target left the board, the target has its health
-- points less the damage, and no other card has changed.
pub cast_skill-IsHit :
    (r : Random) (k k' : ℕ) (card : BoardCardModel) (skill : CardSkillModel)
    (board : List BoardCardModel) (e : AttackEventModel)
    → IsAlive board
    → IsDistinct board
    → cast_skill r k card skill board ≡ (some e, k')
    → (t : BoardCardModel) × IsHit card skill board e t
unfolding cast_skill
cast_skill-IsHit r k k' card skill board e a d h =
    elim (Bool-cases (can_attack card.position skill.type)) [
      | inr barred ↦ absurd (ground (arith, barred))
      | inl allowed ↦ elim (Option-cases (get_target r k card.position skill.type board).0) [
        | inl n ↦ absurd (ground (arith, n, allowed))
        | inr (t, f) ↦
            let k₁ = (get_target r k card.position skill.type board).1 in
            let dame = (get_dame r k₁ skill).0 in
            let same : attack_event card skill board t dame ≡ e = ground (arith, f, allowed) in
            let range = get_dame_range r k₁ skill in
            (
              t,
              subst (λ (x : AttackEventModel). IsHit card skill board x t) same
                  (attack_event-IsHit dame card skill board t a d
                    (get_target_on_board r k card.position skill.type board d f) allowed range.0
                    range.1 range.2),
            )
      ]
    ]
