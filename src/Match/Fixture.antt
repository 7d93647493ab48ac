-- ===== src/Match/Fixture.antt =====
-- Concrete cards, players and a match service in memory, for the tests of Match.
use zombiies_api.Common.{
  ℕ, ◌+◌, ◌≡◌, refl, inl, inr, true, false, not, none, some, List, [], ◌∷◌, filter, ok, arith,
  Bool-cases,
}
use zombiies_api.Common.Memory.{memory, memory_queue, least_draws}
use zombiies_api.Card.Model.{
  CardSkillType, melee, magic, random, hp, armor, CardSkillModel, CardTokenModel, CardType, monster,
  equipment, common, chaos, skill_type_eq,
}
use zombiies_api.Deck.Model.{DeckCardModel}
use zombiies_api.Match.Model.{BoardCardModel, PlayerStatusModel, Match}
use zombiies_api.Match.Combat.{find_skill}
use zombiies_api.Match.Hand.{Lodash}
use zombiies_api.Match.Service.{MatchEnv, World}

abbrev pub skill : CardSkillType → ℕ → CardSkillModel
skill t v = record { type = t; value = v }

abbrev pub card : ℕ → CardType → ℕ → List CardSkillModel → CardTokenModel
card token type cost skills = record {
  token_id = token;
  name = token;
  cost = cost;
  rare_level = common;
  faction = chaos;
  type = type;
  token_uri = token;
  level = 1;
  skills = skills;
}

abbrev pub placed : CardTokenModel → ℕ → BoardCardModel
placed c p = record { card = c; equipment = none; position = p }

abbrev pub biter : CardTokenModel
biter = card 11 monster 3 (skill hp 7 ∷ skill melee 3 ∷ [])

abbrev pub mage : CardTokenModel
mage = card 12 monster 4 (skill hp 5 ∷ skill magic 2 ∷ skill random 3 ∷ [])

abbrev pub shield : CardTokenModel
shield = card 13 equipment 1 (skill armor 4 ∷ [])

abbrev pub enemy : List BoardCardModel
enemy =
    placed (card 21 monster 2 (skill hp 3 ∷ [])) 1
    ∷ placed (card 22 monster 2 (skill hp 6 ∷ [])) 2
    ∷ []

abbrev pub attackers : List BoardCardModel
attackers = placed biter 1 ∷ placed mage 2 ∷ []

-- `unionBy` of one list: a skill is followed by those of other types.
abbrev pub without_type : CardSkillType → List CardSkillModel → List CardSkillModel
without_type t = filter (λ s. not (skill_type_eq s.type t))

abbrev pub first_by_type : List CardSkillModel → List CardSkillModel
first_by_type [] = []
first_by_type (s ∷ ss) = s ∷ without_type s.type (first_by_type ss)

find_skill-without_type :
    (t u : CardSkillType) (skills : List CardSkillModel)
    → skill_type_eq u t ≡ false
    → find_skill t (without_type u skills) ≡ find_skill t skills
find_skill-without_type t u [] h = refl
find_skill-without_type t u (s ∷ ss) h = ground (arith, find_skill-without_type t u ss h)

pub find_skill-first_by_type :
    (t : CardSkillType) (skills : List CardSkillModel)
    → find_skill t (first_by_type skills) ≡ find_skill t skills
find_skill-first_by_type t [] = refl
find_skill-first_by_type t (s ∷ ss) = elim (Bool-cases (skill_type_eq s.type t)) [
  | inl e ↦ rw e
  | inr e ↦
      rw (e, find_skill-without_type t s.type (first_by_type ss) e, find_skill-first_by_type t ss)
]

abbrev pub lodash : Lodash
lodash = record {
  union_by_type = first_by_type;
  find_skill-union_by_type = find_skill-first_by_type;
}

abbrev pub in_hand : CardTokenModel → DeckCardModel
in_hand c = record { position = 0; token = some c }

abbrev pub alice : PlayerStatusModel
alice = record {
  player_id = 1;
  on_board = attackers;
  on_hand = in_hand (card 14 monster 2 (skill hp 2 ∷ [])) ∷ in_hand shield ∷ [];
  crystal = 5;
  in_turn = true;
  confirm_turn = false;
}

abbrev pub bob : PlayerStatusModel
bob = record {
  player_id = 2;
  on_board = enemy;
  on_hand = in_hand (card 23 monster 2 (skill hp 2 ∷ [])) ∷ [];
  crystal = 0;
  in_turn = false;
  confirm_turn = false;
}

abbrev pub duel : List PlayerStatusModel
duel = alice ∷ bob ∷ []

abbrev pub the_match : Match
the_match = record { id = 1; player_statuses = duel; timeout_job_id = some 1; winner_id = none }

-- Every user has the same empty deck, and every award is token 99.
abbrev pub env : MatchEnv (List Match) (List (ℕ × ℕ)) ℕ
env = record {
  model = memory (λ m. m.id);
  id_lem = λ m. refl;
  match_queue = memory_queue;
  random = least_draws;
  lodash = lodash;
  award = λ winner m e. (ok (some (card 99 monster 1 [])), e + 1);
  owned_deck_by_user_id =
      λ user e. (ok (some (record { id = 1; name = 1; owner = some user; deck_cards = [] })), e);
  get_deck_card_models = λ cards e. (ok [], e);
}

abbrev pub world : World (List Match) (List (ℕ × ℕ)) ℕ
world = record { matches = the_match ∷ []; jobs = (1, 1) ∷ []; others = 0; draws = 0; events = [] }
