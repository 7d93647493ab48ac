-- ===== src/Card/Model.antt =====
-- src/module/card: the enumerations, the skills of a card, and a card with its token
-- (enum/*.enum.ts, model/*.model.ts). Token ids, names and addresses are only compared, so they
-- are numbers; skill values and costs are the natural numbers of the seeded cards.
use zombiies_api.Common.{ℕ, ◌≡◌, Bool, true, false, List, ◌==◌, arith}

pub data CardSkillType : Type 0 where
  melee ranged magic random hp armor : CardSkillType

pub data CardType : Type 0 where
  monster equipment : CardType

pub data Faction : Type 0 where
  chaos nature balance fortune war neutral : Faction

pub data RareLevel : Type 0 where
  common rare epic legendary elite : RareLevel

pub record CardSkillModel : Type 0 where
  pub type : CardSkillType
  pub value : ℕ

pub record CardTokenModel : Type 0 where
  pub token_id : ℕ
  pub name : ℕ
  pub cost : ℕ
  pub rare_level : RareLevel
  pub faction : Faction
  pub type : CardType
  pub token_uri : ℕ
  pub level : ℕ
  pub skills : List CardSkillModel

abbrev ordinal : CardSkillType → ℕ
ordinal melee = 0
ordinal ranged = 1
ordinal magic = 2
ordinal random = 3
ordinal hp = 4
ordinal armor = 5

-- `a === b` on skill types.
abbrev pub skill_type_eq : CardSkillType → CardSkillType → Bool
skill_type_eq a b = ordinal a == ordinal b

pub skill_type_eq_sound : (a b : CardSkillType) → skill_type_eq a b ≡ true → a ≡ b
skill_type_eq_sound a b h = ground arith

pub skill_type_eq_refl : (a : CardSkillType) → skill_type_eq a a ≡ true
skill_type_eq_refl a = ground arith

-- `type === CardType.MONSTER` and `type === CardType.EQUIPMENT`.
abbrev pub is_monster : CardType → Bool
is_monster monster = true
is_monster equipment = false

abbrev pub is_equipment : CardType → Bool
is_equipment monster = false
is_equipment equipment = true
