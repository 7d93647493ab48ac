-- ===== src/Card/Service.antt =====
-- src/module/card/card.service.ts: the methods of the card service over the collections of cards and
-- users and the contract.
pub mod History
pub mod LevelUp
use Prim.Native.String.{String}
use zombiies_api.Common.{
  ℕ, zero, suc, ◌+◌, ◌<◌, ◌≡◌, Bool, true, false, not, ◌&&◌, Option, none, some, List, [], ◌∷◌,
  ◌==◌, ltb, if◌then◌else◌, length, map, find, Result, ok, err, Error, bad_request, forbidden,
  internal, external, type_error, or_throw, throw_if, Action, and_then, try_catch, lift, gets,
  modify, Collection, find_by_id,
}
use zombiies_api.Common.Async.{◌>>=◌, ◌>>◌}
use zombiies_api.User.Model.{User}
use zombiies_api.Ether
use zombiies_api.Ether.{Chain, ContractToken, Receipt}
use zombiies_api.Ether.Wallets.{EtherClient, WalletSigner, get_wallet_of_user, owner_wallet}
use zombiies_api.Card.Model.{CardTokenModel, CardType, monster, equipment, RareLevel, common, elite}
use zombiies_api.Card.Receipt.{get_token_ids_from_receipt}
use zombiies_api.Card.Schema.{Card, CardData}
use zombiies_api.Card.Draws.{Draws, no_draws, draw_cards, fits}
use zombiies_api.Card.Tokens.{get_card_tokens_from_token, matching}

-- What is stored on IPFS: the proof of a new token, and what src/module/card/command/card.command.ts
-- stores, the data of a card and the uris of all cards, and the constant proof of
-- src/common/command/seed.command.ts.
pub data Proof : Type 0 where
  bought : ℕ → Draws → Proof
  rewarded : ℕ → ℕ → Proof
  sacrificed : List ℕ → ℕ → Proof
  seeded : CardData → Proof
  factory : List ℕ → Proof
  seed : Proof

-- `next_int seed k max` is the `k`-th `nextInt(rng, max)` of the generator of a seed, and `put_object`
-- stores a proof and gives its `cidToUri`.
pub record CardEnv (S U C : Type 0) : Type 0 where
  pub card_model : Collection S Card
  pub user_model : Collection U User
  pub client : EtherClient C
  pub next_int : ℕ → ℕ → ℕ → ℕ
  pub next_int_range : (seed k max : ℕ) → 0 < max → next_int seed k max < max
  pub coin : ℕ → Bool
  pub put_object : Proof → Action C ℕ
  pub put_object_lem :
      (p : Proof) (c : C) → client.chain.history (put_object p c).1 ≡ client.chain.history c
  pub to_hex_string : ℕ → ℕ

pub record World (S U C : Type 0) : Type 0 where
  pub cards : S
  pub users : U
  pub chain_state : C
  pub draws : ℕ

-- `findOne().sort({ endSeed: -1 })`.
abbrev pub highest : List Card → Option Card
highest [] = none
highest (c ∷ cs) = elim (highest cs) [
  | none ↦ some c
  | some h ↦ if ltb c.end_seed h.end_seed then some h else some c
]

abbrev pub head_of {ℓ} : {A : Type ℓ} → List A → Option A
head_of [] = none
head_of (x ∷ xs) = some x

module _ {S U C : Type 0} (env : CardEnv S U C) where
  open env use {card_model, client}
  open client use {chain}

  abbrev pub CardAction : Type 0 → Type 0
  CardAction = Action (World S U C)

  abbrev pub on_chain : {A : Type 0} → Action C A → CardAction A
  on_chain m w = let (r, c) = m w.chain_state in (r, record w { chain_state = c })

  abbrev pub get_all_card : CardAction (List Card)
  get_all_card = gets (λ w. card_model.find_many (λ c. true) w.cards)

  abbrev pub get_max_card_seed : S → Result ℕ
  get_max_card_seed s = elim (highest (card_model.find_many (λ c. true) s)) [
    | none ↦ err type_error
    | some c ↦ ok c.end_seed
  ]

  abbrev pub write_cards : (S → S) → CardAction (Unit {0})
  write_cards f = modify (λ w. record w { cards = f w.cards })

  -- The new document is built from its `_id`, and `tokenUri` has a unique index.
  unfoldable pub create_card : (ℕ → Card) → CardAction Card
  create_card params = do
    id ← gets (λ w. card_model.new_id w.cards)
    taken ← gets (λ w. card_model.find_one (λ c. c.token_uri == (params id).token_uri) w.cards)
    lift (elim taken [ none ↦ ok tt | some c ↦ err (external "E11000 duplicate key error") ])
    write_cards (card_model.create params)
    lift (ok (params id))

  unfoldable pub delete_all : CardAction (Unit {0})
  delete_all = write_cards (card_model.delete_many (λ c. true))

  abbrev pub find_one : (Card → Bool) → CardAction (Option Card)
  find_one query = gets (λ w. card_model.find_one query w.cards)

  abbrev pub get_next_level_card : CardTokenModel → CardAction (Option Card)
  get_next_level_card card = find_one (λ c. (c.level == card.level + 1) && (c.name == card.name))

  abbrev pub get_mint_fee : CardAction ℕ
  get_mint_fee = on_chain chain.get_mint_fee

  abbrev pub card_tokens : List ContractToken → Option CardType → CardAction (List CardTokenModel)
  card_tokens tokens type =
      gets (λ w. get_card_tokens_from_token card_model env.to_hex_string tokens type w.cards)

  abbrev pub find_card_tokens : List ℕ → CardAction (List CardTokenModel)
  find_card_tokens ids = do tokens ← on_chain (chain.tokens_in ids); card_tokens tokens none

  abbrev pub find_one_card_token : ℕ → CardAction (Option CardTokenModel)
  find_one_card_token id = do tokens ← find_card_tokens (id ∷ []); lift (ok (head_of tokens))

  -- A receipt without a token has no id to ask the contract for.
  abbrev pub find_token_of : List ℕ → CardAction (Option CardTokenModel)
  find_token_of ids = do
    id ← lift (or_throw (head_of ids) (external "invalid BigNumber value"))
    find_one_card_token id

  abbrev pub get_card_tokens_of_user : User → Option CardType → CardAction (List CardTokenModel)
  get_card_tokens_of_user user type = do
    tokens ← on_chain (chain.tokens_of (get_wallet_of_user client user).address)
    card_tokens tokens type

  abbrev pub is_owner_of : ℕ → ℕ → CardAction Bool
  is_owner_of address token = on_chain (Ether.is_owner_of chain address token)

  unfoldable pub find_and_check_token_by_user : User → ℕ → CardAction (Option CardTokenModel)
  find_and_check_token_by_user user token_id = do
    token ← find_one_card_token token_id
    owns ← is_owner_of (get_wallet_of_user client user).address token_id
    lift (throw_if (not owns) (forbidden "You do not have permission to do this action"))
    lift (ok token)

  -- The owners are asked one after another; the first refusal ends the call.
  unfoldable pub check_owners : ℕ → List ℕ → CardAction (Unit {0})
  check_owners address [] = lift (ok tt)
  check_owners address (id ∷ ids) = do
    owns ← is_owner_of address id
    lift (throw_if (not owns) (forbidden "You do not have permission with this token"))
    check_owners address ids

  -- The contract burns the tokens and mints one of the next level.
  unfoldable pub level_up_to : ℕ → List ℕ → Card → CardAction CardTokenModel
  level_up_to address ids next = do
    proof_uri ← on_chain (env.put_object (sacrificed ids next.token_uri))
    receipt ← on_chain (Ether.level_up_tokens chain address ids next.token_uri proof_uri)
    token ← find_token_of (get_token_ids_from_receipt (λ from to. to == address) receipt.events)
    lift (or_throw token (internal "Unknown error, please try later"))

  unfoldable pub level_up_card : User → List ℕ → CardAction CardTokenModel
  unfolding check_owners level_up_to
  level_up_card user ids = do
    let wallet = get_wallet_of_user client user
    check_owners wallet.address ids
    sacrifices ← find_card_tokens ids
    first ← lift (matching sacrifices)
    found ← get_next_level_card first
    next ← lift (or_throw found (bad_request "Can not level up these cards"))
    level_up_to wallet.address ids next
