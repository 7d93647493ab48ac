-- ===== src/Card/Tests.antt =====
-- Two levels of one card in memory, on a chain that mines every transaction.
use zombiies_api.Common.{
  ℕ, Bool, length, map, ◌*◌, ◌+◌, ◌≤◌, ◌<◌, ◌≡◌, refl, true, false, Option, none, some, List, [],
  ◌∷◌, All, Result, ok, arith,
}
use zombiies_api.Common.Memory.{memory}
use zombiies_api.User.Model.{User, UserRole}
use zombiies_api.User.Model
use zombiies_api.Ether.{Transfer, paid, minted, Receipt}
use zombiies_api.Ether.Memory.{mined, token}
use zombiies_api.Ether.Wallets.{
  EtherClient, create_wallet_from_private_key_cipher, create_new_private_key_cipher,
  create_new_private_key_cipher-wallet,
}
use zombiies_api.Card.Model.{CardTokenModel, monster, equipment, common, chaos}
use zombiies_api.Card.Schema.{Card, accept_rare_levels}
use zombiies_api.Card.Receipt.{get_token_ids_from_receipt}
use zombiies_api.Card.Draws.{Draws, no_draws}
use zombiies_api.Card.Draws.Ends.{IsFirst, extend}
use zombiies_api.Card.Draws.{draw_cards}
use zombiies_api.Card.Tokens.{get_card_tokens_from_token}
use zombiies_api.Card.Tokens.Join.{joined, get_card_tokens_from_token-joined}
use zombiies_api.Card.Service.{CardEnv, World, get_max_card_seed}
use zombiies_api.Card.Seed.{seed_token, seed_rounds, choose, mint_card, mint_copies}
use zombiies_api.Card.Seed.Copies.{copies}
use zombiies_api.Card.Seed.Choices.{DrawsEnd}
use zombiies_api.Card.Seed.Rounds.{Prints, seed_token-Prints}
use zombiies_api.Card.Mint.{get_random_cards, draw_from, mint, pay_fee}
use zombiies_api.Card.Mint.Ends.{IsFit, get_random_cards-ends}
use zombiies_api.Card.Mint.Outcome.{MintOutcome, mint-MintOutcome}
use zombiies_api.Common.Keys.{count}
use zombiies_api.Card.Schema.{CardData}
use zombiies_api.Card.Service.{delete_all, create_card}
use zombiies_api.Card.Command.{data_chunks}
use zombiies_api.Card.Command.Chunks.{concat, data_chunks_lem}
use zombiies_api.Card.Command.Jobs.Seeded.{Steps-seeded}
use zombiies_api.Card.Command.Jobs.Bag.{bag, max_seed_of, Steps-bag}
use zombiies_api.Card.Command.Jobs.{
  start_job, Seeding, data_of, Steps, begin, then_step, stores, creates, IsDone, start_seeding,
}

abbrev zombie : ℕ → Card
zombie level = record {
  id = level;
  name = 1;
  cost = 3;
  rare_level = common;
  faction = chaos;
  type = monster;
  token_uri = 6 + level;
  level = level;
  skills = [];
  start_seed = 0;
  end_seed = 10;
  total_seeds = 10;
}

abbrev cards : List Card
cards = zombie 1 ∷ zombie 2 ∷ []

abbrev pub alice : User
alice = record {
  id = 5;
  username = 50;
  email = 51;
  password_digest = 52;
  private_key_cipher = 5;
  is_verified = false;
  role = Model.user;
}

-- A wallet's address is its key and a hundred; nothing is encrypted.
abbrev client : EtherClient (List Transfer)
client = record {
  chain = mined;
  create_wallet = λ key. record { address = 100 + key; private_key = key };
  create_random_wallet = λ c. (record { address = 109; private_key = 9 }, c);
  encrypt = λ text secret c. (text, c);
  decrypt = λ cipher secret. cipher;
  owner_private_key = 1;
  private_key_secret = 0;
  parse_ether_tenth = 3;
  create_wallet-random_wallet = λ c. refl;
  decrypt-encrypt = λ text secret c. refl;
  create_random_wallet_lem = λ c. refl;
  encrypt_lem = λ text secret c. refl;
}

pub least_in_range : (seed k max : ℕ) → 0 < max → 0 < max
least_in_range seed k max h = h

abbrev pub env : CardEnv (List Card) (List User) (List Transfer)
env = record {
  card_model = memory (λ c. c.id);
  user_model = memory (λ u. u.id);
  client = client;
  next_int = λ seed k max. 0;
  next_int_range = least_in_range;
  coin = λ k. true;
  put_object = λ p c. (ok 60, c);
  put_object_lem = λ p c. refl;
  to_hex_string = λ n. n;
}

abbrev pub world : World (List Card) (List User) (List Transfer)
world = record { cards = cards; users = alice ∷ []; chain_state = []; draws = 0 }

cipher_works : (create_new_private_key_cipher client true []).0 ≡ ok 9
unfolding create_new_private_key_cipher
cipher_works = refl

create_new_private_key_cipher-wallet_example :
    (create_wallet_from_private_key_cipher client 9 ≡ record { address = 109; private_key = 9 })
    × ((create_new_private_key_cipher client true []).1 ≡ paid 101 109 3 ∷ [])
create_new_private_key_cipher-wallet_example =
    create_new_private_key_cipher-wallet client true 9 [] cipher_works

get_card_tokens_from_token-joined_example :
    get_card_tokens_from_token env.card_model (λ n. n) (token 30 ∷ token 31 ∷ []) none cards
    ≡ joined none cards (λ n. n) (token 30 ∷ token 31 ∷ [])
get_card_tokens_from_token-joined_example =
    get_card_tokens_from_token-joined env.card_model (λ n. n) (token 30 ∷ token 31 ∷ []) none cards
      (refl, (refl, tt))

get_random_cards-ends_example :
    let find_card = draw_from env 8 1 common monster 10 cards in
    (m : ℕ) × (m ≤ 1)
    × IsFirst find_card (λ j. 0) 1 0 m no_draws
    × (get_random_cards env 4 8 monster 1 1 common cards
        ≡ some (ok (extend find_card (λ j. 0) 0 m no_draws)))
    × All (IsFit env 1 common monster) (extend find_card (λ j. 0) 0 m no_draws).cards
unfolding accept_rare_levels
get_random_cards-ends_example =
    get_random_cards-ends env 4 1 8 1 10 1 common monster cards refl (omega arith) (omega arith)
      (omega arith)

-- The token of the receipt, 30, has the uri of the first card.
abbrev bought_token : Option CardTokenModel
bought_token = some (record {
  token_id = 30;
  name = 1;
  cost = 3;
  rare_level = common;
  faction = chaos;
  type = monster;
  token_uri = 7;
  level = 1;
  skills = [];
})

-- The draw that the payment starts ends within 4 steps.
mint_draws :
    (p : ℕ × Receipt)
    → (pay_fee env alice world).0 ≡ ok p
    → (draws : Result Draws) × (get_random_cards env 4 p.1.transaction_hash monster 1 1 common
          world.cards
        ≡ some draws)
unfolding get_random_cards draw_cards accept_rare_levels
mint_draws p e = (_, refl)

mint-MintOutcome_example :
    (out : Result (Option CardTokenModel) × World (List Card) (List User) (List Transfer)) × (mint
        env 4 alice monster world
      ≡ some out)
    × MintOutcome env 4 alice monster world out
mint-MintOutcome_example = mint-MintOutcome env 4 alice monster world mint_draws

mint_works :
    (v : World (List Card) (List User) (List Transfer)) × (mint env 4 alice monster world
      ≡ some (ok bought_token, v))
unfolding mint draw_cards get_card_tokens_from_token accept_rare_levels get_token_ids_from_receipt
mint_works = (_, refl)

abbrev boxes : List ℕ
boxes = 7 ∷ 8 ∷ 9 ∷ []

data_chunks_lem_example :
    (concat (data_chunks boxes 2) ≡ boxes)
    × (length (data_chunks boxes 2) ≡ 2)
    × All (λ c. length c ≤ 2) (data_chunks boxes 2)
data_chunks_lem_example = data_chunks_lem boxes 2 (omega arith)

abbrev seed_card : CardData
seed_card = data_of (zombie 1)

abbrev seeded_world : World (List Card) (List User) (List Transfer)
seeded_world = record world { cards = record (zombie 1) { token_uri = 60 } ∷ [] }

abbrev seeded : Seeding (List Card) (List User) (List Transfer)
seeded = record { jobs = start_job [] ∷ start_job [] ∷ []; world = seeded_world; seeded_count = 1 }

-- The only one of two jobs that has a card stores its data and creates the document.
seeding_run : Steps env (start_seeding env (seed_card ∷ []) 2 world) 2 seeded
unfolding data_chunks delete_all create_card
seeding_run =
    then_step (then_step begin (stores [] (start_job [] ∷ []) seed_card [] 60 _ refl refl refl))
      (creates [] (start_job [] ∷ []) seed_card [] 60 _ _ refl refl refl)

Steps-seeded_example :
    (2 ≤ 2 * length (seed_card ∷ []))
    × (All (IsDone env) seeded.jobs
        → (2 ≡ 2 * length (seed_card ∷ []))
          × (seeded.seeded_count ≡ length (seed_card ∷ []))
          × ((p : CardData → Bool)
              → count p (map data_of seeded.world.cards) ≡ count p (seed_card ∷ [])))
Steps-seeded_example = Steps-seeded env (seed_card ∷ []) 2 2 world seeded (omega arith) seeding_run

Steps-bag_example :
    (bag (map data_of seeded.world.cards) ≡ bag (seed_card ∷ []))
    × (get_max_card_seed env seeded.world.cards ≡ ok (max_seed_of (bag (seed_card ∷ []))))
Steps-bag_example =
    Steps-bag env (seed_card ∷ []) 2 2 world seeded (omega arith) seeding_run
      ((refl, refl), ((refl, refl), tt))

-- A monster and an equipment, of which one is drawn whatever the type.
abbrev drawn_world : World (List Card) (List User) (List Transfer)
drawn_world = record world {
  cards = zombie 1 ∷ record (zombie 2) { type = equipment; token_uri = 20 } ∷ [];
}

seed-DrawsEnd : DrawsEnd env (λ k. k) 3 none drawn_world.cards
unfolding get_random_cards draw_cards accept_rare_levels
seed-DrawsEnd k = (ok _, refl)

seed_token-Prints_example :
    (out : Result (Unit {0}) × World (List Card) (List User) (List Transfer)) × (seed_token env
        (λ k. k)
        3
        5
        none
        2
        2
        drawn_world
      ≡ some out)
    × Prints env 105 none 2 2 drawn_world.cards [] out
seed_token-Prints_example =
    seed_token-Prints env (λ k. k) 3 5 none 2 2 drawn_world alice refl seed-DrawsEnd

-- Two drawn cards, two tokens each.
seeds_four :
    (v : World (List Card) (List User) (List Transfer)) × (seed_token env
        (λ k. k)
        3
        5
        none
        2
        2
        drawn_world
      ≡ some (ok tt, v))
    × (v.chain_state ≡ copies 4 (minted 105 7 60))
unfolding seed_token seed_rounds choose get_random_cards draw_cards accept_rare_levels mint_card
    mint_copies get_token_ids_from_receipt get_card_tokens_from_token
seeds_four = (_, refl, refl)

-- A uri that names no card ends the command.
seeds_none : seed_token env (λ k. k) 0 5 (some 99) 2 2 drawn_world ≡ some (ok tt, drawn_world)
unfolding seed_token seed_rounds choose
seeds_none = refl
