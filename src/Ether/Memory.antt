-- ===== src/Ether/Memory.antt =====
-- A chain that mines every transaction, whose state is its history. Token `n` has the uri 7 and the
-- owner 105; the receipt of every transaction transfers token 30 to address 105.
use zombiies_api.Common.{ℕ, refl, true, some, List, [], ◌∷◌, ◌++◌, map, ok}
use zombiies_api.Ether.{Chain, Transfer, paid, moved, minted, levelled_up, Receipt, ContractToken}

abbrev pub receipt : ℕ → Receipt
receipt hash = record {
  transaction_hash = hash;
  events =
      record { is_transfer = true; args = some (record { from = 0; to = 105; token_id = 30 }) }
      ∷ [];
}

abbrev pub token : ℕ → ContractToken
token id = record { id = id; uri = 7 }

abbrev pub mined : Chain (List Transfer)
mined = record {
  history = λ c. c;
  send_transaction = λ from to value c. (ok 77, c ++ paid from to value ∷ []);
  safe_transfer_from = λ signer from to token c. (ok 78, c ++ moved from to token ∷ []);
  safe_mint = λ to uri proof c. (ok 79, c ++ minted to uri proof ∷ []);
  level_up = λ owner tokens uri proof c. (ok 80, c ++ levelled_up owner tokens uri ∷ []);
  wait = λ tx c. (ok (receipt tx), c);
  owner_of = λ token c. (ok 105, c);
  tokens_in = λ ids c. (ok (map token ids), c);
  tokens_of = λ owner c. (ok (token 30 ∷ []), c);
  get_mint_fee = λ c. (ok 5, c);
  paid_lem = λ from to value c. refl;
  moved_lem = λ signer from to token c. refl;
  minted_lem = λ to uri proof c. refl;
  levelled_up_lem = λ owner tokens uri proof c. refl;
  owner_of_lem = λ token c. refl;
  tokens_in_lem = λ ids c. refl;
  tokens_of_lem = λ owner c. refl;
  get_mint_fee_lem = λ c. refl;
}
