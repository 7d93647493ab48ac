-- ===== src/Ether.antt =====
-- src/module/ether-client/ether-client.service.ts: the chain and the contract as ethers shows them,
-- and the wallets of the users.
pub mod Wallets
pub mod Memory
use zombiies_api.Common.{
  ℕ, ◌≡◌, Bool, true, false, List, [], ◌∷◌, ◌++◌, if◌then◌else◌, is_ok, Action, and_then, lift, ok,
  ◌==◌,
}
use zombiies_api.Common.Async.{◌>>=◌}
use zombiies_api.Card.Receipt.{Event}

-- What a mined transaction adds to the chain: a payment in wei, the transfer of a token, a token
-- minted with its uri and proof, or tokens burned for one of the next level.
pub data Transfer : Type 0 where
  paid moved minted : ℕ → ℕ → ℕ → Transfer
  levelled_up : ℕ → List ℕ → ℕ → Transfer

-- `await tx.wait()`.
pub record Receipt : Type 0 where
  pub transaction_hash : ℕ
  pub events : List Event

-- A token as the contract lists it, `ContractToken`.
pub record ContractToken : Type 0 where
  pub id : ℕ
  pub uri : ℕ

-- A transaction that is sent is mined, or fails, when it is waited for; a call that reads adds
-- nothing.
pub record Chain (C : Type 0) : Type 0 where
  pub history : C → List Transfer
  -- `wallet.sendTransaction({ to, value })`.
  pub send_transaction : ℕ → ℕ → ℕ → Action C ℕ
  -- `contract['safeTransferFrom(address,address,uint256)'](from, to, token)`, signed by a wallet.
  pub safe_transfer_from : ℕ → ℕ → ℕ → ℕ → Action C ℕ
  pub safe_mint : ℕ → ℕ → ℕ → Action C ℕ
  -- `contract.levelUp(owner, tokens, uri, proof)`.
  pub level_up : ℕ → List ℕ → ℕ → ℕ → Action C ℕ
  pub wait : ℕ → Action C Receipt
  pub owner_of : ℕ → Action C ℕ
  pub tokens_in : List ℕ → Action C (List ContractToken)
  pub tokens_of : ℕ → Action C (List ContractToken)
  pub get_mint_fee : Action C ℕ
  pub paid_lem :
      (from to value : ℕ) (c : C)
      → let (r, d) = and_then (send_transaction from to value c) wait in
        history d ≡ (if is_ok r then history c ++ paid from to value ∷ [] else history c)
  pub moved_lem :
      (signer from to token : ℕ) (c : C)
      → let (r, d) = and_then (safe_transfer_from signer from to token c) wait in
        history d ≡ (if is_ok r then history c ++ moved from to token ∷ [] else history c)
  pub minted_lem :
      (to uri proof : ℕ) (c : C)
      → let (r, d) = and_then (safe_mint to uri proof c) wait in
        history d ≡ (if is_ok r then history c ++ minted to uri proof ∷ [] else history c)
  pub levelled_up_lem :
      (owner : ℕ) (tokens : List ℕ) (uri proof : ℕ) (c : C)
      → let (r, d) = and_then (level_up owner tokens uri proof c) wait in
        history d ≡ (if is_ok r then history c ++ levelled_up owner tokens uri ∷ [] else history c)
  pub owner_of_lem : (token : ℕ) (c : C) → history (owner_of token c).1 ≡ history c
  pub tokens_in_lem : (ids : List ℕ) (c : C) → history (tokens_in ids c).1 ≡ history c
  pub tokens_of_lem : (owner : ℕ) (c : C) → history (tokens_of owner c).1 ≡ history c
  pub get_mint_fee_lem : (c : C) → history (get_mint_fee c).1 ≡ history c

module _ {C : Type 0} (chain : Chain C) where
  -- `await (await wallet.sendTransaction({ to, value })).wait()`.
  abbrev pub pay : ℕ → ℕ → ℕ → Action C Receipt
  pay from to value c = and_then (chain.send_transaction from to value c) chain.wait

  abbrev pub move_token : ℕ → ℕ → ℕ → ℕ → Action C Receipt
  move_token signer from to token c =
      and_then (chain.safe_transfer_from signer from to token c) chain.wait

  abbrev pub mint_token : ℕ → ℕ → ℕ → Action C Receipt
  mint_token to uri proof c = and_then (chain.safe_mint to uri proof c) chain.wait

  abbrev pub level_up_tokens : ℕ → List ℕ → ℕ → ℕ → Action C Receipt
  level_up_tokens owner tokens uri proof c =
      and_then (chain.level_up owner tokens uri proof c) chain.wait

  abbrev pub is_owner_of : ℕ → ℕ → Action C Bool
  is_owner_of address token = do owner ← chain.owner_of token; lift (ok (owner == address))
