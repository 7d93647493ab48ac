-- ===== src/Ether/Wallets.antt =====
-- The wallets of `EtherClientService`: a user's private key is stored encrypted.
use zombiies_api.Common.{
  ℕ, ◌≡◌, refl, ap, sym, ◌∙◌, Bool, true, false, [], ◌∷◌, ◌++◌, if◌then◌else◌, ok, Action, and_then,
  Result-cases, inl, inr, ok-injective, lift,
}
use zombiies_api.Common.Async.{◌>>=◌, ◌>>◌}
use zombiies_api.Ether.{Chain, paid, pay, Receipt}
use zombiies_api.User.Model.{User}

pub record WalletSigner : Type 0 where
  pub address : ℕ
  pub private_key : ℕ

-- `EthersSigner` and the cipher of crypto-js, whose randomness is drawn from the state, and the
-- configuration.
pub record EtherClient (C : Type 0) : Type 0 where
  pub chain : Chain C
  pub create_wallet : ℕ → WalletSigner
  pub create_random_wallet : C → WalletSigner × C
  pub encrypt : ℕ → ℕ → C → ℕ × C
  pub decrypt : ℕ → ℕ → ℕ
  pub owner_private_key : ℕ
  pub private_key_secret : ℕ
  pub parse_ether_tenth : ℕ
  pub create_wallet-random_wallet :
      (c : C) → create_wallet (create_random_wallet c).0.private_key ≡ (create_random_wallet c).0
  pub decrypt-encrypt : (text secret : ℕ) (c : C) → decrypt (encrypt text secret c).0 secret ≡ text
  pub create_random_wallet_lem :
      (c : C) → chain.history (create_random_wallet c).1 ≡ chain.history c
  pub encrypt_lem :
      (text secret : ℕ) (c : C) → chain.history (encrypt text secret c).1 ≡ chain.history c

module _ {C : Type 0} (client : EtherClient C) where
  open client use {chain, create_wallet}

  abbrev pub owner_wallet : WalletSigner
  owner_wallet = create_wallet client.owner_private_key

  abbrev pub create_wallet_from_private_key_cipher : ℕ → WalletSigner
  create_wallet_from_private_key_cipher cipher =
      create_wallet (client.decrypt cipher client.private_key_secret)

  abbrev pub get_wallet_of_user : User → WalletSigner
  get_wallet_of_user user = create_wallet_from_private_key_cipher user.private_key_cipher

  abbrev pub fund_if : Bool → ℕ → Action C (Unit {0})
  fund_if true address = do
    _ ← pay chain owner_wallet.address address client.parse_ether_tenth
    lift (ok tt)
  fund_if false address = lift (ok tt)

  -- In development, `isDev()`, a new wallet gets 0.1 ETH.
  unfoldable pub create_new_wallet : Bool → Action C WalletSigner
  create_new_wallet is_dev = do
    wallet ← λ c. (ok (client.create_random_wallet c).0, (client.create_random_wallet c).1)
    fund_if is_dev wallet.address
    lift (ok wallet)

  unfoldable pub create_new_private_key_cipher : Bool → Action C ℕ
  unfolding create_new_wallet
  create_new_private_key_cipher is_dev = do
    wallet ← create_new_wallet is_dev
    λ c.
        let (cipher, d) = client.encrypt wallet.private_key client.private_key_secret c in
        (ok cipher, d)

  pay-ok :
      (from to value : ℕ) (c : C) {r : Receipt}
      → (pay chain from to value c).0 ≡ ok r
      → chain.history (pay chain from to value c).1 ≡ chain.history c ++ paid from to value ∷ []
  pay-ok from to value c e = chain.paid_lem from to value c ∙ rw e refl

  opens :
      (wallet : WalletSigner) (cipher : ℕ) (d : C)
      → create_wallet wallet.private_key ≡ wallet
      → (client.encrypt wallet.private_key client.private_key_secret d).0 ≡ cipher
      → create_wallet_from_private_key_cipher cipher ≡ wallet
  opens wallet cipher d w e =
      ap (λ k. create_wallet (client.decrypt k client.private_key_secret)) (sym e)
      ∙ ap create_wallet (client.decrypt-encrypt wallet.private_key client.private_key_secret d)
      ∙ w

  -- The wallet that a new cipher opens is the new random one; in development, and only there, the
  -- owner has paid it.
  pub create_new_private_key_cipher-wallet :
      (is_dev : Bool) (cipher : ℕ) (c : C)
      → (create_new_private_key_cipher is_dev c).0 ≡ ok cipher
      → let wallet = (client.create_random_wallet c).0 in
        (create_wallet_from_private_key_cipher cipher ≡ wallet)
        × (chain.history (create_new_private_key_cipher is_dev c).1 ≡ (
            if is_dev
            then chain.history c
              ++ paid owner_wallet.address wallet.address client.parse_ether_tenth ∷ []
            else chain.history c))
  unfolding create_new_private_key_cipher
  create_new_private_key_cipher-wallet false cipher c = λ e.
      let (wallet, d) = client.create_random_wallet c in
      (
        opens wallet cipher d (client.create_wallet-random_wallet c) (ok-injective e),
        client.encrypt_lem wallet.private_key client.private_key_secret d
            ∙ client.create_random_wallet_lem c,
      )
  create_new_private_key_cipher-wallet true cipher c =
      let (wallet, d) = client.create_random_wallet c in
      let value = client.parse_ether_tenth in
      elim (Result-cases (pay chain owner_wallet.address wallet.address value d).0) [
        | inr (x, p) ↦ rw (p, and_then) (λ e. cc)
        | inl (r, p) ↦
            rw (p, and_then)
              (λ e. (
                opens wallet cipher _ (client.create_wallet-random_wallet c) (ok-injective e),
                client.encrypt_lem wallet.private_key client.private_key_secret _
                    ∙ pay-ok owner_wallet.address wallet.address value d p
                    ∙ ap (λ ts. ts ++ paid owner_wallet.address wallet.address value ∷ [])
                        (client.create_random_wallet_lem c),
              ))
      ]
