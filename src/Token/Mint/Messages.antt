-- ===== src/Token/Mint/Messages.antt =====
-- token/mint.go, `Mint`: which messages the payer is asked to sign.
use flynn_extensions.Prelude.{
  ℕ, ◌≡◌, true, false, Bool, Bool-cases, ◌==◌, none, some, List, [], ◌∷◌, Bytes, inl, inr, refl,
}
use flynn_extensions.Prelude.Result.{Result, ok, err}
use flynn_extensions.Token.Amount.{AmountError, scaled_amount}
use flynn_extensions.Token.Atomic.{BuildError, MintSpec, build_mint}
use flynn_extensions.Token.Create.{MetadataError, validate_metadata}
use flynn_extensions.Token.Engine.{Built, Sent, is_expired, payer_signer, key_signer, send}
use flynn_extensions.Token.Engine.Messages.{send-Asks}
use flynn_extensions.Token.Ledger.{finalized, get_account_info, ◌>>=◌, call}
use flynn_extensions.Token.Ledger.Asks.{Asks, Asks->>=, Signs}
use flynn_extensions.Token.Mint.{
  Sdk, Wallet, TreasuryError, treasury_of, ask_network, find_network, check_spendable, plan_of,
  settle, submit_mint, fund, check_treasury, judge_plan, identify, mint,
}
use flynn_extensions.Token.Network.{Cluster}
use flynn_extensions.Token.Safety.{TokenPlan, Rule, Violation, evaluate}

module _ {Ix : Type 0} (sdk : Sdk Ix) (payer : Bytes) (wallet : Wallet) (polls : ℕ) (s : MintSpec)
    (Q : Bytes → Type 0) where
  -- Each message that is marshalled of a transaction of these instructions has the property.
  abbrev pub Compiles : List Ix → Type 0
  Compiles ixs =
      (hash : Bytes) (tx : Built) (msg : Bytes)
      → sdk.new_transaction ixs hash payer ≡ some tx
      → tx.marshalled ≡ some msg
      → Q msg

  pub settle-Asks :
      (ds : List Violation) (sent : Sent) → Asks (Signs Q) (settle sdk payer wallet polls s ds sent)
  unfolding settle ◌>>=◌
  settle-Asks ds (sig, none) = (tt, λ answer. tt)
  settle-Asks ds (sig, some e) = elim (Bool-cases (is_expired e)) [
    | inl gone ↦ rw (Asks, gone) tt
    | inr open_ ↦ rw (Asks, open_) (tt, λ answer. tt)
  ]

  submit_mint-Asks :
      (ds : List Violation) (built : Result BuildError (List Ix))
      → ((ixs : List Ix) → built ≡ ok ixs → Compiles ixs)
      → Asks (Signs Q) (submit_mint sdk payer wallet polls s ds built)
  unfolding submit_mint
  submit_mint-Asks ds (err e) h = tt
  submit_mint-Asks ds (ok ixs) h =
      Asks->>= (Signs Q)
        (send sdk.new_transaction ixs finalized (payer_signer payer)
          (key_signer wallet.wallet_key wallet.wallet_sign ∷ []) polls)
        _
        (send-Asks Q sdk.new_transaction ixs (payer_signer payer) (h ixs refl) finalized
          (key_signer wallet.wallet_key wallet.wallet_sign ∷ []) polls)
        (settle-Asks ds)

  module _
      (h : (ixs : List Ix)
        → build_mint sdk.builders payer wallet.wallet_key (treasury_of payer s) s ≡ ok ixs
        → Compiles ixs) where
    fund-Asks :
        (ds : List Violation) (checked : Result TreasuryError (Unit {0}))
        → Asks (Signs Q) (fund sdk payer wallet polls s ds checked)
    unfolding fund
    fund-Asks ds (err e) = tt
    fund-Asks ds (ok u) = submit_mint-Asks ds _ h

    check_treasury-Asks :
        (plan : TokenPlan) (verdict : Result (List Rule) (Unit {0}))
        → Asks (Signs Q) (check_treasury sdk payer wallet polls s plan verdict)
    unfolding check_treasury
    check_treasury-Asks plan (err rules) = tt
    check_treasury-Asks plan (ok u) =
        Asks->>= (Signs Q) (call (get_account_info (treasury_of payer s) finalized)) _ (tt, λ r. tt)
          (λ answer. fund-Asks (evaluate plan) (check_spendable sdk answer))

    judge_plan-Asks :
        (e : Cluster) (amount : Result AmountError ℕ)
        → Asks (Signs Q) (judge_plan sdk payer wallet polls s e amount)
    unfolding judge_plan
    judge_plan-Asks e (err over) = tt
    judge_plan-Asks e (ok amount) = check_treasury-Asks (plan_of sdk payer s e) _

    ask_network-Asks : (known : Bool) (e : Cluster) → Asks (Signs Q) (ask_network known e)
    ask_network-Asks true e = tt
    ask_network-Asks false e = (tt, λ r. tt)

  -- Each message that a mint asks the payer to sign is one of the transaction that was built, of a token
  -- whose metadata are in their limits.
  identify-Asks :
      (e : Cluster) (described : Result MetadataError (Unit {0}))
      → (described ≡ ok tt
          → (ixs : List Ix)
          → build_mint sdk.builders payer wallet.wallet_key (treasury_of payer s) s ≡ ok ixs
          → Compiles ixs)
      → Asks (Signs Q) (identify sdk payer wallet polls s e described)
  unfolding identify find_network
  identify-Asks e (err bad) h = tt
  identify-Asks e (ok u) h = elim (Bool-cases (s.supply == 0)) [
    | inl empty ↦ rw (Asks, empty) tt
    | inr supplied ↦
        rw (Asks, supplied)
          (Asks->>= (Signs Q) (ask_network e.net_pinned e) _
            (ask_network-Asks (h refl) e.net_pinned e)
            (λ known. judge_plan-Asks (h refl) known (scaled_amount s.supply s.decimals)))
  ]

  pub mint-Asks :
      (e : Cluster)
      → (validate_metadata s.name s.symbol s.metadata_uri ≡ ok tt
          → (ixs : List Ix)
          → build_mint sdk.builders payer wallet.wallet_key (treasury_of payer s) s ≡ ok ixs
          → Compiles ixs)
      → Asks (Signs Q) (mint sdk payer wallet polls s e)
  unfolding mint
  mint-Asks e h = identify-Asks e _ h
