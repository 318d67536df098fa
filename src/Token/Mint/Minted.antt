-- ===== src/Token/Mint/Minted.antt =====
-- token/mint.go, `Mint`: what was asked of the node and of the payer, for each of its ends.
use flynn_extensions.Prelude.{
  ℕ, ◌≡◌, refl, inl, inr, Bool, true, false, Bool-cases, ◌==◌, Option, none, some, List, [], ◌∷◌,
  ◌++◌, append-nil, All, append-All, Bytes,
}
use flynn_extensions.Prelude.Result.{Result, ok, err}
use flynn_extensions.Token.Amount.{AmountError}
use flynn_extensions.Token.Atomic.{BuildError, MintSpec, build_mint}
use flynn_extensions.Token.Create.{MetadataError, validate_metadata}
use flynn_extensions.Token.Engine.{Sent, SendError, is_expired, payer_signer, key_signer, send}
use flynn_extensions.Token.Engine.Send.{Sends, Leads-send}
use flynn_extensions.Token.Ledger.{
  finalized, get_account_info, get_genesis_hash, ◌>>=◌, Event, World, run,
}
use flynn_extensions.Token.Ledger.Leads.{Leads, Leads-run, Leads-weaken, Leads->>=}
use flynn_extensions.Token.Mint.{
  Sdk, Wallet, TreasuryError, MintError, unresolved, not_safe, not_landed, zero_key, MintResult,
  error_of, treasury_of, ask_network, find_network, check_spendable, plan_of, settle, submit_mint,
  fund, check_treasury, judge_plan, identify, mint,
}
use flynn_extensions.Token.Network.{Cluster, resolve_network}
use flynn_extensions.Token.Safety.{Rule, Violation, guard, evaluate}
use flynn_extensions.Token.Verify.{Fetched, verify_safe, resolve_unconfirmed}

-- The network was asked for its genesis, or the node for an account.
abbrev pub IsRead : Event → Type 0
IsRead (get_account_info account level, answer) = Unit
IsRead (get_genesis_hash, answer) = Unit
IsRead _ = ⊥

-- How a network comes to be known.
pub data Networked (e : Cluster) : List Event → Cluster → Type 0 where
  pinned : e.net_pinned ≡ true → Networked e [] e
  asked :
      (h : Option Bytes)
      → e.net_pinned ≡ false
      → Networked e ((get_genesis_hash, h) ∷ []) (resolve_network h e)

module _ {Ix : Type 0} (sdk : Sdk Ix) (payer : Bytes) (wallet : Wallet) (s : MintSpec) where
  abbrev pub reread : Fetched → Event
  reread answer = (get_account_info wallet.wallet_key finalized, answer)

  -- The ends of the submission, under the keys of the payer and of the fresh mint.
  abbrev pub Submits : List Ix → List Event → Sent → Type 0
  Submits ixs =
      Sends sdk.new_transaction ixs finalized (payer_signer payer)
        (key_signer wallet.wallet_key wallet.wallet_sign ∷ [])

  -- The ends of a mint whose transaction was attempted.
  pub data Ends (ixs : List Ix) (ds : List Violation) : List Event → MintResult → Type 0 where
    lost :
        (sig : Bytes) (e : SendError) {es : List Event}
        → Submits ixs es (sig, some e)
        → is_expired e ≡ true
        → Ends ixs ds es (zero_key, ds, some (not_landed e))
    doubtful :
        (sig : Bytes) (e : SendError) (answer : Fetched) (front : List Event) {es : List Event}
        → Submits ixs front (sig, some e)
        → is_expired e ≡ false
        → es ≡ front ++ (reread answer ∷ [])
        → Ends ixs ds es (
          wallet.wallet_key,
          ds,
          error_of
              (unresolved e)
              (resolve_unconfirmed sdk.programs wallet.wallet_key answer s.supply s.decimals),
        )
    verified :
        (sig : Bytes) (answer : Fetched) (front : List Event) {es : List Event}
        → Submits ixs front (sig, none)
        → es ≡ front ++ (reread answer ∷ [])
        → Ends ixs ds es (
          wallet.wallet_key,
          ds,
          error_of not_safe (verify_safe sdk.programs wallet.wallet_key answer s.supply s.decimals),
        )

  -- What has to hold before anything is signed.
  pub record IsCleared (known : Cluster) (treasury : Fetched) (ixs : List Ix) : Type 0 where
    pub described : validate_metadata s.name s.symbol s.metadata_uri ≡ ok tt
    pub supplied : (s.supply == 0) ≡ false
    pub permitted : guard (plan_of sdk payer s known) ≡ ok tt
    pub spendable : check_spendable sdk treasury ≡ ok tt
    pub built : build_mint sdk.builders payer wallet.wallet_key (treasury_of payer s) s ≡ ok ixs

  pub data Minted (e : Cluster) : List Event → MintResult → Type 0 where
    refused :
        (ds : List Violation) (why : MintError) {es : List Event}
        → All IsRead es
        → Minted e es (zero_key, ds, some why)
    attempted :
        (known : Cluster) (treasury : Fetched) (ixs : List Ix) (front back : List Event)
        {es : List Event} {r : MintResult}
        → Networked e front known
        → IsCleared known treasury ixs
        → Ends ixs (evaluate (plan_of sdk payer s known)) back r
        → es ≡ front ++ ((get_account_info (treasury_of payer s) finalized, treasury) ∷ back)
        → Minted e es r

  module _ (polls : ℕ) where
    Leads-settle :
        (ixs : List Ix) (ds : List Violation) (sent : Sent) (es : List Event)
        → Submits ixs es sent
        → Leads (settle sdk payer wallet polls s ds sent) (λ more. Ends ixs ds (es ++ more))
    unfolding settle ◌>>=◌
    Leads-settle ixs ds (sig, none) es sends = λ answer. verified sig answer es sends refl
    Leads-settle ixs ds (sig, some e) es sends = elim (Bool-cases (is_expired e)) [
      | inl gone ↦ rw (Leads, gone, append-nil es) (lost sig e sends gone)
      | inr open_ ↦ rw (Leads, open_) (λ answer. doubtful sig e answer es sends open_ refl)
    ]

    Leads-send_settle :
        (ds : List Violation) (ixs : List Ix)
        → Leads (submit_mint sdk payer wallet polls s ds (ok ixs)) (Ends ixs ds)
    unfolding submit_mint
    Leads-send_settle ds ixs =
        let signers = key_signer wallet.wallet_key wallet.wallet_sign ∷ [] in
        Leads->>= (send sdk.new_transaction ixs finalized (payer_signer payer) signers polls)
          (settle sdk payer wallet polls s ds) (Submits ixs) (Ends ixs ds)
          (Leads-send sdk.new_transaction ixs finalized (payer_signer payer) signers polls)
          λ es sent sends. Leads-settle ixs ds sent es sends

    Networked-IsRead :
        {e known : Cluster} {front : List Event} → Networked e front known → All IsRead front
    Networked-IsRead (pinned h) = tt
    Networked-IsRead (asked h free) = (tt, tt)

    module _ (e known : Cluster) (front : List Event) (net : Networked e front known) where
      abbrev treasury_read : Fetched → Event
      treasury_read answer = (get_account_info (treasury_of payer s) finalized, answer)

      abbrev Goes : Fetched → List Event → MintResult → Type 0
      Goes answer more r = Minted e (front ++ (treasury_read answer ∷ more)) r

      abbrev disclosed : List Violation
      disclosed = evaluate (plan_of sdk payer s known)

      IsRead-both : (answer : Fetched) → All IsRead (front ++ (treasury_read answer ∷ []))
      IsRead-both answer =
          append-All IsRead front (treasury_read answer ∷ []) (Networked-IsRead net) (tt, tt)

      module _ (d : validate_metadata s.name s.symbol s.metadata_uri ≡ ok tt)
          (p : (s.supply == 0) ≡ false) (g : guard (plan_of sdk payer s known) ≡ ok tt) where
        Leads-submit_mint :
            (answer : Fetched) (b : Result BuildError (List Ix))
            → check_spendable sdk answer ≡ ok tt
            → build_mint sdk.builders payer wallet.wallet_key (treasury_of payer s) s ≡ b
            → Leads (submit_mint sdk payer wallet polls s disclosed b) (Goes answer)
        unfolding submit_mint
        Leads-submit_mint answer (err bad) c h = refused disclosed _ (IsRead-both answer)
        Leads-submit_mint answer (ok ixs) c h =
            Leads-weaken (submit_mint sdk payer wallet polls s disclosed (ok ixs))
              (Ends ixs disclosed) (Goes answer)
              (λ back r ends.
                attempted known answer ixs front back net
                  (record { described = d; supplied = p; permitted = g; spendable = c; built = h })
                  ends refl)
              (Leads-send_settle disclosed ixs)

        Leads-fund :
            (answer : Fetched) (c : Result TreasuryError (Unit {0}))
            → check_spendable sdk answer ≡ c
            → Leads (fund sdk payer wallet polls s disclosed c) (Goes answer)
        unfolding fund
        Leads-fund answer (err bad) h = refused disclosed _ (IsRead-both answer)
        Leads-fund answer (ok tt) h = Leads-submit_mint answer _ h refl

      Leads-check_treasury :
          (g : Result (List Rule) (Unit {0}))
          → validate_metadata s.name s.symbol s.metadata_uri ≡ ok tt
          → (s.supply == 0) ≡ false
          → guard (plan_of sdk payer s known) ≡ g
          → Leads
              (check_treasury sdk payer wallet polls s (plan_of sdk payer s known) g)
              (λ more. Minted e (front ++ more))
      unfolding check_treasury ◌>>=◌
      Leads-check_treasury (err rules) d p h =
          refused [] _ (rw (append-nil front) (Networked-IsRead net))
      Leads-check_treasury (ok tt) d p h = λ answer. Leads-fund d p h answer _ refl

      Leads-judge_plan :
          (a : Result AmountError ℕ)
          → validate_metadata s.name s.symbol s.metadata_uri ≡ ok tt
          → (s.supply == 0) ≡ false
          → Leads (judge_plan sdk payer wallet polls s known a) (λ more. Minted e (front ++ more))
      unfolding judge_plan
      Leads-judge_plan (err over) d p = refused [] _ (rw (append-nil front) (Networked-IsRead net))
      Leads-judge_plan (ok amount) d p = Leads-check_treasury _ d p refl

    Leads-ask_network :
        (b : Bool) (e : Cluster) → e.net_pinned ≡ b → Leads (ask_network b e) (Networked e)
    Leads-ask_network true e h = pinned h
    Leads-ask_network false e h = λ answer. asked answer h

    Leads-find_network : (e : Cluster) → Leads (find_network e) (Networked e)
    unfolding find_network
    Leads-find_network e = Leads-ask_network e.net_pinned e refl

    Leads-identify :
        (e : Cluster) (d : Result MetadataError (Unit {0}))
        → validate_metadata s.name s.symbol s.metadata_uri ≡ d
        → Leads (identify sdk payer wallet polls s e d) (Minted e)
    unfolding identify
    Leads-identify e (err bad) h = refused [] _ tt
    Leads-identify e (ok tt) h = elim (Bool-cases (s.supply == 0)) [
      | inl empty ↦ rw (Leads, empty) (refused [] _ tt)
      | inr some_ ↦
          rw (Leads, some_)
            (Leads->>= (find_network e) _ (Networked e) (Minted e) (Leads-find_network e)
              λ front known net. Leads-judge_plan e known front net _ h some_)
    ]

    pub Leads-mint : (e : Cluster) → Leads (mint sdk payer wallet polls s e) (Minted e)
    unfolding mint
    Leads-mint e = Leads-identify e _ refl

pub mint-Minted :
    {Ix : Type 0} (sdk : Sdk Ix) (payer : Bytes) (wallet : Wallet) (s : MintSpec) (polls : ℕ)
    (e : Cluster) (w : World)
    → (let (events, result) = run w [] (mint sdk payer wallet polls s e) in
        Minted sdk payer wallet s e events result)
mint-Minted sdk payer wallet s polls e w =
    Leads-run (mint sdk payer wallet polls s e) (Minted sdk payer wallet s e)
      (Leads-mint sdk payer wallet s polls e) w []
