-- ===== src/Token/Session/Minting.antt =====
-- token/session.go, `StartMint`: a mint whose calls all cross to the host.
use flynn_extensions.Prelude.{ℕ, ◌≤◌, ◌≡◌, sym, ap, ◌∙◌, subst, none, some, List, [], Bytes, length}
use flynn_extensions.Token.Atomic.{MintSpec}
use flynn_extensions.Token.Host.{Wire}
use flynn_extensions.Token.Ledger.{Event, run}
use flynn_extensions.Token.Mint.{Sdk, Wallet, mint}
use flynn_extensions.Token.Mint.Success.{IsDisclosed, IsProven, mint-IsProven}
use flynn_extensions.Token.Network.{new_cluster}
use flynn_extensions.Token.Safety.{Violation}
use flynn_extensions.Token.Session.{MintOption, configure, start_mint}
use flynn_extensions.Token.Session.Drive.{Host, drive, world_of, drive-outcome}

some-same {ℓ} : {A : Type ℓ} (a b : A) → some a ≡ some b → a ≡ b
some-same a b h = cc

-- What the engine asks in a mint session, and is answered by the host.
abbrev pub asked_in :
    {Ix : Type 0}
    → Wire
    → Sdk Ix
    → Bytes
    → Wallet
    → ℕ
    → MintSpec
    → List MintOption
    → Host
    → List Event
asked_in wire sdk payer wallet polls s opts host =
    (run (world_of wire payer host) []
      (mint sdk payer wallet polls s (configure opts new_cluster))).0

-- When a mint session that a host has driven, whose context does not end, with at least as many replies as
-- there are calls, has completed without an error, then its outcome is the address of the fresh key with the policy's
-- disclosures for a plan that the policy finds clean, and the last answer that the host's replies say is the
-- account at this address, whole, with the requested supply and without a mint or freeze authority.
pub start_mint-IsProven :
    {Ix : Type 0} (wire : Wire) (sdk : Sdk Ix) (payer : Bytes) (wallet : Wallet) (polls : ℕ)
    (s : MintSpec) (opts : List MintOption) (host : Host) (n : ℕ) (key : Bytes)
    (disclosures : List Violation)
    → length (asked_in wire sdk payer wallet polls s opts host) ≤ n
    → (drive n host (start_mint wire sdk payer wallet polls s opts)).outcome
      ≡ some (key, disclosures, none)
    → (key ≡ wallet.wallet_key)
      × IsDisclosed sdk payer s disclosures
      × IsProven sdk payer wallet s (asked_in wire sdk payer wallet polls s opts host)
start_mint-IsProven wire sdk payer wallet polls s opts host n key disclosures enough completed =
    let e = configure opts new_cluster in
    let w = world_of wire payer host in
    let result = (run w [] (mint sdk payer wallet polls s e)).1 in
    let same : result ≡ (key, disclosures, none) = some-same result _ (
      sym (drive-outcome wire payer host (mint sdk payer wallet polls s e) n enough) ∙ completed) in
    let (at_key, disclosed, proven) =
      mint-IsProven sdk payer wallet s polls e w (ap (λ r. r.2) same) in
    (
      ap (λ r. r.0) (sym same) ∙ at_key,
      subst (λ ds. IsDisclosed sdk payer s ds) (ap (λ r. r.1) same) disclosed,
      proven,
    )
