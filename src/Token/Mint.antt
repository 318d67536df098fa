-- ===== src/Token/Mint.antt =====
-- token/mint.go, `Mint`, and `ContentAddressed` of token/network.go: the whole life of a mint. Go's
-- conversion of a text to runes, its URL parser, and solana-go are the fields of an `Sdk`.
pub mod Granted
pub mod Messages
pub mod Minted
mod Runs
pub mod Success
use flynn_extensions.Prelude.{
  ℕ, Bool, true, false, not, ◌==◌, ◌||◌, if◌then◌else◌, Option, none, some, List, [], ◌∷◌, ◌++◌,
  map, Bytes, codes, equal, replicate, drop, length, ◌-◌,
}
use flynn_extensions.Prelude.Result.{Result, ok, err, either}
use flynn_extensions.Token.Amount.{AmountError, scaled_amount}
use flynn_extensions.Token.Atomic.{Builders, BuildError, MintSpec, build_mint}
use flynn_extensions.Token.Create.{MetadataError, validate_metadata}
use flynn_extensions.Token.Engine.{
  Built, Sent, SendError, is_expired, payer_signer, key_signer, public_key, send,
}
use flynn_extensions.Token.Impersonation.{Unicode, impersonation_target}
use flynn_extensions.Token.Ledger.{
  finalized, get_account_info, get_genesis_hash, Reply, Proc, done, ask, ◌>>=◌, call,
}
use flynn_extensions.Token.Network.{Cluster, live, resolve_network}
use flynn_extensions.Token.Safety.{TokenPlan, Rule, Violation, trim_space, guard, evaluate}
use flynn_extensions.Token.Verify.{
  AccountInfo, Fetched, fetch_failed, not_found, absent, found, Programs, UnsafeMint, Unresolved,
  verify_safe, resolve_unconfirmed,
}

-- `strings.HasPrefix`, `strings.Contains` and `strings.HasSuffix`
unfoldable pub has_prefix : Bytes → Bytes → Bool
has_prefix xs [] = true
has_prefix [] (p ∷ ps) = false
has_prefix (x ∷ xs) (p ∷ ps) = if x == p then has_prefix xs ps else false

unfoldable pub contains : Bytes → Bytes → Bool
contains [] part = has_prefix [] part
contains (x ∷ xs) part = has_prefix (x ∷ xs) part || contains xs part

unfoldable pub has_suffix : Bytes → Bytes → Bool
has_suffix [] end = equal [] end
has_suffix (x ∷ xs) end = equal (x ∷ xs) end || has_suffix xs end

-- The host and the path of a URL.
pub record Url : Type 0 where
  pub host : Bytes
  pub path : Bytes

-- What a mint takes from elsewhere.
pub record Sdk (Ix : Type 0) : Type 0 where
  pub unicode : Unicode
  pub runes : Bytes → Bytes
  pub parse_url : Bytes → Option Url
  pub builders : Builders Ix
  pub new_transaction : List Ix → Bytes → Bytes → Option Built
  pub programs : Programs
  pub squads_program : Bytes

-- `solana.NewWallet`: a fresh key, with what its private half makes of a message.
pub record Wallet : Type 0 where
  pub wallet_key : Bytes
  pub wallet_sign : Bytes → Option Bytes

pub data TreasuryError : Type 0 where
  treasury_unchecked squads_config : TreasuryError

pub data MintError : Type 0 where
  bad_metadata : MetadataError → MintError
  no_supply : MintError
  bad_supply : AmountError → MintError
  unsafe_plan : List Rule → MintError
  bad_treasury : TreasuryError → MintError
  not_built : BuildError → MintError
  not_landed : SendError → MintError
  unresolved : SendError → Unresolved → MintError
  not_safe : UnsafeMint → MintError

-- `solana.PublicKey{}`
abbrev pub zero_key : Bytes
zero_key = replicate 32 0

-- The mint's address, the disclosures, and the error.
abbrev pub MintResult : Type 0
MintResult = Bytes × List Violation × Option MintError

abbrev pub error_of {ℓ} : {E : Type ℓ} → (E → MintError) → Result E (Unit {0}) → Option MintError
error_of f (ok a) = none
error_of f (err e) = some (f e)

-- `treasury`
unfoldable pub treasury_of : Bytes → MintSpec → Bytes
treasury_of payer s = if equal s.treasury zero_key then payer else s.treasury

-- `resolveNetwork`, for whether the network is pinned: then the node is not asked.
abbrev pub ask_network : Bool → Cluster → Proc Cluster
ask_network true e = done e
ask_network false e = ask get_genesis_hash (λ h. done (resolve_network h e))

unfoldable pub find_network : Cluster → Proc Cluster
find_network e = ask_network e.net_pinned e

module _ {Ix : Type 0} (sdk : Sdk Ix) where
  abbrev pub lower_text : Bytes → Bytes
  lower_text uri = map sdk.unicode.to_lower (trim_space (sdk.runes uri))

  abbrev pub host_addressed : Option Url → Bool
  host_addressed none = false
  host_addressed (some u) =
      if equal u.host []
      then false
      else if contains u.path (codes "/ipfs/")
      then true
      else has_suffix u.host (codes "arweave.net")

  unfoldable pub content_addressed : Bytes → Bool
  content_addressed uri =
      let u = lower_text uri in
      if has_prefix u (codes "ipfs://") || has_prefix u (codes "ar://")
      then true
      else host_addressed (sdk.parse_url u)

  -- The tests of `checkTreasurySpendable` on what the node answered.
  unfoldable pub check_spendable : Fetched → Result TreasuryError (Unit {0})
  check_spendable not_found = ok tt
  check_spendable absent = ok tt
  check_spendable fetch_failed = err treasury_unchecked
  check_spendable (found info) =
      if equal info.owner sdk.squads_program then err squads_config else ok tt

  -- The plan that the policy judges: the fields that `Mint` leaves out are Go's zero values.
  abbrev pub plan_of : Bytes → MintSpec → Cluster → TokenPlan
  plan_of payer s e = record {
    chain = codes "solana";
    op = codes "mint";
    retains_mint_authority = false;
    retains_freeze_authority = false;
    has_permanent_delegate = false;
    has_transfer_hook = false;
    blacklist = false;
    is_pausable = false;
    retains_upgrade_authority = false;
    transfer_fee_bps = 0;
    seeds_liquidity = false;
    lp_locked_or_burned = false;
    removes_liquidity = false;
    liquidity_locked = false;
    guarantees_yield = false;
    claims_issuer_profit = false;
    creator_supply_pct = 100;
    impersonates = impersonation_target sdk.unicode (sdk.runes s.name) (sdk.runes s.symbol);
    live_network = live e.net;
    treasury_is_hot_signer = equal (treasury_of payer s) payer;
    mutable_uri = not (content_addressed s.metadata_uri);
  }

  -- `Mint`, for a payer's key, the fresh wallet, and the number of the loop's turns.
  module _ (payer : Bytes) (wallet : Wallet) (polls : ℕ) (s : MintSpec) where
    abbrev pub refusal : List Violation → MintError → Proc MintResult
    refusal disclosures e = done (zero_key, disclosures, some e)

    -- After `send`.
    unfoldable pub settle : List Violation → Sent → Proc MintResult
    settle disclosures (sig, none) = do
      answer ← call (get_account_info wallet.wallet_key finalized)
      done (
        wallet.wallet_key,
        disclosures,
        error_of not_safe (verify_safe sdk.programs wallet.wallet_key answer s.supply s.decimals),
      )
    settle disclosures (sig, some e) = elim (is_expired e) [
      | true ↦ refusal disclosures (not_landed e)
      | false ↦ do
        answer ← call (get_account_info wallet.wallet_key finalized)
        done (
          wallet.wallet_key,
          disclosures,
          error_of (unresolved e)
              (resolve_unconfirmed sdk.programs wallet.wallet_key answer s.supply s.decimals),
        )
    ]

    -- From the built instructions on: the one transaction, signed by the payer and the fresh key.
    unfoldable pub submit_mint : List Violation → Result BuildError (List Ix) → Proc MintResult
    submit_mint disclosures (err e) = refusal disclosures (not_built e)
    submit_mint disclosures (ok ixs) =
        send sdk.new_transaction ixs finalized (payer_signer payer)
          (key_signer wallet.wallet_key wallet.wallet_sign ∷ []) polls
        >>= settle disclosures

    -- Once the treasury has been checked.
    unfoldable pub fund : List Violation → Result TreasuryError (Unit {0}) → Proc MintResult
    fund disclosures (err e) = refusal disclosures (bad_treasury e)
    fund disclosures (ok u) =
        submit_mint disclosures
          (build_mint sdk.builders payer wallet.wallet_key (treasury_of payer s) s)

    -- Once the policy has judged the plan; what it discloses goes along from here.
    unfoldable pub check_treasury : TokenPlan → Result (List Rule) (Unit {0}) → Proc MintResult
    check_treasury plan (err rules) = refusal [] (unsafe_plan rules)
    check_treasury plan (ok u) = do
      answer ← call (get_account_info (treasury_of payer s) finalized)
      fund (evaluate plan) (check_spendable answer)

    -- Once the network is known.
    unfoldable pub judge_plan : Cluster → Result AmountError ℕ → Proc MintResult
    judge_plan e (err over) = refusal [] (bad_supply over)
    judge_plan e (ok amount) = check_treasury (plan_of payer s e) (guard (plan_of payer s e))

    unfoldable pub identify : Cluster → Result MetadataError (Unit {0}) → Proc MintResult
    identify e (err bad) = refusal [] (bad_metadata bad)
    identify e (ok u) = elim (s.supply == 0) [
      | true ↦ refusal [] no_supply
      | false ↦ do known ← find_network e; judge_plan known (scaled_amount s.supply s.decimals)
    ]

    unfoldable pub mint : Cluster → Proc MintResult
    mint e = identify e (validate_metadata s.name s.symbol s.metadata_uri)
