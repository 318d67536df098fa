-- ===== src/Token/Runs.antt =====
-- Runs of the safety policy, of the numbers and bytes of a mint, and of the network.
use flynn_extensions.Prelude.{
  none, replicate, ◌+◌, ◌*◌, ◌^◌, ◌≤◌, ◌≡◌, ◌≢◌, ◌↔◌, ◌⊎◌, refl, Bool, true, false, ◌&&◌, ◌==◌,
  if◌then◌else◌, leb, inl, some, [], ◌∷◌, arith, Bytes, codes, equal,
}
use flynn_extensions.Prelude.Result.{ok, err}
use flynn_extensions.Token.Safety.{
  TokenPlan, guard, evaluate, violations, hot_key_treasury, trim_space, less, trim_left, is_space,
}
use flynn_extensions.Token.Safety.Verdict.{IsClean, guard_iff}
use flynn_extensions.Token.Impersonation.{
  Unicode, is_kept, imitated, impersonation_target, protected_brands,
}
use flynn_extensions.Token.Impersonation.Disguise.{
  Disguises, nothing, hidden, look_alike, KeepsKept, Listed, guard-disguise,
}
use flynn_extensions.Token.Amount.{scale, scaled_amount, scaled_amount_iff, max_uint64}
use flynn_extensions.Token.Verify.{
  MintAccount, Programs, Fetched, found, check_supply, verify, verify_safe, resolve_unconfirmed,
}
use flynn_extensions.Token.Verify.Safe.{IsFinished, verify_safe_iff}
use flynn_extensions.Token.Network.{
  live, resolve_network, new_cluster, devnet_genesis, IsTestGenesis, resolve_network-live,
}
use flynn_extensions.Token.Create.{create_v1_data, validate_metadata}
use flynn_extensions.Token.Create.Read.{read_create, read_create-create_v1_data}

-- A plan of a mint on a network of the given kind.
abbrev plan : Bool → Bytes → TokenPlan
plan is_live target = record {
  chain = codes "solana";
  op = codes "mint";
  retains_mint_authority = false;
  retains_freeze_authority = false;
  has_permanent_delegate = false;
  has_transfer_hook = false;
  blacklist = false;
  is_pausable = false;
  retains_upgrade_authority = false;
  transfer_fee_bps = 0;
  seeds_liquidity = false;
  lp_locked_or_burned = false;
  removes_liquidity = false;
  liquidity_locked = false;
  guarantees_yield = false;
  claims_issuer_profit = false;
  creator_supply_pct = 100;
  impersonates = target;
  live_network = is_live;
  treasury_is_hot_signer = true;
  mutable_uri = true;
}

guards : (guard (plan true []) ≡ err (hot_key_treasury ∷ [])) × (guard (plan false []) ≡ ok tt)
unfolding guard evaluate violations trim_space trim_left is_space less equal
guards = (refl, refl)

guard_iff_example : (guard (plan true []) ≡ ok tt) ↔ IsClean (plan true [])
guard_iff_example = guard_iff (plan true [])

-- The tables, on ASCII, with the zero-width space as the only format character.
abbrev ascii : Unicode
ascii = record {
  is_format = λ r. r == 0x200b;
  to_lower = λ r. if leb 65 r && leb r 90 then r + 32 else r;
}

ascii-KeepsKept : KeepsKept ascii
unfolding is_kept
ascii-KeepsKept r kept = (ground arith, ground arith)

-- "USD" with a hidden character, then a Cyrillic "с", is the brand "usdc".
abbrev fake : Bytes
fake = 85 ∷ 83 ∷ 0x200b ∷ 68 ∷ 0x441 ∷ []

fake-Disguises : Disguises ascii fake (codes "usdc")
unfolding imitated
fake-Disguises = look_alike 85 117 refl refl (
    look_alike 83 115 refl refl
      (hidden 0x200b refl (look_alike 68 100 refl refl (look_alike 0x441 99 refl refl nothing))))

plain-Disguises : Disguises ascii (codes "X") (codes "x")
unfolding imitated
plain-Disguises = look_alike 88 120 refl refl nothing

usdc-Listed : Listed (codes "usdc") protected_brands
unfolding protected_brands
usdc-Listed = inl refl

guard-disguise_example : guard (plan false (impersonation_target ascii fake (codes "X"))) ≢ ok tt
guard-disguise_example =
    guard-disguise ascii (plan false (impersonation_target ascii fake (codes "X"))) fake (codes "X")
      (codes "usdc") ascii-KeepsKept usdc-Listed (inl fake-Disguises) refl

scaled_amount_iff_example :
    (scaled_amount 21000000 9 ≡ ok 21000000000000000)
    ↔ ((21000000000000000 ≡ 21000000 * 10 ^ 9) × (21000000 * 10 ^ 9 ≤ max_uint64))
scaled_amount_iff_example = scaled_amount_iff 21000000 9 21000000000000000 (omega arith)

valid : validate_metadata (codes "Acme") (codes "ACM") (codes "ipfs://x") ≡ ok tt
unfolding validate_metadata
valid = refl

read_create-create_v1_data_example :
    read_create (create_v1_data (codes "Acme") (codes "ACM") (codes "ipfs://x") 6)
    ≡ some (record {
      name = codes "Acme";
      symbol = codes "ACM";
      uri = codes "ipfs://x";
      seller_fee_basis_points = 0;
      creators = 0;
      primary_sale_happened = 0;
      is_mutable = 0;
      token_standard = 2;
      collection = 0;
      uses = 0;
      collection_details = 0;
      rule_set = 0;
      decimals = 6;
      print_supply = 0;
    })
read_create-create_v1_data_example =
    read_create-create_v1_data (codes "Acme") (codes "ACM") (codes "ipfs://x") 6 valid

resolve_network-live_example :
    (live (resolve_network (some devnet_genesis) new_cluster).net ≡ false) ↔ (
      ((false ≡ true) × (live new_cluster.net ≡ false))
      ⊎ ((false ≡ false) × (hash : Bytes) × (some devnet_genesis ≡ some hash) × IsTestGenesis hash))
resolve_network-live_example = resolve_network-live (some devnet_genesis) new_cluster

abbrev fetched : MintAccount
fetched = record {
  is_initialized = true;
  decimals = 2;
  supply = 500;
  mint_authority = none;
  freeze_authority = none;
}

-- Every account decodes to this mint.
abbrev programs : Programs
programs = record { token_2022 = 1 ∷ []; spl_token = 2 ∷ []; decode_mint = λ d. some fetched }

abbrev answer : Fetched
answer = found (record { owner = 2 ∷ []; account_data = replicate 82 0 })

is_safe : verify_safe programs (3 ∷ []) answer 5 2 ≡ ok tt
unfolding verify_safe verify check_supply scaled_amount scale equal
is_safe = refl

verify_safe_iff_example :
    ((verify_safe programs (3 ∷ []) answer 5 2 ≡ ok tt) ↔ IsFinished programs answer 5 2)
    × ((resolve_unconfirmed programs (3 ∷ []) answer 5 2 ≡ ok tt) ↔ IsFinished programs answer 5 2)
verify_safe_iff_example = verify_safe_iff programs (3 ∷ []) answer 5 2
