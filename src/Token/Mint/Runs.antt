-- ===== src/Token/Mint/Runs.antt =====
-- Runs of a whole mint, in a world where everything goes well, and of one under a protected name.
use flynn_extensions.Prelude.{
  ◌≡◌, ◌≢◌, refl, true, false, none, some, [], ◌∷◌, codes, equal, replicate, inl, All,
}
use flynn_extensions.Prelude.Result.{ok}
use flynn_extensions.Token.Amount.{scaled_amount, scale}
use flynn_extensions.Token.Atomic.{build_mint}
use flynn_extensions.Token.Create.{validate_metadata}
use flynn_extensions.Token.Engine.{
  confirm_or_expire, poll, check_status, judge, judge_level, send, with_blockhash, authorize,
  authorize_message, sign_for, sign_all, find_signer, submit,
}
use flynn_extensions.Token.Impersonation.{
  is_kept, imitated, impersonation_target, protected_brands, brand_of, normalize, fold_rune,
  normalized_brands,
}
use flynn_extensions.Token.Impersonation.Disguise.{
  Disguises, nothing, look_alike, KeepsKept, Listed, guard-disguise,
}
use flynn_extensions.Token.Ledger.{
  finalized, SignatureStatus, listed, latest, get_latest_blockhash, get_block_height,
  send_transaction, get_signature_statuses, get_account_info, get_genesis_hash, sign, World, run,
  ◌>>=◌,
}
use flynn_extensions.Token.Mint.{
  treasury_of, find_network, content_addressed, has_prefix, check_spendable, plan_of, settle,
  submit_mint, fund, check_treasury, judge_plan, identify, mint, zero_key,
}
use flynn_extensions.Token.Mint.Minted.{Minted, IsRead}
use flynn_extensions.Token.Mint.Success.{IsDisclosed, IsProven, mint-IsProven, mint-forbidden}
use flynn_extensions.Token.Samples.{sdk, wallet, spec}
use flynn_extensions.Token.Network.{Cluster, new_cluster, resolve_network, live}
use flynn_extensions.Token.Safety.{
  guard, evaluate, violations, trim_space, trim_left, is_space, less,
}
use flynn_extensions.Token.Verify.{found, verify, verify_safe, check_supply}

abbrev final : SignatureStatus
final = record { failed = false; confirmation_status = finalized }

-- A chain of no known genesis, on which every account is the finished mint.
abbrev world : World
world past (get_latest_blockhash level) = latest (7 ∷ []) 100
world past (get_block_height level) = some 90
world past (send_transaction signatures message level) = true
world past (get_signature_statuses signature) = listed (some final ∷ [])
world past (get_account_info key level) =
    found (record { owner = 4 ∷ []; account_data = replicate 82 0 })
world past get_genesis_hash = none
world past (sign message) = some (9 ∷ [])

minted : (run world [] (mint sdk (7 ∷ []) wallet 1 (spec (codes "q")) new_cluster)).1.2 ≡ none
unfolding run mint identify find_network judge_plan check_treasury fund submit_mint settle
    check_spendable treasury_of content_addressed has_prefix build_mint validate_metadata
    scaled_amount scale send with_blockhash authorize authorize_message sign_for sign_all
    find_signer submit confirm_or_expire poll check_status judge judge_level ◌>>=◌ equal
    impersonation_target brand_of normalize fold_rune normalized_brands protected_brands is_kept
    imitated resolve_network live guard evaluate violations trim_space trim_left is_space less
    verify verify_safe check_supply
minted = refl

mint-IsProven_example :
    (let (events, (key, disclosures, error)) =
        run world [] (mint sdk (7 ∷ []) wallet 1 (spec (codes "q")) new_cluster) in
      (key ≡ 3 ∷ [])
      × IsDisclosed sdk (7 ∷ []) (spec (codes "q")) disclosures
      × IsProven sdk (7 ∷ []) wallet (spec (codes "q")) events)
mint-IsProven_example =
    mint-IsProven sdk (7 ∷ []) wallet (spec (codes "q")) 1 new_cluster world minted

sdk-KeepsKept : KeepsKept sdk.unicode
sdk-KeepsKept r kept = (refl, refl)

usdc-Disguises : Disguises sdk.unicode (codes "usdc") (codes "usdc")
unfolding imitated
usdc-Disguises = look_alike 117 117 refl refl (
    look_alike 115 115 refl refl
      (look_alike 100 100 refl refl (look_alike 99 99 refl refl nothing)))

usdc-Listed : Listed (codes "usdc") protected_brands
unfolding protected_brands
usdc-Listed = inl refl

forbidden : (known : Cluster) → guard (plan_of sdk (7 ∷ []) (spec (codes "usdc")) known) ≢ ok tt
forbidden known =
    guard-disguise sdk.unicode (plan_of sdk (7 ∷ []) (spec (codes "usdc")) known) (codes "usdc")
      (codes "acm") (codes "usdc") sdk-KeepsKept usdc-Listed (inl usdc-Disguises) refl

mint-forbidden_example :
    (let (events, (key, disclosures, error)) =
        run world [] (mint sdk (7 ∷ []) wallet 1 (spec (codes "usdc")) new_cluster) in
      All IsRead events × (key ≡ zero_key) × (error ≢ none))
mint-forbidden_example =
    mint-forbidden sdk (7 ∷ []) wallet (spec (codes "usdc")) 1 new_cluster world forbidden
