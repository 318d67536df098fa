-- ===== src/Token/Session/Runs.antt =====
-- Runs of a verify session and of a mint session, with a host that always sends the same.
use flynn_extensions.Prelude.{
  ◌≤◌, ◌≡◌, refl, none, some, [], ◌∷◌, length, arith, equal, ap, ◌∙◌, false, codes, true, List,
  Bytes,
}
use flynn_extensions.Prelude.Result.{ok, Result}
use flynn_extensions.Token.Host.{cross, call_for_into, RpcError, Wire}
use flynn_extensions.Token.Ledger.{
  run, finalized, SignatureStatus, listed, latest, get_latest_blockhash, get_block_height,
  send_transaction, get_signature_statuses, get_account_info, get_genesis_hash, sign, ◌>>=◌, Call,
  Reply,
}
use flynn_extensions.Token.Samples.{wire, programs, sdk, wallet, spec, account_in}
use flynn_extensions.Token.Session.{start_verify, verify_mint, start_mint}
use flynn_extensions.Token.Session.Drive.{Host, drive, world_of, drive-outcome}
use flynn_extensions.Token.Verify.{verify, verify_safe, check_supply}
use flynn_extensions.Token.Amount.{scaled_amount, scale}
use flynn_extensions.Token.Atomic.{MintSpec, build_mint}
use flynn_extensions.Token.Create.{validate_metadata}
use flynn_extensions.Token.Engine.{
  confirm_or_expire, poll, check_status, judge, judge_level, send, with_blockhash, authorize,
  authorize_message, sign_for, sign_all, find_signer, submit,
}
use flynn_extensions.Token.Impersonation.{
  is_kept, imitated, impersonation_target, protected_brands, brand_of, normalize, fold_rune,
  normalized_brands,
}
use flynn_extensions.Token.Mint.{
  treasury_of, find_network, content_addressed, has_prefix, check_spendable, plan_of, settle,
  submit_mint, fund, check_treasury, judge_plan, identify, mint,
}
use flynn_extensions.Token.Mint.Success.{IsDisclosed, IsProven}
use flynn_extensions.Token.Network.{new_cluster, resolve_network, live}
use flynn_extensions.Token.Safety.{
  guard, evaluate, violations, trim_space, trim_left, is_space, less, Violation,
}
use flynn_extensions.Token.Session.Minting.{asked_in, start_mint-IsProven}

abbrev host : Host
host req = record { signature = []; body = 4 ∷ []; failure = none }

one_call : length (run (world_of wire [] host) [] (verify_mint programs (3 ∷ []))).0 ≤ 1
unfolding run
one_call = omega arith

read :
    (run (world_of wire [] host) [] (verify_mint programs (3 ∷ []))).1
    ≡ ok (record {
      mint = 3 ∷ [];
      decimals = 2;
      supply = 500;
      mint_authority = none;
      freeze_authority = none;
    })
unfolding run cross call_for_into verify equal
read = refl

drive-outcome_example :
    (drive 1 host (start_verify wire programs (3 ∷ []))).outcome
    ≡ some (run (world_of wire [] host) [] (verify_mint programs (3 ∷ []))).1
drive-outcome_example = drive-outcome wire [] host (verify_mint programs (3 ∷ [])) 1 one_call

abbrev final : SignatureStatus
final = record { failed = false; confirmation_status = finalized }

-- A chain on which all goes well, whatever the host sends back.
abbrev good_answer : (c : Call) → Result RpcError Bytes → Reply c
good_answer (get_latest_blockhash level) r = latest (7 ∷ []) 100
good_answer (get_block_height level) r = some 90
good_answer (send_transaction signatures message level) r = true
good_answer (get_signature_statuses asked) r = listed (some final ∷ [])
good_answer (get_account_info account level) r = account_in r
good_answer get_genesis_hash r = none
good_answer (sign message) r = none

abbrev good_wire : Wire
good_wire = record wire { answer = good_answer }

abbrev token : MintSpec
token = spec (codes "q")

abbrev disclosures : List Violation
disclosures = evaluate (plan_of sdk (7 ∷ []) token (resolve_network none new_cluster))

seven_calls : length (asked_in good_wire sdk (7 ∷ []) wallet 1 token [] host) ≤ 7
unfolding run mint identify find_network judge_plan check_treasury fund submit_mint settle
    check_spendable treasury_of content_addressed has_prefix build_mint validate_metadata
    scaled_amount scale send with_blockhash authorize authorize_message sign_for sign_all
    find_signer submit confirm_or_expire poll check_status judge judge_level ◌>>=◌ equal
    impersonation_target brand_of normalize fold_rune normalized_brands protected_brands is_kept
    imitated resolve_network live guard evaluate violations trim_space trim_left is_space less
    verify verify_safe check_supply cross call_for_into
seven_calls = omega arith

minted :
    (run (world_of good_wire (7 ∷ []) host) [] (mint sdk (7 ∷ []) wallet 1 token new_cluster)).1
    ≡ (3 ∷ [], disclosures, none)
unfolding run mint identify find_network judge_plan check_treasury fund submit_mint settle
    check_spendable treasury_of content_addressed has_prefix build_mint validate_metadata
    scaled_amount scale send with_blockhash authorize authorize_message sign_for sign_all
    find_signer submit confirm_or_expire poll check_status judge judge_level ◌>>=◌ equal
    impersonation_target brand_of normalize fold_rune normalized_brands protected_brands is_kept
    imitated resolve_network live guard evaluate violations trim_space trim_left is_space less
    verify verify_safe check_supply cross call_for_into
minted = refl

completed :
    (drive 7 host (start_mint good_wire sdk (7 ∷ []) wallet 1 token [])).outcome
    ≡ some (3 ∷ [], disclosures, none)
completed =
    drive-outcome good_wire (7 ∷ []) host (mint sdk (7 ∷ []) wallet 1 token new_cluster) 7
      seven_calls
    ∙ ap some minted

start_mint-IsProven_example :
    (wallet.wallet_key ≡ wallet.wallet_key)
    × IsDisclosed sdk (7 ∷ []) token disclosures
    × IsProven sdk (7 ∷ []) wallet token (asked_in good_wire sdk (7 ∷ []) wallet 1 token [] host)
start_mint-IsProven_example =
    start_mint-IsProven good_wire sdk (7 ∷ []) wallet 1 token [] host 7 (3 ∷ []) disclosures
      seven_calls completed
