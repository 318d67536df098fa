-- ===== src/Token/Engine/Runs.antt =====
-- Runs of the loop that follows a transaction, and of a whole transaction, in worlds with fixed answers.
use flynn_extensions.Prelude.{
  ℕ, ◌+◌, ◌≡◌, ◌≢◌, refl, true, false, Option, none, some, List, [], ◌∷◌, Bytes, arith, equal,
}
use flynn_extensions.Token.Verify.{absent}
use flynn_extensions.Token.Ledger.{
  finalized, SignatureStatus, listed, latest, get_latest_blockhash, get_block_height,
  send_transaction, get_signature_statuses, get_account_info, get_genesis_hash, sign, World, run,
  ◌>>=◌,
}
use flynn_extensions.Token.Engine.{
  landed, expired, context_ended, confirm_or_expire, poll, check_status, check_height, judge,
  judge_level, payer_signer, key_signer, Built, send, with_blockhash, authorize, authorize_message,
  sign_for, sign_all, find_signer, submit,
}
use flynn_extensions.Token.Engine.Confirm.{Shows, confirm_or_expire-Shows}
use flynn_extensions.Token.Engine.Expired.{
  Chain, here, next, grow, Honest, confirm_or_expire-never_lands,
}
use flynn_extensions.Token.Engine.Settles.{Reports, confirm_or_expire-settles}

-- A node that gives this status to every signature, at the height 101, and a payer that signs.
abbrev world : Option SignatureStatus → World
world status past (get_latest_blockhash level) = latest (7 ∷ []) 100
world status past (get_block_height level) = some 101
world status past (send_transaction signatures message level) = true
world status past (get_signature_statuses signature) = listed (status ∷ [])
world status past (get_account_info account level) = absent
world status past get_genesis_hash = none
world status past (sign message) = some (9 ∷ [])

abbrev final : SignatureStatus
final = record { failed = false; confirmation_status = finalized }

abbrev dropped : World
dropped = world none

abbrev settled : World
settled = world (some final)

abbrev signature : Bytes
signature = 9 ∷ []

dropped-expired : (run dropped [] (confirm_or_expire signature 100 finalized 3)).1 ≡ expired
unfolding run confirm_or_expire poll check_status check_height ◌>>=◌
dropped-expired = refl

settled-landed : (run settled [] (confirm_or_expire signature 100 finalized 3)).1 ≡ landed
unfolding run confirm_or_expire poll check_status judge judge_level ◌>>=◌
settled-landed = refl

confirm_or_expire-Shows_example :
    (let (events, fate) = run dropped [] (confirm_or_expire signature 100 finalized 3) in
      Shows signature 100 finalized events fate)
confirm_or_expire-Shows_example = confirm_or_expire-Shows signature 100 finalized 3 dropped []

-- The chain of this node, which holds nothing.
abbrev tip : Chain
tip = record { height = 101; included = false }

dropped-Honest :
    Honest 100 signature tip (run dropped [] (confirm_or_expire signature 100 finalized 3)).0 tip
unfolding run confirm_or_expire poll check_status check_height ◌>>=◌
dropped-Honest =
    (tip, here, (λ own gone. refl), (tip, here, omega arith, (tip, here, (λ own gone. refl), here)))

abbrev grown : Chain
grown = record { height = 101 + 5; included = false }

confirm_or_expire-never_lands_example : grown.included ≡ false
confirm_or_expire-never_lands_example =
    confirm_or_expire-never_lands signature 100 finalized 3 dropped [] tip tip grown dropped-expired
      dropped-Honest (next here (grow tip 5))

settled-Reports : Reports settled signature 0
settled-Reports past long = (some final ∷ [], final, refl, refl, refl, refl)

confirm_or_expire-settles_example :
    (run settled [] (confirm_or_expire signature 100 finalized 3)).1 ≢ context_ended
confirm_or_expire-settles_example =
    confirm_or_expire-settles signature 100 finalized settled 0 3 settled-Reports (omega arith)

-- A library whose transactions are signed by their payer and by the key 5, over the bytes 1 and 2.
abbrev two_signers : List ℕ → Bytes → Bytes → Option Built
two_signers ixs hash payer =
    some
      (record { fee_payer = payer; more_signers = (5 ∷ []) ∷ []; marshalled = some (1 ∷ 2 ∷ []) })

sent :
    (run settled [] (
      send two_signers
        (3 ∷ [])
        finalized
        (payer_signer (4 ∷ []))
        (key_signer (5 ∷ []) (λ m. some (6 ∷ m)) ∷ [])
        2)).1
    ≡ (9 ∷ [], none)
unfolding run send with_blockhash authorize authorize_message sign_for sign_all find_signer equal
    submit confirm_or_expire poll check_status judge judge_level ◌>>=◌
sent = refl
