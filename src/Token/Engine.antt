-- ===== src/Token/Engine.antt =====
-- token/engine.go, `send` and `confirmOrExpire`: a transaction is built, signed by the keys that it
-- names, submitted once, and followed until its fate is known.
mod Signing
mod Runs
pub mod Confirm
pub mod Expired
pub mod Messages
pub mod Send
pub mod Settles
use flynn_extensions.Prelude.{
  ℕ, zero, suc, Bool, true, false, leb, if◌then◌else◌, Option, none, some, List, [], ◌∷◌, Bytes,
  equal, replicate,
}
use flynn_extensions.Prelude.Result.{Result, ok, err, either}
use flynn_extensions.Token.Ledger.{
  Commitment, processed, confirmed, finalized, other_level, SignatureStatus, Statuses, unread,
  listed, Latest, blockhash_failed, blockhash_empty, latest, get_latest_blockhash, get_block_height,
  send_transaction, get_signature_statuses, sign, Reply, Proc, done, ask, ◌>>=◌, call,
}

-- What `confirmOrExpire` returns: nil, errTxExpired, a failure on the chain, the context's error.
pub data Fate : Type 0 where
  landed expired failed_on_chain context_ended : Fate

-- `len(st.Value) > 0 && st.Value[0] != nil`, with this first status.
abbrev pub first_status : List (Option SignatureStatus) → Option SignatureStatus
first_status [] = none
first_status (s ∷ rest) = s

abbrev pub is_finalized : Commitment → Bool
is_finalized processed = false
is_finalized confirmed = false
is_finalized finalized = true
is_finalized other_level = false

-- The `switch` on the status of a transaction that has not failed; none is `continue`.
unfoldable pub judge_level : Commitment → Commitment → Option Fate
judge_level level finalized = some landed
judge_level level confirmed = if is_finalized level then none else some landed
judge_level level processed = none
judge_level level other_level = none

-- The tests on a status that is there.
unfoldable pub judge : Commitment → SignatureStatus → Option Fate
judge level s = if s.failed then some failed_on_chain else judge_level level s.confirmation_status

-- The second look, once the height has passed.
abbrev pub recheck : Statuses → Option Fate
recheck unread = none
recheck (listed statuses) = elim (first_status statuses) [ none ↦ some expired | some s ↦ none ]

module _ (signature : Bytes) (last_valid : ℕ) where
  unfoldable pub check_height : Option ℕ → Proc (Option Fate)
  check_height none = done none
  check_height (some height) = elim (leb height last_valid) [
    | true ↦ done none
    | false ↦ do again ← call (get_signature_statuses signature); done (recheck again)
  ]

  unfoldable pub check_status : Commitment → Statuses → Proc (Option Fate)
  check_status level unread = done none
  check_status level (listed statuses) = elim (first_status statuses) [
    | some s ↦ done (judge level s)
    | none ↦ do height ← call (get_block_height confirmed); check_height height
  ]

  -- One turn of the loop after the timer fired.
  unfoldable pub poll : Commitment → Proc (Option Fate)
  poll level = do st ← call (get_signature_statuses signature); check_status level st

  -- The loop. The argument counts how often the timer comes before the end of the context in its
  -- `select`, which no call of the engine decides.
  unfoldable pub confirm_or_expire : Commitment → ℕ → Proc Fate
  confirm_or_expire level zero = done context_ended
  confirm_or_expire level (suc polls) = do
    fate ← poll level
    elim fate [ some f ↦ done f | none ↦ confirm_or_expire level polls ]

-- `Signer`: whoever holds the payer's key, outside of the engine, or a `KeySigner` with what its
-- private key makes of a message.
pub data Signer : Type 0 where
  payer_signer : Bytes → Signer
  key_signer : Bytes → (Bytes → Option Bytes) → Signer

abbrev pub public_key : Signer → Bytes
public_key (payer_signer key) = key
public_key (key_signer key f) = key

abbrev pub sign_with : Signer → Bytes → Proc (Option Bytes)
sign_with (payer_signer key) message = call (sign message)
sign_with (key_signer key f) message = done (f message)

-- The parts of solana-go's transaction that `send` reads: the keys that must sign, at least the fee
-- payer's, which stands first, and what `MarshalBinary` makes of its message.
pub record Built : Type 0 where
  pub fee_payer : Bytes
  pub more_signers : List Bytes
  pub marshalled : Option Bytes

-- The errors before the submission, and all of them.
pub data PrepareError : Type 0 where
  blockhash_error empty_blockhash new_tx marshal_message : PrepareError
  no_signer : Bytes → PrepareError
  sign_failed : PrepareError

pub data SendError : Type 0 where
  unprepared : PrepareError → SendError
  tx_expired never_submitted tx_failed context_done : SendError

-- `errors.Is(err, errTxExpired)`
abbrev pub is_expired : SendError → Bool
is_expired tx_expired = true
is_expired never_submitted = true
is_expired _ = false

-- `cand.PublicKey().Equals(want)` for the first of the signers.
unfoldable pub find_signer : List Signer → Bytes → Option Signer
find_signer [] want = none
find_signer (cand ∷ signers) want =
    if equal (public_key cand) want then some cand else find_signer signers want

-- What a signer made of a message, or the error of its failure.
abbrev pub signed_or : Option Bytes → Result PrepareError Bytes
signed_or none = err sign_failed
signed_or (some s) = ok s

-- One turn of the loop over the signatures.
unfoldable pub sign_for : List Signer → Bytes → Bytes → Proc (Result PrepareError Bytes)
sign_for signers msg want = elim (find_signer signers want) [
  | none ↦ done (err (no_signer want))
  | some s ↦ do answer ← sign_with s msg; done (signed_or answer)
]

abbrev pub add_signature :
    Bytes → Result PrepareError (List Bytes) → Result PrepareError (List Bytes)
add_signature s (ok rest) = ok (s ∷ rest)
add_signature s (err e) = err e

unfoldable pub sign_all : List Signer → Bytes → List Bytes → Proc (Result PrepareError (List Bytes))
sign_all signers msg [] = done (ok [])
sign_all signers msg (want ∷ keys) =
    sign_for signers msg want
    >>= either (λ e. done (err e))
        λ s. sign_all signers msg keys >>= λ rest. done (add_signature s rest)

-- `solana.Signature{}`, the value beside an error that says that nothing was signed or landed.
abbrev pub zero_signature : Bytes
zero_signature = replicate 64 0

-- The signature and the error that `send` returns.
abbrev pub Sent : Type 0
Sent = Bytes × Option SendError

-- The `switch` on what `confirmOrExpire` returned, with whether the submission was accepted.
abbrev pub conclude : Bytes → Bool → Fate → Sent
conclude sig accepted landed = (sig, none)
conclude sig true expired = (zero_signature, some tx_expired)
conclude sig false expired = (zero_signature, some never_submitted)
conclude sig accepted failed_on_chain = (sig, some tx_failed)
conclude sig accepted context_ended = (sig, some context_done)

-- From the signed transaction on.
unfoldable pub submit : List Bytes → Bytes → Bytes → ℕ → Commitment → ℕ → Proc Sent
submit signatures msg sig last_valid level polls = do
  accepted ← call (send_transaction signatures msg confirmed)
  fate ← confirm_or_expire sig last_valid level polls
  done (conclude sig accepted fate)

abbrev pub refused : PrepareError → Proc Sent
refused e = done (zero_signature, some (unprepared e))

-- From the built transaction on.
unfoldable pub authorize_message : List Signer → Built → ℕ → Commitment → ℕ → Bytes → Proc Sent
authorize_message signers tx last_valid level polls msg =
    sign_for signers msg tx.fee_payer
    >>= either refused λ sig.
      sign_all signers msg tx.more_signers
      >>= either refused λ others. submit (sig ∷ others) msg sig last_valid level polls

unfoldable pub authorize : List Signer → Built → ℕ → Commitment → ℕ → Proc Sent
authorize signers tx last_valid level polls = elim tx.marshalled [
  | none ↦ refused marshal_message
  | some msg ↦ authorize_message signers tx last_valid level polls msg
]

-- `solana.NewTransaction` is given the instructions, the blockhash and the payer.
module _ {Ix : Type 0} (new_transaction : List Ix → Bytes → Bytes → Option Built) where
  unfoldable pub with_blockhash :
      List Ix → Commitment → Signer → List Signer → ℕ → Latest → Proc Sent
  with_blockhash ixs level payer extra polls blockhash_failed = refused blockhash_error
  with_blockhash ixs level payer extra polls blockhash_empty = refused empty_blockhash
  with_blockhash ixs level payer extra polls (latest hash last_valid) =
      elim (new_transaction ixs hash (public_key payer)) [
        | none ↦ refused new_tx
        | some tx ↦ authorize (payer ∷ extra) tx last_valid level polls
      ]

  unfoldable pub send : List Ix → Commitment → Signer → List Signer → ℕ → Proc Sent
  send ixs level payer extra polls = do
    bh ← call (get_latest_blockhash confirmed)
    with_blockhash ixs level payer extra polls bh
