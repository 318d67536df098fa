-- ===== src/Token/Ledger.antt =====
-- token/engine.go, `RPCClient` and `Signer`: the calls by which an engine leaves the process, and what
-- each is answered. The code between the calls is a `Proc`; nothing is assumed of the answers.
pub mod Asks
pub mod Leads
pub mod Seen
use flynn_extensions.Prelude.{ℕ, Bool, Option, none, some, List, [], ◌∷◌, Bytes}
use flynn_extensions.Token.Verify.{Fetched}

-- `rpc.CommitmentType` and `rpc.ConfirmationStatusType`: three names, or another text.
pub data Commitment : Type 0 where
  processed confirmed finalized other_level : Commitment

-- `rpc.SignatureStatusesResult`: whether its `Err` is there, and its `ConfirmationStatus`.
pub record SignatureStatus : Type 0 where
  pub failed : Bool
  pub confirmation_status : Commitment

-- The answer to `GetSignatureStatuses`: an error or nil, or a list with nil for an unknown signature.
pub data Statuses : Type 0 where
  unread : Statuses
  listed : List (Option SignatureStatus) → Statuses

-- The answer to `GetLatestBlockhash`: an error, an empty response, or a hash with its last height.
pub data Latest : Type 0 where
  blockhash_failed blockhash_empty : Latest
  latest : Bytes → ℕ → Latest

-- The methods of `RPCClient` that the engine calls, and `Sign` of the payer.
pub data Call : Type 0 where
  get_latest_blockhash : Commitment → Call
  get_block_height : Commitment → Call
  send_transaction : List Bytes → Bytes → Commitment → Call
  get_signature_statuses : Bytes → Call
  get_account_info : Bytes → Commitment → Call
  get_genesis_hash : Call
  sign : Bytes → Call

-- What comes back. The signature that a submission returns is not read, only whether it failed.
abbrev pub Reply : Call → Type 0
Reply (get_latest_blockhash level) = Latest
Reply (get_block_height level) = Option ℕ
Reply (send_transaction signatures message level) = Bool
Reply (get_signature_statuses signature) = Statuses
Reply (get_account_info account level) = Fetched
Reply get_genesis_hash = Option Bytes
Reply (sign message) = Option Bytes

pub data Proc {ℓ} (A : Type ℓ) : Type ℓ where
  done : A → Proc A
  ask : (c : Call) → (Reply c → Proc A) → Proc A

module _ {ℓ κ} {A : Type ℓ} {B : Type κ} where
  infixl 5 ◌>>=◌
  unfoldable pub ◌>>=◌ : Proc A → (A → Proc B) → Proc B
  done a >>= f = f a
  ask c k >>= f = ask c (λ r. k r >>= f)

abbrev pub call : (c : Call) → Proc (Reply c)
call c = ask c done

-- A call with its answer; a world answers by what has happened so far.
abbrev pub Event : Type 0
Event = (c : Call) × Reply c

abbrev pub World : Type 0
World = List Event → (c : Call) → Reply c

-- The events of a run that starts after those of the past, whose latest is in front, and its value.
unfoldable pub run {ℓ} : {A : Type ℓ} → World → List Event → Proc A → List Event × A
run w past (done a) = ([], a)
run w past (ask c k) =
    let r = w past c in let rest = run w ((c, r) ∷ past) (k r) in ((c, r) ∷ rest.0, rest.1)
