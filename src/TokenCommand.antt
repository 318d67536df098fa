-- ===== src/TokenCommand.antt =====
-- cmd/token/main.go, and token/address.go: the two tools of the token extension, whose calls start and
-- resume sessions. encoding/base64, encoding/json, strconv, and solana-go's base58 are the fields of a
-- `Texts`; what a tool replies is an `Answer` before it is printed.
pub mod Tools
pub mod Handles
pub mod Granted
pub mod Held
pub mod Lifecycles
pub mod Extension
pub mod Replies
pub mod Told
pub mod Entries
pub mod Verified
pub mod Waiting
pub mod Sessions
pub mod Signed
pub mod Supply
mod Runs
mod ServerRuns
use flynn_extensions.Prelude.{
  ℕ, ◌+◌, ◌-◌, ◌%◌, ◌^◌, Bool, true, false, not, leb, ◌==◌, ◌&&◌, ◌||◌, if◌then◌else◌, Option, none,
  some, List, [], ◌∷◌, ◌++◌, Bytes, codes, equal, length, take, drop, get_elem?,
}
use flynn_extensions.Prelude.Action.{Action}
use flynn_extensions.Prelude.Result.{Result, ok, err, ◌>>=◌, wrap}
use flynn_extensions.Token.Atomic.{MintSpec}
use flynn_extensions.Token.Engine.{zero_signature}
use flynn_extensions.Token.Host.{HostCall, HostReply, Wire}
use flynn_extensions.Token.Mint.{Sdk, Wallet, MintError, MintResult, zero_key}
use flynn_extensions.Token.Safety.{Violation}
use flynn_extensions.Token.Session.{
  Session, SessionError, MintOption, advance_session, start_mint, start_verify,
}
use flynn_extensions.Token.Verify.{Programs, VerifyError, token_2022_mint, MintState}

-- `resumeArgs`, and the arguments of the tools, as they decode.
pub record ResumeArgs : Type 0 where
  pub session : Bytes
  pub signature_text : Bytes
  pub sign_error : Bytes
  pub response : Bytes
  pub fetch_error : Bytes

pub record VerifyArgs : Type 0 where
  pub resume_args : ResumeArgs
  pub mint_text : Bytes

pub record MintArgs : Type 0 where
  pub resume_args : ResumeArgs
  pub host_key : Bytes
  pub name : Bytes
  pub symbol : Bytes
  pub metadata_uri : Bytes
  pub decimals : ℕ
  pub supply_text : Bytes
  pub treasury_text : Bytes

pub record Texts : Type 0 where
  pub decode_base64 : Bytes → Option Bytes
  pub encode_base64 : Bytes → Bytes
  pub format_uint : ℕ → Bytes
  pub parse_uint : Bytes → Option ℕ
  pub public_key_from_base58 : Bytes → Option Bytes
  pub unmarshal_verify : Bytes → Option VerifyArgs
  pub unmarshal_mint : Bytes → Option MintArgs

pub data AddressError : Type 0 where
  not_base64 : AddressError
  wrong_length : ℕ → AddressError

pub data ToolError : Type 0 where
  bad_input bad_mint_address bad_treasury_address bad_supply_text bad_response not_encoded :
      ToolError
  bad_host_key bad_signature : AddressError → ToolError
  unknown_session idle_session empty_call : Bytes → ToolError
  not_advanced : SessionError → ToolError
  not_verified : VerifyError → ToolError

-- The replies: a message to sign or a request to send, under the id of their session, and the reports.
pub data Answer : Type 0 where
  sign_answer fetch_answer : Bytes → Bytes → Answer
  verified : MintState → Answer
  unsafe_token_2022 : Bytes → Answer
  minted : Bytes → Option MintError → List Violation → Answer

-- `sessionRegistry`; its map is an association list, in which the first entry of a key counts.
pub record Registry (S : Type 0) : Type 0 where
  pub prefix : Bytes
  pub seq : ℕ
  pub sessions : List (Bytes × S)

abbrev pub new_registry : {S : Type 0} → Bytes → Registry S
new_registry p = record { prefix = p; seq = 0; sessions = [] }

module _ {S : Type 0} where
  unfoldable pub find : Bytes → List (Bytes × S) → Option S
  find id [] = none
  find id ((k, s) ∷ rest) = if equal k id then some s else find id rest

  unfoldable pub delete : Bytes → List (Bytes × S) → List (Bytes × S)
  delete id [] = []
  delete id ((k, s) ∷ rest) = if equal k id then delete id rest else (k, s) ∷ delete id rest

  abbrev pub get : Bytes → Registry S → Option S
  get id r = find id r.sessions

  abbrev pub assign : Bytes → S → Registry S → Registry S
  assign id s r = record r { sessions = (id, s) ∷ delete id r.sessions }

  abbrev pub discard : Bytes → Registry S → Registry S
  discard id r = record r { sessions = delete id r.sessions }

module _ (texts : Texts) where
  abbrev pub next_id : {S : Type 0} → Registry S → Bytes
  next_id r = r.prefix ++ texts.format_uint ((r.seq + 1) % 2 ^ 64)

  -- `store`, with the id that it returns.
  abbrev pub store : {S : Type 0} → S → Registry S → Bytes × Registry S
  store s r = (next_id r, assign (next_id r) s (record r { seq = (r.seq + 1) % 2 ^ 64 }))

  abbrev pub of_length : ℕ → Option Bytes → Result AddressError Bytes
  of_length n none = err not_base64
  of_length n (some raw) = if length raw == n then ok raw else err (wrong_length (length raw))

  abbrev pub parse_pubkey_bytes : Bytes → Result AddressError Bytes
  parse_pubkey_bytes b64 = of_length 32 (texts.decode_base64 b64)

  abbrev pub parse_signature_bytes : Bytes → Result AddressError Bytes
  parse_signature_bytes b64 = of_length 64 (texts.decode_base64 b64)

  abbrev pub failed_reply : Bytes → HostReply
  failed_reply text = record { signature = zero_signature; body = []; failure = some text }

  abbrev pub body_reply : Option Bytes → Result ToolError HostReply
  body_reply none = err bad_response
  body_reply (some b) = ok (record { signature = zero_signature; body = b; failure = none })

  -- `resumeArgs.reply`
  unfoldable pub reply_of : ResumeArgs → Result ToolError HostReply
  reply_of a =
      if not (equal a.sign_error [])
      then ok (failed_reply a.sign_error)
      else if not (equal a.fetch_error [])
      then ok (failed_reply a.fetch_error)
      else if not (equal a.response [])
      then body_reply (texts.decode_base64 a.response)
      else wrap bad_signature (parse_signature_bytes a.signature_text) >>= λ sig.
          ok (record { signature = sig; body = []; failure = none })

  -- `pendingReply`
  unfoldable pub pending_reply : Bytes → HostCall → Result ToolError Answer
  pending_reply id req = elim req.sign_request [
    | some s ↦ ok (sign_answer id (texts.encode_base64 s.message))
    | none ↦ elim req.fetch_request [
      | some f ↦ ok (fetch_answer id (texts.encode_base64 f.request_body))
      | none ↦ err (empty_call id)
    ]
  ]

  -- What `render`, `handle` from the new session on, and `handle` for a session's id do, for both
  -- services: they differ in what they report of an outcome.
  module _ {T : Type 0} (report : T → Result ToolError Answer) where
    unfoldable pub render : Bytes → Session T → Action (Registry (Session T)) ToolError Answer
    render id s r = elim s.outcome [
      | some out ↦ (report out, discard id r)
      | none ↦ elim s.pending [
        | some req ↦ (pending_reply id req, r)
        | none ↦ (err (idle_session id), r)
      ]
    ]

    abbrev pub open_session : Session T → Action (Registry (Session T)) ToolError Answer
    open_session s r = (let (id, stored) = store s r in render id s stored)

    -- The session that the map refers to is the one that advanced.
    abbrev pub after_advance :
        Bytes → Result SessionError (Session T) → Action (Registry (Session T)) ToolError Answer
    after_advance id (err e) r = (err (not_advanced e), discard id r)
    after_advance id (ok s) r = render id s (assign id s r)

    abbrev pub after_reply :
        Bytes
        → Session T
        → Result ToolError HostReply
        → Action (Registry (Session T)) ToolError Answer
    after_reply id s (err e) r = (err e, r)
    after_reply id s (ok reply) r = after_advance id (advance_session reply s) r

    abbrev pub continue_session :
        ResumeArgs → Option (Session T) → Action (Registry (Session T)) ToolError Answer
    continue_session a none r = (err (unknown_session a.session), r)
    continue_session a (some s) r = after_reply a.session s (reply_of a) r

    -- The two ways of a call, for what it starts where it names no session.
    abbrev pub opened :
        Result ToolError (Session T) → Action (Registry (Session T)) ToolError Answer
    opened (err e) r = (err e, r)
    opened (ok s) r = open_session s r

    unfoldable pub handle :
        ResumeArgs → Result ToolError (Session T) → Action (Registry (Session T)) ToolError Answer
    handle a fresh r =
        if equal a.session [] then opened fresh r else continue_session a (get a.session r) r
