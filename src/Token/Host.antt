-- ===== src/Token/Host.antt =====
-- token/hostrpc.go, and the signer of token/session.go: each call of an engine crosses to the host that
-- drives the session, as a message to sign or as the body of a request to send. encoding/json and
-- solana-go's client are the fields of a `Wire`.
use flynn_extensions.Prelude.{ℕ, ◌+◌, ◌%◌, ◌^◌, Option, none, some, Bytes}
use flynn_extensions.Prelude.Result.{Result, ok, err, ◌>>=◌, wrap}
use flynn_extensions.Token.Ledger.{
  Call, Reply, get_latest_blockhash, get_block_height, send_transaction, get_signature_statuses,
  get_account_info, get_genesis_hash, sign,
}

pub record SignRequest : Type 0 where
  pub pubkey : Bytes
  pub message : Bytes

pub record FetchRequest : Type 0 where
  pub request_body : Bytes

-- `HostCall`: one of its pointers is nil, and the other is not.
pub record HostCall : Type 0 where
  pub sign_request : Option SignRequest
  pub fetch_request : Option FetchRequest

-- `HostReply`, with the text of its error.
pub record HostReply : Type 0 where
  pub signature : Bytes
  pub body : Bytes
  pub failure : Option Bytes

-- The errors of `CallForInto`: of the encoding, of the host, of the decoding, of the node.
pub data RpcError : Type 0 where
  not_marshalled : RpcError
  through_the_host : Bytes → RpcError
  not_decoded : RpcError
  node_error : Bytes → RpcError

-- `jsonrpc.RPCResponse`, the part that is read.
pub record RpcResponse : Type 0 where
  pub error : Option Bytes
  pub result : Bytes

-- The client's request for a call under an id, the response in a body, and what the client makes of
-- the object that `CallForInto` decodes, or of its error.
pub record Wire : Type 0 where
  pub marshal_request : ℕ → Call → Option Bytes
  pub unmarshal_response : Bytes → Option RpcResponse
  pub answer : (c : Call) → Result RpcError Bytes → Reply c

-- `roundTrip`, once the host has replied.
abbrev pub round_trip : HostReply → Result Bytes Bytes
round_trip r = elim r.failure [ none ↦ ok r.body | some text ↦ err text ]

-- `h.id.Add(1) & math.MaxInt32`
abbrev pub request_id : ℕ → ℕ
request_id count = count % 2 ^ 31

abbrev pub signed_by_host : HostReply → Option Bytes
signed_by_host r = elim r.failure [ none ↦ some r.signature | some text ↦ none ]

-- What a call does: an answer at once, or a call of the host, with what is made of its reply.
pub data Crossing (c : Call) : Type 0 where
  at_once : Reply c → Crossing c
  crosses : HostCall → (HostReply → Reply c) → Crossing c

module _ (wire : Wire) where
  abbrev pub node_result : Option RpcResponse → Result RpcError Bytes
  node_result none = err not_decoded
  node_result (some reply) = elim reply.error [
    | none ↦ ok reply.result
    | some e ↦ err (node_error e)
  ]

  -- The end of `CallForInto`, from the host's reply on.
  abbrev pub rpc_result : HostReply → Result RpcError Bytes
  rpc_result r = do
    body ← wrap through_the_host (round_trip r)
    node_result (wire.unmarshal_response body)

  abbrev pub fetch_call : Bytes → HostCall
  fetch_call body = record {
    sign_request = none;
    fetch_request = some (record { request_body = body });
  }

  -- `CallForInto`, for the number of requests so far, this one included.
  unfoldable pub call_for_into : ℕ → (c : Call) → Crossing c
  call_for_into count c = elim (wire.marshal_request (request_id count) c) [
    | none ↦ at_once (wire.answer c (err not_marshalled))
    | some body ↦ crosses (fetch_call body) (λ r. wire.answer c (rpc_result r))
  ]

  -- The counter after a call: `Sign` of the payer's signer makes no request.
  abbrev pub next_count : ℕ → Call → ℕ
  next_count count (sign message) = count
  next_count count _ = (count + 1) % 2 ^ 64

  -- How a call of the engine of this payer leaves the process.
  unfoldable pub cross : Bytes → ℕ → (c : Call) → Crossing c
  cross pub_ count (sign message) =
      crosses
        (record {
          sign_request = some (record { pubkey = pub_; message = message });
          fetch_request = none;
        })
        signed_by_host
  cross pub_ count (get_latest_blockhash level) =
      call_for_into (next_count count (get_latest_blockhash level)) (get_latest_blockhash level)
  cross pub_ count (get_block_height level) =
      call_for_into (next_count count (get_block_height level)) (get_block_height level)
  cross pub_ count (send_transaction signatures message level) =
      call_for_into (next_count count (send_transaction signatures message level))
        (send_transaction signatures message level)
  cross pub_ count (get_signature_statuses asked) =
      call_for_into (next_count count (get_signature_statuses asked)) (get_signature_statuses asked)
  cross pub_ count (get_account_info account level) =
      call_for_into (next_count count (get_account_info account level))
        (get_account_info account level)
  cross pub_ count get_genesis_hash =
      call_for_into (next_count count get_genesis_hash) get_genesis_hash
