-- ===== src/Signer/Reply.antt =====
-- signer/signer.go behind mcpserver/server.go: what a Solana signer answers to a call of its sign tool.
use flynn_extensions.Prelude.{
  ◌≡◌, refl, sym, ap, ◌∙◌, Bool, ◌==◌, Bool-cases, inl, inr, some, List, length, Bytes, equal,
  codes,
}
use flynn_extensions.Prelude.Result.{Result, ok, err}
use flynn_extensions.McpServer.{
  Transport, Request, Response, Call, Body, lookup, put, register, result, tool_text, tool_content,
  result_response, error_response, call_result, dispatch_method, dispatch_request, dispatch,
}
use flynn_extensions.McpServer.Serve.{Turn, Served}
use flynn_extensions.Solana.Message.{Message, parse_message}
use flynn_extensions.Solana.Policy.{Solana, PolicyError}
use flynn_extensions.Solana.Policy.Uses.{MayBeSigned}
use flynn_extensions.Signer.{
  Key, Policy, Opener, Codec, SignerError, State, sign_tool, sign_tool_name, sign_payload,
  signer_server, serve_signer,
}
use flynn_extensions.Signer.Guard.{solana_policy, serve_signer-signs_only}

-- A reply that carries a text is the text of a handler that had no error.
tool_content-tool_text :
    {E : Type 0} (r : Result E Bytes) (out : Bytes)
    → result (tool_content r) ≡ result (tool_text out)
    → r ≡ ok out
tool_content-tool_text (ok text) out same = cc
tool_content-tool_text (err e) out same = cc

module _ {P R W O : Type 0} (t : Transport (SignerError R O)) (c : Codec) (open_key : Opener W O)
    (policy : Policy P R) where
  sign_tool-found :
      (server_name version : Bytes)
      → lookup sign_tool_name (signer_server c open_key policy server_name version).tools
        ≡ some (sign_tool c policy)
  unfolding signer_server register lookup put equal
  sign_tool-found server_name version = refl

  -- A call of the sign tool runs its handler.
  pub call_result-sign :
      (server_name version id params : Bytes) (call : Call) (st : State P W)
      → t.unmarshal_call params ≡ some call
      → call.name ≡ sign_tool_name
      → call_result t (signer_server c open_key policy server_name version) id params st
        ≡ (some (result_response id (tool_content (sign_payload c policy call.arguments st))), st)
  unfolding call_result
  call_result-sign server_name version id params call st read named =
      rw (call_result, read, named, sign_tool-found server_name version) refl

  -- An answer to a call that carries a result comes from `callResult`.
  dispatch-call :
      (server_name version line : Bytes) (r : Request) (st : State P W)
      (x : Response (SignerError R O)) (b : Body (SignerError R O))
      → t.unmarshal_request line ≡ some r
      → r.method ≡ codes "tools/call"
      → (dispatch t (signer_server c open_key policy server_name version) line st).0 ≡ some x
      → x.reply ≡ result b
      → (call_result t (signer_server c open_key policy server_name version) r.id r.params st).0
        ≡ some x
  unfolding dispatch dispatch_request dispatch_method error_response equal
  dispatch-call server_name version line r st x b read called answered replied =
      elim (Bool-cases (equal r.jsonrpc (codes "2.0"))) [
        | inl current ↦
            rw (dispatch, read, dispatch_request, current, dispatch_method, called) at answered
        | inr old ↦ elim (Bool-cases (length r.id == 0)) [
          | inl silent ↦
              (let now = rw (dispatch, read, dispatch_request, old, silent) at answered in cc)
          | inr asked ↦
              (let now = rw (dispatch, read, dispatch_request, old, asked) at answered in cc)
        ]
      ]

module _ {W O : Type 0} (t : Transport (SignerError PolicyError O)) (c : Codec)
    (open_key : Opener W O) where
  -- After any run of a Solana signer that `Serve` started, a further call of the sign tool is answered
  -- with a text only if the text carries a signature by the key that was unlocked, over the bytes of a
  -- message that this key may sign.
  pub serve_signer-reply :
      (server_name version : Bytes) (p : Solana) (turns : List Turn) (failed : Bool) (w : W)
      (served : Served (State Solana W))
      → serve_signer t c server_name version
          (some open_key)
          (some (solana_policy, p))
          turns
          failed
          w
        ≡ ok served
      → (line : Bytes) (r : Request) (call : Call) → t.unmarshal_request line ≡ some r
      → r.method ≡ codes "tools/call"
      → t.unmarshal_call r.params ≡ some call
      → call.name ≡ sign_tool_name
      → (x : Response (SignerError PolicyError O)) (out : Bytes)
      → (dispatch t
          (signer_server c open_key solana_policy server_name version)
          line
          served.state).0
        ≡ some x
      → x.reply ≡ result (tool_text out)
      → (key : Key) × (payload : Bytes) × (m : Message) × (sig : Bytes) × (served.state.vault
          ≡ some key)
        × (parse_message payload ≡ ok m)
        × MayBeSigned key.public_half m
        × (key.sign payload ≡ ok sig)
        × (c.marshal_signature (c.encode_to_string sig) ≡ some out)
  unfolding result_response
  serve_signer-reply server_name version p turns failed w served ran line r call read called args
        named x out answered replied =
      let signed = sign_payload {O = O} c solana_policy call.arguments served.state in
      let came =
        dispatch-call t c open_key solana_policy server_name version line r served.state x
          (tool_text out) read called answered replied in
      let made =
        call_result-sign t c open_key solana_policy server_name version r.id r.params call
          served.state args named in
      let same : some (result_response r.id (tool_content signed)) ≡ some x =
        sym (ap (λ a. a.0) made) ∙ came in
      let reply : result (tool_content signed) ≡ result (tool_text out) =
        (let inner : result_response r.id (tool_content signed) ≡ x = cc in
          ap (λ a. a.reply) inner ∙ replied) in
      serve_signer-signs_only t c open_key server_name version p turns failed w served ran
        call.arguments out (tool_content-tool_text signed out reply)
