-- ===== src/McpServer/Dispatch.antt =====
-- `dispatch` of mcpserver/server.go: which messages are answered, and with what id.
use flynn_extensions.Prelude.{
  ◌≡◌, ◌≢◌, ◌↔◌, ◌⊎◌, refl, inl, inr, Option, none, some, [], arith, Bytes, codes, equal_iff,
  Option-cases,
}
use flynn_extensions.McpServer.{
  Request, Response, Transport, Server, lookup, call_result, dispatch_method, dispatch_request,
  dispatch, id_or_null, result_response, error_response,
}

abbrev pub version_two : Bytes
version_two = codes "2.0"

-- The methods that the server has, and the notices of the client that it takes without an answer.
abbrev pub IsMethod : Bytes → Type 0
IsMethod m =
    (m ≡ codes "initialize")
    ⊎ (m ≡ codes "tools/list")
    ⊎ (m ≡ codes "tools/call")
    ⊎ (m ≡ codes "ping")

abbrev pub IsNotice : Bytes → Type 0
IsNotice m = (m ≡ codes "notifications/initialized") ⊎ (m ≡ codes "notifications/cancelled")

-- A message that gets no answer.
abbrev pub IsSilent : Request → Type 0
IsSilent r =
    ((r.jsonrpc ≢ version_two) × (r.id ≡ []))
    ⊎ ((r.jsonrpc ≡ version_two) × (IsNotice r.method ⊎ ((¬ IsMethod r.method) × (r.id ≡ []))))

module _ {S E : Type 0} (t : Transport E) (s : Server S E) (st : S) where
  -- An answer to a request with this id.
  abbrev pub Answers : Bytes → Option (Response E) → Type 0
  Answers id o = (r : Response E) × (o ≡ some r) × (r.id ≡ id_or_null id)

  -- A call is answered, whatever becomes of it.
  call_result-Answers : (id params : Bytes) → Answers id (call_result t s id params st).0
  unfolding call_result result_response error_response
  call_result-Answers id params = elim (Option-cases (t.unmarshal_call params)) [
    | inl none_read ↦ rw none_read (_, refl, refl)
    | inr (call, read) ↦ elim (Option-cases (lookup call.name s.tools)) [
      | inl missing ↦ rw (read, missing) (_, refl, refl)
      | inr (tool, found) ↦ rw (read, found) (_, refl, refl)
    ]
  ]

  dispatch_request-IsSilent : (r : Request) → ((dispatch_request t s r st).0 ≡ none) ↔ IsSilent r
  unfolding dispatch_request dispatch_method
  dispatch_request-IsSilent r = (
    λ e. ground (
      arith,
      equal_iff r.jsonrpc version_two,
      equal_iff r.method (codes "initialize"),
      equal_iff r.method (codes "tools/list"),
      equal_iff r.method (codes "tools/call"),
      equal_iff r.method (codes "ping"),
      equal_iff r.method (codes "notifications/initialized"),
      equal_iff r.method (codes "notifications/cancelled"),
      call_result-Answers r.id r.params,
    ),
    λ h. ground (
      arith,
      equal_iff r.jsonrpc version_two,
      equal_iff r.method (codes "initialize"),
      equal_iff r.method (codes "tools/list"),
      equal_iff r.method (codes "tools/call"),
      equal_iff r.method (codes "ping"),
      equal_iff r.method (codes "notifications/initialized"),
      equal_iff r.method (codes "notifications/cancelled"),
    ),
  )

  answer-id :
      (r : Request) (x : Response E)
      → (dispatch_request t s r st).0 ≡ some x
      → x.id ≡ id_or_null r.id
  unfolding dispatch_request dispatch_method result_response error_response
  answer-id r x e = ground (arith, call_result-Answers r.id r.params)

  -- A message that is read as a request gets no answer exactly if it is silent, and an answer to it
  -- carries its id, or null for a missing one.
  pub dispatch-answer :
      (line : Bytes) (r : Request)
      → t.unmarshal_request line ≡ some r
      → (((dispatch t s line st).0 ≡ none) ↔ IsSilent r)
        × ((x : Response E) → (dispatch t s line st).0 ≡ some x → x.id ≡ id_or_null r.id)
  unfolding dispatch
  dispatch-answer line r read = rw (dispatch, read) (dispatch_request-IsSilent r, answer-id r)
