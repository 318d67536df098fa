-- ===== src/Token/Session/Drive.antt =====
-- token/session.go: a driver that answers each call of a session until there is none.
use flynn_extensions.Prelude.{
  ℕ, zero, suc, ◌≤◌, ◌≡◌, refl, ap, ◌∙◌, ◌+◌, ◌%◌, ◌^◌, subst, inl, inr, Option-cases, Option, none,
  some, List, [], ◌∷◌, Bytes, length, arith,
}
use flynn_extensions.Prelude.Result.{Result, ok, err}
use flynn_extensions.Token.Host.{
  RpcError, not_marshalled, through_the_host, not_decoded, node_error, RpcResponse, HostCall,
  HostReply, Wire, rpc_result, call_for_into, Crossing, at_once, crosses, next_count, cross,
}
use flynn_extensions.Token.Ledger.{
  get_latest_blockhash, get_block_height, send_transaction, get_signature_statuses,
  get_account_info, get_genesis_hash, sign, Call, Reply, Proc, done, ask, Event, World, run,
}
use flynn_extensions.Token.Session.{
  Life, finished, awaits, Session, start, cross_over, advance_session, through_host,
}
use flynn_extensions.Token.Session.Parked.{parked, start-parked, advance-parked}

-- A host replies to what it is given.
abbrev pub Host : Type 0
Host = HostCall → HostReply

-- At most so many replies. A session that refuses a reply stays as it is.
unfoldable pub drive : {T : Type 0} → ℕ → Host → Session T → Session T
drive zero host s = s
drive (suc n) host s = elim s.pending [
  | none ↦ s
  | some req ↦ elim (advance_session (host req) s) [ err e ↦ s | ok next ↦ drive n host next ]
]

module _ (wire : Wire) where
  -- What a response says: the result, or the node's error.
  abbrev said : Option RpcResponse → Result RpcError Bytes
  said none = err not_decoded
  said (some response) = elim response.error [
    | none ↦ ok response.result
    | some e ↦ err (node_error e)
  ]

  -- What the host's reply to a request says: the host's failure comes first.
  abbrev pub heard : HostReply → Result RpcError Bytes
  heard r = elim r.failure [
    | some text ↦ err (through_the_host text)
    | none ↦ said (wire.unmarshal_response r.body)
  ]

  pub rpc_result-heard : (r : HostReply) → rpc_result wire r ≡ heard r
  rpc_result-heard r = elim (Option-cases r.failure) [
    | inr (text, failed) ↦ rw failed refl
    | inl well ↦ elim (Option-cases (wire.unmarshal_response r.body)) [
      | inl bad ↦ rw (well, bad) refl
      | inr (response, read) ↦ rw (well, read) refl
    ]
  ]

module _ (wire : Wire) (payer : Bytes) (host : Host) where
  -- How often a request was made.
  abbrev pub count_of : List Event → ℕ
  count_of [] = 0
  count_of ((c, r) ∷ past) = next_count wire (count_of past) c

  -- The host is given the body of a request, under the number of requests so far.
  abbrev requested : ℕ → (c : Call) → Reply c
  requested count c = elim (wire.marshal_request (count % 2 ^ 31) c) [
    | none ↦ wire.answer c (err not_marshalled)
    | some body ↦ wire.answer c (
        heard wire (
          host (record {
            sign_request = none;
            fetch_request = some (record { request_body = body });
          })))
  ]

  -- The world that this host is: a signature unless the host failed, or what its reply says.
  abbrev pub told : ℕ → (c : Call) → Reply c
  told count (sign message) =
      let r = host (record {
        sign_request = some (record { pubkey = payer; message = message });
        fetch_request = none;
      }) in
      elim r.failure [ none ↦ some r.signature | some text ↦ none ]
  told count (get_latest_blockhash level) =
      requested ((count + 1) % 2 ^ 64) (get_latest_blockhash level)
  told count (get_block_height level) = requested ((count + 1) % 2 ^ 64) (get_block_height level)
  told count (send_transaction signatures message level) =
      requested ((count + 1) % 2 ^ 64) (send_transaction signatures message level)
  told count (get_signature_statuses asked) =
      requested ((count + 1) % 2 ^ 64) (get_signature_statuses asked)
  told count (get_account_info account level) =
      requested ((count + 1) % 2 ^ 64) (get_account_info account level)
  told count get_genesis_hash = requested ((count + 1) % 2 ^ 64) get_genesis_hash

  abbrev pub world_of : World
  world_of past c = told (count_of past) c

  -- What a call is answered, across the host.
  abbrev reply_by : {c : Call} → Crossing c → Reply c
  reply_by (at_once r) = r
  reply_by (crosses req f) = f (host req)

  reply_by-requested :
      (count : ℕ) (c : Call) → reply_by (call_for_into wire count c) ≡ requested count c
  unfolding call_for_into
  reply_by-requested count c = elim (Option-cases (wire.marshal_request (count % 2 ^ 31) c)) [
    | inl failed ↦ rw (reply_by, requested, failed) refl
    | inr (body, made) ↦
        rw (reply_by, requested, made)
          (ap (wire.answer c) (
            rpc_result-heard wire (
              host (record {
                sign_request = none;
                fetch_request = some (record { request_body = body });
              }))))
  ]

  reply_by-told : (count : ℕ) (c : Call) → reply_by (cross wire payer count c) ≡ told count c
  unfolding cross
  reply_by-told count (sign message) = refl
  reply_by-told count (get_latest_blockhash level) =
      reply_by-requested ((count + 1) % 2 ^ 64) (get_latest_blockhash level)
  reply_by-told count (get_block_height level) =
      reply_by-requested ((count + 1) % 2 ^ 64) (get_block_height level)
  reply_by-told count (send_transaction signatures message level) =
      reply_by-requested ((count + 1) % 2 ^ 64) (send_transaction signatures message level)
  reply_by-told count (get_signature_statuses asked) =
      reply_by-requested ((count + 1) % 2 ^ 64) (get_signature_statuses asked)
  reply_by-told count (get_account_info account level) =
      reply_by-requested ((count + 1) % 2 ^ 64) (get_account_info account level)
  reply_by-told count get_genesis_hash = reply_by-requested ((count + 1) % 2 ^ 64) get_genesis_hash

  abbrev crossed : World
  crossed past c = reply_by (cross wire payer (count_of past) c)

  crossed-world_of : ◌≡◌ {A = World} crossed world_of
  crossed-world_of = λ i past c. reply_by-told (count_of past) c i

  drive-finished :
      {T : Type 0} (n : ℕ) (out : T) → drive n host (parked (finished out)) ≡ parked (finished out)
  unfolding drive
  drive-finished zero out = refl
  drive-finished (suc n) out = refl

  drive-awaits :
      {T : Type 0} (n : ℕ) (req : HostCall) (k : HostReply → Life T)
      → drive (suc n) host (parked (awaits req k)) ≡ drive n host (parked (k (host req)))
  unfolding drive
  drive-awaits n req k = rw (drive, advance-parked req k (host req)) refl

  -- A call takes at most one reply.
  drive-cross_over :
      {T : Type 0} {c : Call} (x : Crossing c) (rest : Reply c → Life T) (out : Option T) (n m : ℕ)
      → ((left : ℕ) → n ≤ left → (drive left host (parked (rest (reply_by x)))).outcome ≡ out)
      → suc n ≤ m
      → (drive m host (parked (cross_over x rest))).outcome ≡ out
  drive-cross_over (at_once r) rest out n m h enough = h m (omega (arith, enough))
  drive-cross_over (crosses req f) rest out n zero h enough = absurd (omega (arith, enough))
  drive-cross_over (crosses req f) rest out n (suc m) h enough =
      ap Session.outcome (drive-awaits m req (λ r. rest (f r))) ∙ h m (omega (arith, enough))

  drive-run :
      {T : Type 0} (p : Proc T) (past : List Event) (n : ℕ)
      → length (run crossed past p).0 ≤ n
      → (drive n host (parked (through_host wire payer (count_of past) p))).outcome
        ≡ some (run crossed past p).1
  unfolding run through_host
  drive-run (done out) past n enough = ap Session.outcome (drive-finished n out)
  drive-run (ask c k) past n enough =
      let x = cross wire payer (count_of past) c in
      let after = (c, reply_by x) ∷ past in
      drive-cross_over x (λ r. through_host wire payer (next_count wire (count_of past) c) (k r))
        (some (run crossed after (k (reply_by x))).1)
        (length (run crossed after (k (reply_by x))).0) n
        (λ left enough. drive-run (k (reply_by x)) after left enough) enough

-- A session that is driven by a host, and whose context does not end, completes within as many replies as
-- its lifecycle makes calls, with the outcome that the lifecycle has when each call is answered by what the
-- host's reply says: a failure of the host, or an error of the node, or a result.
pub drive-outcome :
    (wire : Wire) (payer : Bytes) (host : Host) {T : Type 0} (p : Proc T) (n : ℕ)
    → length (run (world_of wire payer host) [] p).0 ≤ n
    → (drive n host (start (through_host wire payer 0 p))).outcome
      ≡ some (run (world_of wire payer host) [] p).1
drive-outcome wire payer host p n =
    subst
      (λ w.
        length (run w [] p).0 ≤ n
        → (drive n host (start (through_host wire payer 0 p))).outcome ≡ some (run w [] p).1)
      (crossed-world_of wire payer host)
      (λ enough.
        ap (λ s. (drive n host s).outcome) (start-parked (through_host wire payer 0 p))
        ∙ drive-run wire payer host p [] n enough)
