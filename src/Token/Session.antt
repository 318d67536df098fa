-- ===== src/Token/Session.antt =====
-- token/session.go: a lifecycle that runs until it needs the host, hands out what it needs, and goes on
-- when it is answered. The goroutine is its remaining behaviour, a `Life`; it and its driver take turns
-- over the channels. No context ends here while the goroutine waits: neither by `Close` nor by the deadline
-- of a mint.
pub mod Always
pub mod Drive
pub mod Granted
pub mod Library
pub mod Parked
pub mod Signed
pub mod Minting
mod Runs
pub mod SignRuns
use flynn_extensions.Prelude.{ℕ, zero, suc, Option, none, some, List, [], ◌∷◌, Bytes}
use flynn_extensions.Prelude.Result.{Result, ok, err}
use flynn_extensions.Token.Atomic.{MintSpec}
use flynn_extensions.Token.Host.{
  HostCall, HostReply, Wire, Crossing, at_once, crosses, next_count, cross,
}
use flynn_extensions.Token.Ledger.{
  Call, Reply, finalized, get_account_info, Proc, done, ask, Event, World,
}
use flynn_extensions.Token.Mint.{Sdk, Wallet, MintResult, mint}
use flynn_extensions.Token.Network.{Network, Cluster, new_cluster, with_network}
use flynn_extensions.Token.Verify.{Programs, VerifyError, MintState, verify}

-- What a goroutine does from here: it sends its outcome, or a call of the host and waits for the reply.
pub data Life (T : Type 0) : Type 0 where
  finished : T → Life T
  awaits : HostCall → (HostReply → Life T) → Life T

-- `session`: the call that waits for its reply, the outcome, and the goroutine.
pub record Session (T : Type 0) : Type 0 where
  pub pending : Option HostCall
  pub outcome : Option T
  pub life : Life T

pub data SessionError : Type 0 where
  session_done session_advance : SessionError

module _ {T : Type 0} where
  -- `park`, on what the goroutine does next.
  abbrev pub park : Life T → Session T → Session T
  park (finished out) s = record s { outcome = some out; life = finished out }
  park (awaits req k) s = record s { pending = some req; life = awaits req k }

  -- A session parked at its first call.
  abbrev pub start : Life T → Session T
  start life = park life (record { pending = none; outcome = none; life = life })

  -- What the goroutine does with a reply.
  abbrev pub resume : HostReply → Life T → Life T
  resume r (finished out) = finished out
  resume r (awaits req k) = k r

  unfoldable pub advance_session : HostReply → Session T → Result SessionError (Session T)
  advance_session r s = elim s.outcome [
    | some out ↦ err session_done
    | none ↦ elim s.pending [
      | none ↦ err session_advance
      | some req ↦ ok (park (resume r s.life) (record s { pending = none }))
    ]
  ]

-- Where a call crosses, the goroutine waits.
abbrev pub cross_over : {T : Type 0} {c : Call} → Crossing c → (Reply c → Life T) → Life T
cross_over (at_once r) rest = rest r
cross_over (crosses req f) rest = awaits req (λ r. rest (f r))

-- A lifecycle over the host transport, from a count of the requests on.
module _ (wire : Wire) (payer : Bytes) where
  unfoldable pub through_host : {T : Type 0} → ℕ → Proc T → Life T
  through_host count (done out) = finished out
  through_host count (ask c k) =
      cross_over (cross wire payer count c) (λ r. through_host (next_count wire count c) (k r))

-- `MintOption`: the clock changes only how long a poll waits.
pub data MintOption : Type 0 where
  with_clock : MintOption
  on_network : Network → MintOption

abbrev pub configure : List MintOption → Cluster → Cluster
configure [] e = e
configure (with_clock ∷ opts) e = configure opts e
configure (on_network n ∷ opts) e = configure opts (with_network n e)

abbrev pub start_mint :
    {Ix : Type 0}
    → Wire
    → Sdk Ix
    → Bytes
    → Wallet
    → ℕ
    → MintSpec
    → List MintOption
    → Session MintResult
start_mint wire sdk payer wallet polls spec opts =
    start
      (through_host wire payer 0 (mint sdk payer wallet polls spec (configure opts new_cluster)))

-- `Verify`, as calls; its engine has no payer.
abbrev pub verify_mint : Programs → Bytes → Proc (Result VerifyError MintState)
verify_mint programs key =
    ask (get_account_info key finalized) (λ info. done (verify programs key info))

abbrev pub start_verify : Wire → Programs → Bytes → Session (Result VerifyError MintState)
start_verify wire programs key = start (through_host wire [] 0 (verify_mint programs key))
