-- ===== src/Clock.antt =====
-- clock/clock.go and clock/timer.go, the manual clock: a time that moves when it is told, and timers
-- that fire when it does. A timer is shared, so it is a number into the cells of the clock. `time.Time`,
-- `time.Duration` and their arithmetic are the fields of a `Time`; the mutex is left out, since
-- each method holds it from its start to its end.
pub mod Armed
pub mod Due
pub mod Distinct
pub mod Pending
pub mod Fires
mod Runs
use flynn_extensions.Prelude.{
  ℕ, suc, Bool, true, false, not, ◌==◌, ◌&&◌, ◌||◌, if◌then◌else◌, Option, none, some, List, [],
  ◌∷◌, ◌++◌, length,
}

-- `t.Add(d)`, `t.After(u)`, `d <= 0` and `t.UTC()`.
pub record Time (T D : Type 0) : Type 0 where
  pub add : T → D → T
  pub after : T → T → Bool
  pub not_positive : D → Bool
  pub utc : T → T

-- `manualTimer`, with what its channel of one slot holds.
pub record Timer (T : Type 0) : Type 0 where
  pub deadline : T
  pub channel : Option T

-- `Manual`; the next timer is made at `fresh`.
pub record Manual (T : Type 0) : Type 0 where
  pub now : T
  pub timers : List ℕ
  pub cells : ℕ → Timer T
  pub fresh : ℕ

unfoldable pub update {ℓ} : {A : Type ℓ} → ℕ → A → (ℕ → A) → ℕ → A
update i a cells j = if j == i then a else cells j

-- A send that does not block: into a full channel it is dropped.
abbrev pub offer : {T : Type 0} → T → Option T → Option T
offer now none = some now
offer now (some old) = some old

abbrev pub deliver : {T : Type 0} → T → Timer T → Timer T
deliver now x = record x { channel = offer now x.channel }

unfoldable pub fire : {T : Type 0} → T → ℕ → (ℕ → Timer T) → ℕ → Timer T
fire now i cells = update i (deliver now (cells i)) cells

-- The loop of `removeLocked`, and whether it found the timer.
unfoldable pub among : ℕ → List ℕ → Bool
among i [] = false
among i (x ∷ xs) = i == x || among i xs

unfoldable pub remove : ℕ → List ℕ → List ℕ
remove i [] = []
remove i (x ∷ xs) = if i == x then xs else x ∷ remove i xs

module _ {T D : Type 0} (time : Time T D) where
  -- The loop of `fireDueLocked`: the timers that are kept, and the cells.
  unfoldable pub fire_due : T → List ℕ → (ℕ → Timer T) → List ℕ × (ℕ → Timer T)
  fire_due now [] cells = ([], cells)
  fire_due now (i ∷ is) cells = elim (time.after (cells i).deadline now) [
    | true ↦ (let rest = fire_due now is cells in (i ∷ rest.0, rest.1))
    | false ↦ fire_due now is (fire now i cells)
  ]

  -- `NewManual`; no timer has been made, and no cell is read before it has been.
  unfoldable pub new_manual : T → Manual T
  new_manual start = record {
    now = time.utc start;
    timers = [];
    cells = λ i. record { deadline = time.utc start; channel = none };
    fresh = 0;
  }

  unfoldable pub move_to : T → Manual T → Manual T
  move_to t m =
      let (kept, cells) = fire_due t m.timers m.cells in
      record m { now = t; timers = kept; cells = cells }

  unfoldable pub advance : D → Manual T → Manual T
  advance d m = move_to (time.add m.now d) m

  unfoldable pub set : T → Manual T → Manual T
  set t m = move_to (time.utc t) m

  abbrev pub pending_timers : Manual T → ℕ
  pending_timers m = length m.timers

  -- The end of `NewTimer` and of `Reset`: the timer gets its deadline, and fires or waits.
  unfoldable pub arm : ℕ → D → Option T → Manual T → Manual T
  arm i d held m =
      let cells = update i (record { deadline = time.add m.now d; channel = held }) m.cells in
      if time.not_positive d
      then record m { cells = fire m.now i cells }
      else record m { timers = m.timers ++ (i ∷ []); cells = cells }

  -- The new timer is the number `fresh` of the clock before.
  unfoldable pub new_timer : D → Manual T → Manual T
  new_timer d m = arm m.fresh d none (record m { fresh = suc m.fresh })

  -- `Stop`, with what it reports.
  unfoldable pub stop : ℕ → Manual T → Bool × Manual T
  stop i m = (among i m.timers, record m { timers = remove i m.timers })

  -- `Reset`: a value that was not received is drained.
  unfoldable pub reset : ℕ → D → Manual T → Bool × Manual T
  reset i d m = (among i m.timers, arm i d none (record m { timers = remove i m.timers }))

  -- A receive from the timer's channel, if it does not block.
  unfoldable pub receive : ℕ → Manual T → Option T × Manual T
  receive i m = (
    (m.cells i).channel,
    record m {
      cells = update i (record { deadline = (m.cells i).deadline; channel = none }) m.cells;
    },
  )
