-- ===== src/Clock/Fires.antt =====
-- clock/timer.go: when a timer fires.
use flynn_extensions.Prelude.{
  ℕ, suc, ◌≡◌, refl, sym, ap, ◌∙◌, inl, inr, false, ◌==◌, Bool-cases, Option, none, some, List, [],
  ◌∷◌,
}
use flynn_extensions.Clock.{
  Time, Timer, Manual, update, deliver, fire, among, remove, move_to, advance, set, arm, new_timer,
  stop, reset, receive,
}
use flynn_extensions.Clock.Due.{
  update_self, update_other, fired, fire_due-cells, fire_due-kept, same_number,
}
use flynn_extensions.Clock.Armed.{IsForward, IsArmed, remove-idle}
use flynn_extensions.Clock.Pending.{Step, advances, sets, makes, stops, resets, receives}

module _ {T D : Type 0} (time : Time T D) where
  -- The timer holds the time of the clock, which its deadline is not after.
  abbrev pub FiredNow : ℕ → T → Manual T → Type 0
  FiredNow j v n = (v ≡ n.now) × (time.after (n.cells j).deadline v ≡ false)

  move_to-FiredNow :
      (t : T) (m : Manual T) (j : ℕ) (v : T)
      → (m.cells j).channel ≡ none
      → ((move_to time t m).cells j).channel ≡ some v
      → FiredNow j v (move_to time t m)
  unfolding move_to
  move_to-FiredNow t m j v empty full =
      let cell = fire_due-cells time t m.timers m.cells j in
      let held : (fired time t (among j m.timers) (m.cells j)).channel ≡ some v =
        sym (ap Timer.channel cell) ∙ full in
      elim (Bool-cases (among j m.timers)) [
        | inr idle ↦ (let now = rw (idle, empty) at held in cc)
        | inl pending ↦ elim (Bool-cases (time.after (m.cells j).deadline t)) [
          | inl later ↦ (let now = rw (pending, later, empty) at held in cc)
          | inr come ↦
              let now : some t ≡ some v = rw (pending, come, empty) at held in
              let same : v ≡ t = cc in (same, rw (cell, pending, come, same) come)
        ]
      ]

  abbrev reset_cell : T → Timer T
  reset_cell t = record { deadline = t; channel = none }

  -- A cell that was just made or drained, and the others, hold nothing new.
  update-silent :
      (i j : ℕ) (t : T) (m : Manual T)
      → (m.cells j).channel ≡ none
      → (update i (reset_cell t) m.cells j).channel ≡ none
  update-silent i j t m empty = elim (Bool-cases (j == i)) [
    | inl same ↦
        (let e : j ≡ i = same_number j i same in rw (e, update_self i (reset_cell t) m.cells) refl)
    | inr other ↦ rw (update_other i j (reset_cell t) m.cells other) empty
  ]

  none-some : (o : Option T) (v : T) → o ≡ none → o ≡ some v → ⊥
  none-some o v h k = cc

  arm-FiredNow :
      (i : ℕ) (d : D) (m : Manual T) (j : ℕ) (v : T)
      → IsForward time
      → (m.cells j).channel ≡ none
      → ((arm time i d none m).cells j).channel ≡ some v
      → FiredNow j v (arm time i d none m)
  unfolding arm fire
  arm-FiredNow i d m j v forward empty full =
      let cell = reset_cell (time.add m.now d) in
      let cells = update i cell m.cells in
      let silent = update-silent i j (time.add m.now d) m empty in
      elim (Bool-cases (time.not_positive d)) [
        | inr later ↦ absurd (none-some _ v silent (rw (arm, later) at full))
        | inl past ↦
            let held : (update i (deliver m.now (cells i)) cells j).channel ≡ some v =
              rw (arm, past) at full in
            elim (Bool-cases (j == i)) [
              | inr other ↦
                  let same = update_other i j (deliver m.now (cells i)) cells other in
                  absurd (none-some _ v silent (sym (ap Timer.channel same) ∙ held))
              | inl same ↦
                  let e : j ≡ i = same_number j i same in
                  let final : update i (deliver m.now (cells i)) cells j ≡ deliver m.now cell =
                    rw e (update_self i (deliver m.now (cells i)) cells)
                    ∙ ap (deliver m.now) (update_self i cell m.cells) in
                  let filled : some m.now ≡ some v = sym (ap Timer.channel final) ∙ held in
                  let at_once : v ≡ m.now = cc in
                  (
                    rw (arm, past) at_once,
                    rw (arm, past, final, at_once) (forward m.now d ∙ rw past refl),
                  )
            ]
      ]

  Step-FiredNow :
      {m n : Manual T} (j : ℕ) (v : T)
      → IsForward time
      → Step time m n
      → (m.cells j).channel ≡ none
      → (n.cells j).channel ≡ some v
      → FiredNow j v n
  unfolding advance set new_timer stop reset receive
  Step-FiredNow j v forward (advances d m) empty full = move_to-FiredNow _ m j v empty full
  Step-FiredNow j v forward (sets t m) empty full = move_to-FiredNow _ m j v empty full
  Step-FiredNow j v forward (makes d m) empty full =
      arm-FiredNow m.fresh d (record m { fresh = suc m.fresh }) j v forward empty full
  Step-FiredNow j v forward (stops i m made) empty full = cc
  Step-FiredNow j v forward (resets i d m made) empty full =
      arm-FiredNow i d (record m { timers = remove i m.timers }) j v forward empty full
  Step-FiredNow j v forward (receives i m made) empty full = elim (Bool-cases (j == i)) [
    | inl same ↦
        (let e : j ≡ i = same_number j i same in
          let now =
            rw
              (
                e,
                update_self i (record { deadline = (m.cells i).deadline; channel = none }) m.cells,
              )
              at full in
          cc)
    | inr other ↦
        (let now =
            rw
              (update_other i j (record { deadline = (m.cells i).deadline; channel = none }) m.cells
                other)
              at full in
          cc)
  ]

  -- A timer that is not pending is left alone by every move of the clock.
  move_to-idle :
      (t : T) (m : Manual T) (i : ℕ)
      → among i m.timers ≡ false
      → ((move_to time t m).cells i ≡ m.cells i) × (among i (move_to time t m).timers ≡ false)
  unfolding move_to
  move_to-idle t m i idle = (
    fire_due-cells time t m.timers m.cells i ∙ rw idle refl,
    fire_due-kept time t m.timers m.cells i ∙ rw idle refl,
  )

  -- The clock moves to each of these times.
  abbrev pub moves : List T → Manual T → Manual T
  moves [] m = m
  moves (t ∷ ts) m = moves ts (set time t m)

  moves-idle :
      (ts : List T) (m : Manual T) (i : ℕ)
      → among i m.timers ≡ false
      → (moves ts m).cells i ≡ m.cells i
  unfolding set
  moves-idle [] m i idle = refl
  moves-idle (t ∷ ts) m i idle =
      let (same, still) = move_to-idle (time.utc t) m i idle in
      moves-idle ts (set time t m) i still ∙ same

-- A timer fires in a call of a method only with the time that the clock then shows, and only when its
-- deadline is not after this time; a duration goes forward exactly when it is positive.
pub fires-FiredNow :
    {T D : Type 0} (time : Time T D) {m n : Manual T} (j : ℕ) (v : T)
    → IsForward time
    → Step time m n
    → (m.cells j).channel ≡ none
    → (n.cells j).channel ≡ some v
    → FiredNow time j v n
fires-FiredNow time j v = Step-FiredNow time j v

-- In a state where no timer is pending twice, `Stop` reports whether the timer was pending, and from
-- then on no move of the clock fires it or changes what its channel holds.
pub stop-moves :
    {T D : Type 0} (time : Time T D) (i : ℕ) (m : Manual T) (ts : List T)
    → IsArmed time m
    → ((stop time i m).0 ≡ among i m.timers)
      × ((moves time ts (stop time i m).1).cells i ≡ m.cells i)
unfolding stop
stop-moves time i m ts a =
    (refl, moves-idle time ts (record m { timers = remove i m.timers }) i (remove-idle time i m a))
