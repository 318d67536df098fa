-- ===== src/Clock/Pending.antt =====
-- clock/clock.go and clock/timer.go: the states that a manual clock can be in.
use flynn_extensions.Prelude.{
  ℕ, suc, ◌<◌, ◌≡◌, refl, ap, ◌∙◌, inl, inr, ◌==◌, Bool-cases, none, arith,
}
use flynn_extensions.Clock.{
  Time, Timer, Manual, remove, new_manual, advance, set, new_timer, stop, reset, receive,
}
use flynn_extensions.Clock.Armed.{
  IsForward, IsArmed, move_to-IsArmed, cells-IsArmed, arm-IsArmed, remove-IsArmed, remove-idle,
  known-idle, new_manual-IsArmed,
}
use flynn_extensions.Clock.Due.{update_self, update_other, same_number}

module _ {T D : Type 0} (time : Time T D) where
  -- A call of one of the methods, of the clock or of a timer that it made.
  pub data Step : Manual T → Manual T → Type 0 where
    advances : (d : D) (m : Manual T) → Step m (advance time d m)
    sets : (t : T) (m : Manual T) → Step m (set time t m)
    makes : (d : D) (m : Manual T) → Step m (new_timer time d m)
    stops : (i : ℕ) (m : Manual T) → i < m.fresh → Step m (stop time i m).1
    resets : (i : ℕ) (d : D) (m : Manual T) → i < m.fresh → Step m (reset time i d m).1
    receives : (i : ℕ) (m : Manual T) → i < m.fresh → Step m (receive time i m).1

  pub data Reach (start : T) : Manual T → Type 0 where
    begins : Reach start (new_manual time start)
    goes : {m n : Manual T} → Reach start m → Step m n → Reach start n

  Step-IsArmed : {m n : Manual T} → IsForward time → Step m n → IsArmed time m → IsArmed time n
  unfolding advance set new_timer stop reset receive
  Step-IsArmed forward (advances d m) a = move_to-IsArmed time _ m a
  Step-IsArmed forward (sets t m) a = move_to-IsArmed time _ m a
  Step-IsArmed forward (makes d m) a =
      arm-IsArmed time m.fresh d (record m { fresh = suc m.fresh }) forward (omega arith)
        (known-idle time m a)
        (record {
          distinct = a.distinct;
          known = λ j h. omega (arith, a.known j h);
          ahead = a.ahead;
          silent = a.silent;
        })
  Step-IsArmed forward (stops i m made) a = remove-IsArmed time i m a
  Step-IsArmed forward (resets i d m made) a =
      arm-IsArmed time i d (record m { timers = remove i m.timers }) forward made
        (remove-idle time i m a) (remove-IsArmed time i m a)
  Step-IsArmed forward (receives i m made) a =
      cells-IsArmed time m _
        (λ j h. elim (Bool-cases (j == i)) [
          | inl same ↦
              (let e : j ≡ i = same_number j i same in
                let emptied =
                  update_self i (record { deadline = (m.cells i).deadline; channel = none })
                    m.cells in
                (rw (e, emptied) refl, rw (e, emptied) refl))
          | inr other ↦
              (let same = update_other i j _ m.cells other in
                (ap Timer.deadline same, ap Timer.channel same ∙ a.silent j h))
        ])
        a

-- In every state that the methods reach from a new clock, no timer is pending twice, and each pending
-- timer has its deadline ahead of the clock and nothing in its channel; a duration goes forward exactly
-- when it is positive.
pub Reach-IsArmed :
    {T D : Type 0} (time : Time T D) (start : T) {m : Manual T}
    → IsForward time
    → Reach time start m
    → IsArmed time m
Reach-IsArmed time start forward begins = new_manual-IsArmed time start
Reach-IsArmed time start forward (goes r s) =
    Step-IsArmed time forward s (Reach-IsArmed time start forward r)
