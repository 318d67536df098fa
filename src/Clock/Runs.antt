-- ===== src/Clock/Runs.antt =====
-- Runs of the manual clock, on numbers of seconds.
use flynn_extensions.Prelude.{
  ℕ, ◌+◌, ◌≡◌, refl, ltb, ◌==◌, ◌&&◌, true, false, some, none, not, if◌then◌else◌, arith,
}
use flynn_extensions.Clock.{
  Time, Manual, new_manual, new_timer, advance, stop, reset, receive, pending_timers, move_to, arm,
  fire, fire_due, update, among, remove,
}
use flynn_extensions.Clock.Due.{filled, advance-fired}
use flynn_extensions.Clock.Armed.{IsForward, IsArmed}
use flynn_extensions.Clock.Pending.{Reach, begins, goes, advances, makes, Reach-IsArmed}
use flynn_extensions.Clock.Fires.{FiredNow, fires-FiredNow}

abbrev seconds : Time ℕ ℕ
seconds = record {
  add = λ t d. t + d;
  after = λ t u. ltb u t;
  not_positive = λ d. d == 0;
  utc = λ t. t;
}

seconds-IsForward : IsForward seconds
seconds-IsForward t d = ground arith

-- Two timers, of three and of five seconds.
abbrev started : Manual ℕ
started = new_timer seconds 5 (new_timer seconds 3 (new_manual seconds 10))

two_pending : pending_timers seconds started ≡ 2
unfolding new_timer new_manual arm
two_pending = refl

-- After four seconds the first has fired, and a second stop of the other reports nothing.
after_four :
    (pending_timers seconds (advance seconds 4 started) ≡ 1)
    × ((receive seconds 0 (advance seconds 4 started)).0 ≡ some 14)
    × ((stop seconds 1 (advance seconds 4 started)).0 ≡ true)
    × ((stop seconds 1 (stop seconds 1 (advance seconds 4 started)).1).0 ≡ false)
unfolding new_timer new_manual arm advance move_to fire_due fire update receive stop among remove
after_four = (refl, refl, refl, refl)

-- A reset from a channel that holds a value starts clean.
restarted : (receive seconds 0 (reset seconds 0 2 (advance seconds 4 started)).1).0 ≡ none
unfolding new_timer new_manual arm advance move_to fire_due fire update receive reset among remove
restarted = refl

started-Reach : Reach seconds 10 started
started-Reach = goes (goes begins (makes 3 _)) (makes 5 _)

Reach-IsArmed_example : IsArmed seconds started
Reach-IsArmed_example = Reach-IsArmed seconds 10 seconds-IsForward started-Reach

advance-fired_example :
    (let n = advance seconds 4 started in
      (n.now ≡ started.now + 4)
      × (n.cells 0 ≡ (
          if among 0 started.timers && not (ltb n.now (started.cells 0).deadline)
          then record {
            deadline = (started.cells 0).deadline;
            channel = some (filled n.now (started.cells 0).channel);
          }
          else started.cells 0))
      × (among 0 n.timers ≡ (among 0 started.timers && ltb n.now (started.cells 0).deadline)))
advance-fired_example = advance-fired seconds 4 started 0

started-empty : (started.cells 0).channel ≡ none
unfolding new_timer new_manual arm update
started-empty = refl

advanced-full : ((advance seconds 4 started).cells 0).channel ≡ some 14
unfolding new_timer new_manual arm advance move_to fire_due fire update
advanced-full = refl

fires-FiredNow_example : FiredNow seconds 0 14 (advance seconds 4 started)
fires-FiredNow_example =
    fires-FiredNow seconds 0 14 seconds-IsForward (advances 4 started) started-empty advanced-full
