-- ===== src/Clock/Armed.antt =====
-- clock/clock.go and clock/timer.go: what each method makes of the pending timers.
use flynn_extensions.Prelude.{
  ℕ, ◌<◌, ◌≡◌, refl, sym, ap, ◌∙◌, ◌⊎◌, inl, inr, Bool, true, false, not, ◌==◌, ◌&&◌, ◌||◌,
  Bool-cases, none, List, [], ◌∷◌, ◌++◌, arith,
}
use flynn_extensions.Clock.{
  Time, Timer, Manual, update, fire, among, remove, new_manual, move_to, arm,
}
use flynn_extensions.Clock.Due.{
  update_self, update_other, fire_due-cells, fire_due-kept, same_number,
}
use flynn_extensions.Clock.Distinct.{
  Distinct, among-append, Distinct-append, among-remove, Distinct-remove, fire_due-Distinct,
}

module _ {T D : Type 0} (time : Time T D) where
  -- Adding a duration goes forward exactly when it is positive.
  abbrev pub IsForward : Type 0
  IsForward = (t : T) (d : D) → time.after (time.add t d) t ≡ not (time.not_positive d)

  -- No timer is pending twice; a pending one has been made, its deadline is ahead, its channel empty.
  pub record IsArmed (m : Manual T) : Type 0 where
    pub distinct : Distinct m.timers
    pub known : (j : ℕ) → among j m.timers ≡ true → j < m.fresh
    pub ahead : (j : ℕ) → among j m.timers ≡ true → time.after (m.cells j).deadline m.now ≡ true
    pub silent : (j : ℕ) → among j m.timers ≡ true → (m.cells j).channel ≡ none

  both : (a b : Bool) → (a && b) ≡ true → (a ≡ true) × (b ≡ true)
  both true b h = (refl, h)
  both false b h = cc

  -- A timer that a move of the clock keeps was pending, and is not touched.
  kept :
      (t : T) (m : Manual T) (j : ℕ)
      → among j (move_to time t m).timers ≡ true
      → (among j m.timers ≡ true)
        × (time.after (m.cells j).deadline t ≡ true)
        × ((move_to time t m).cells j ≡ m.cells j)
  unfolding move_to
  kept t m j h =
      let (was, later) =
        both (among j m.timers) _ (sym (fire_due-kept time t m.timers m.cells j) ∙ h) in
      (was, later, fire_due-cells time t m.timers m.cells j ∙ rw (was, later) refl)

  pub move_to-IsArmed : (t : T) (m : Manual T) → IsArmed m → IsArmed (move_to time t m)
  unfolding move_to
  move_to-IsArmed t m a = record {
    distinct = fire_due-Distinct time t m.timers m.cells a.distinct;
    known = λ j h. a.known j (kept t m j h).0;
    ahead = λ j h. (let (was, later, same) = kept t m j h in rw (move_to, same) later);
    silent = λ j h. (let (was, later, same) = kept t m j h in rw (move_to, same) (a.silent j was));
  }

  -- Cells may change where no timer is pending, and a channel may be emptied.
  pub cells-IsArmed :
      (m : Manual T) (cells : ℕ → Timer T)
      → ((j : ℕ)
          → among j m.timers ≡ true
          → ((cells j).deadline ≡ (m.cells j).deadline) × ((cells j).channel ≡ none))
      → IsArmed m
      → IsArmed (record m { cells = cells })
  cells-IsArmed m cells agree a = record {
    distinct = a.distinct;
    known = a.known;
    ahead = λ j h. rw (agree j h).0 (a.ahead j h);
    silent = λ j h. (agree j h).1;
  }

  pending_other :
      (i j : ℕ) (timers : List ℕ)
      → among i timers ≡ false
      → among j timers ≡ true
      → (j == i) ≡ false
  pending_other i j timers idle h = elim (Bool-cases (j == i)) [
    | inl same ↦ (let e : j ≡ i = same_number j i same in let now = rw e at h in cc)
    | inr other ↦ other
  ]

  abbrev fresh_cell : D → Manual T → Timer T
  fresh_cell d m = record { deadline = time.add m.now d; channel = none }

  either_of : (a b : Bool) → (a || b) ≡ true → b ≡ false → a ≡ true
  either_of true b h n = refl
  either_of false b h n = cc

  wait-IsArmed :
      (i : ℕ) (d : D) (m : Manual T)
      → time.after (time.add m.now d) m.now ≡ true
      → i < m.fresh
      → among i m.timers ≡ false
      → IsArmed m
      → IsArmed
          (record m { timers = m.timers ++ (i ∷ []); cells = update i (fresh_cell d m) m.cells })
  wait-IsArmed i d m later made idle a =
      let cells = update i (fresh_cell d m) m.cells in
      let split : (j : ℕ)
          → among j (m.timers ++ (i ∷ [])) ≡ true
          → (j ≡ i) ⊎ ((among j m.timers ≡ true) × (cells j ≡ m.cells j)) =
        λ j h. elim (Bool-cases (j == i)) [
          | inl same ↦ inl (same_number j i same)
          | inr other ↦ inr (
            either_of _ _ (sym (among-append j i m.timers) ∙ h) other,
            update_other i j (fresh_cell d m) m.cells other,
          )
        ] in
      record {
        distinct = Distinct-append i m.timers idle a.distinct;
        known = λ j h. elim (split j h) [ inl e ↦ rw e made | inr (was, same) ↦ a.known j was ];
        ahead = λ j h. elim (split j h) [
          | inl e ↦ rw (e, update_self i (fresh_cell d m) m.cells) later
          | inr (was, same) ↦ rw same (a.ahead j was)
        ];
        silent = λ j h. elim (split j h) [
          | inl e ↦ rw (e, update_self i (fresh_cell d m) m.cells) refl
          | inr (was, same) ↦ rw same (a.silent j was)
        ];
      }

  -- A timer that is not pending is armed.
  pub arm-IsArmed :
      (i : ℕ) (d : D) (m : Manual T)
      → IsForward
      → i < m.fresh
      → among i m.timers ≡ false
      → IsArmed m
      → IsArmed (arm time i d none m)
  unfolding arm fire
  arm-IsArmed i d m forward made idle a = elim (Bool-cases (time.not_positive d)) [
    | inl now ↦ rw now (
        cells-IsArmed m _
          (λ j h.
            let other = pending_other i j m.timers idle h in
            let same =
              update_other i j _ (update i (fresh_cell d m) m.cells) other
              ∙ update_other i j (fresh_cell d m) m.cells other in
            (ap Timer.deadline same, ap Timer.channel same ∙ a.silent j h))
          a)
    | inr later ↦ rw later (wait-IsArmed i d m (forward m.now d ∙ rw later refl) made idle a)
  ]

  removed :
      (i j : ℕ) (m : Manual T)
      → IsArmed m
      → among j (remove i m.timers) ≡ true
      → (among j m.timers ≡ true) × (not (j == i) ≡ true)
  removed i j m a h = both (among j m.timers) _ (sym (among-remove j i m.timers a.distinct) ∙ h)

  pub remove-IsArmed :
      (i : ℕ) (m : Manual T) → IsArmed m → IsArmed (record m { timers = remove i m.timers })
  remove-IsArmed i m a = record {
    distinct = Distinct-remove i m.timers a.distinct;
    known = λ j h. a.known j (removed i j m a h).0;
    ahead = λ j h. a.ahead j (removed i j m a h).0;
    silent = λ j h. a.silent j (removed i j m a h).0;
  }

  pub remove-idle : (i : ℕ) (m : Manual T) → IsArmed m → among i (remove i m.timers) ≡ false
  remove-idle i m a = elim (Bool-cases (among i (remove i m.timers))) [
    | inl h ↦ absurd (ground (arith, (removed i i m a h).1))
    | inr h ↦ h
  ]

  pub known-idle : (m : Manual T) → IsArmed m → among m.fresh m.timers ≡ false
  known-idle m a = elim (Bool-cases (among m.fresh m.timers)) [
    | inl h ↦ absurd (omega (arith, a.known m.fresh h))
    | inr h ↦ h
  ]

  pub new_manual-IsArmed : (start : T) → IsArmed (new_manual time start)
  unfolding new_manual among
  new_manual-IsArmed start = record {
    distinct = tt;
    known = λ j h. cc;
    ahead = λ j h. cc;
    silent = λ j h. refl;
  }
