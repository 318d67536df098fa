-- ===== src/Clock/Due.antt =====
-- clock/timer.go, `fireDueLocked`: which timers fire, and which are kept.
use flynn_extensions.Prelude.{
  ℕ, ◌≡◌, refl, sym, ap, ◌∙◌, inl, inr, Bool, true, false, not, ◌==◌, ==_iff, ◌&&◌, if◌then◌else◌,
  Bool-cases, Option-cases, Option, none, some, List, [], ◌∷◌, arith,
}
use flynn_extensions.Clock.{
  Time, Timer, Manual, update, offer, deliver, fire, among, fire_due, move_to, advance,
}

pub update_self {ℓ} : {A : Type ℓ} (i : ℕ) (a : A) (cells : ℕ → A) → update i a cells i ≡ a
unfolding update
update_self i a cells = (let same : (i == i) ≡ true = ground arith in rw same refl)

pub update_other {ℓ} :
    {A : Type ℓ} (i j : ℕ) (a : A) (cells : ℕ → A) → (j == i) ≡ false → update i a cells j ≡ cells j
unfolding update
update_other i j a cells other = rw other refl

pub same_number : (i j : ℕ) → (i == j) ≡ true → i ≡ j
same_number i j h = (==_iff i j).0 h

false_and : (b : Bool) → (b && false) ≡ false
false_and true = refl
false_and false = refl

offer-offer : {T : Type 0} (now : T) (held : Option T) → offer now (offer now held) ≡ offer now held
offer-offer now none = refl
offer-offer now (some v) = refl

deliver-deliver : {T : Type 0} (now : T) (x : Timer T) → deliver now (deliver now x) ≡ deliver now x
deliver-deliver now x =
    ap (λ c. record { deadline = x.deadline; channel = c }) (offer-offer now x.channel)

pub among-head : (j i : ℕ) (is : List ℕ) → (j == i) ≡ true → among j (i ∷ is) ≡ true
unfolding among
among-head j i is same = rw same refl

pub among-tail : (j i : ℕ) (is : List ℕ) → (j == i) ≡ false → among j (i ∷ is) ≡ among j is
unfolding among
among-tail j i is other = rw other refl

module _ {T D : Type 0} (time : Time T D) (now : T) where
  -- The deadline has come.
  abbrev pub is_due : Timer T → Bool
  is_due x = not (time.after x.deadline now)

  -- What becomes of a timer that is pending or not: it fires if it is pending and due.
  abbrev pub fired : Bool → Timer T → Timer T
  fired pending x = if pending && is_due x then deliver now x else x

  fired-due : (x : Timer T) → time.after x.deadline now ≡ false → fired true x ≡ deliver now x
  fired-due x come = rw come refl

  fired-later : (b : Bool) (x : Timer T) → time.after x.deadline now ≡ true → fired b x ≡ x
  fired-later true x later = rw later refl
  fired-later false x later = refl

  fired-deliver : (b : Bool) (x : Timer T) → fired b (deliver now x) ≡ deliver now x
  fired-deliver false x = refl
  fired-deliver true x = elim (Bool-cases (time.after x.deadline now)) [
    | inl later ↦ fired-later true (deliver now x) later
    | inr come ↦ fired-due (deliver now x) come ∙ deliver-deliver now x
  ]

  fire_self :
      (i j : ℕ) (cells : ℕ → Timer T) → (j == i) ≡ true → fire now i cells j ≡ deliver now (cells j)
  unfolding fire
  fire_self i j cells same =
      (let e : j ≡ i = same_number j i same in rw e (update_self i (deliver now (cells i)) cells))

  fire_other : (i j : ℕ) (cells : ℕ → Timer T) → (j == i) ≡ false → fire now i cells j ≡ cells j
  unfolding fire
  fire_other i j cells other = update_other i j (deliver now (cells i)) cells other

  at_same :
      (i j : ℕ) (cells : ℕ → Timer T) (b : Bool)
      → (j == i) ≡ true
      → time.after (cells i).deadline now ≡ b
      → time.after (cells j).deadline now ≡ b
  at_same i j cells b same h = (let e : j ≡ i = same_number j i same in rw e h)

  -- Every timer in the list fires if it is due, and all others stay as they are.
  pub fire_due-cells :
      (is : List ℕ) (cells : ℕ → Timer T) (j : ℕ)
      → (fire_due time now is cells).1 j ≡ fired (among j is) (cells j)
  unfolding fire_due among
  fire_due-cells [] cells j = refl
  fire_due-cells (i ∷ is) cells j = elim (Bool-cases (time.after (cells i).deadline now)) [
    | inl later ↦
        rw (fire_due, later)
          (elim (Bool-cases (j == i)) [
            | inl same ↦
                let kept = at_same i j cells true same later in
                fire_due-cells is cells j
                ∙ fired-later (among j is) (cells j) kept
                ∙ sym (fired-later (among j (i ∷ is)) (cells j) kept)
            | inr other ↦
                fire_due-cells is cells j
                ∙ ap (λ b. fired b (cells j)) (sym (among-tail j i is other))
          ])
    | inr come ↦
        rw (fire_due, come)
          (elim (Bool-cases (j == i)) [
            | inl same ↦
                fire_due-cells is (fire now i cells) j
                ∙ ap (fired (among j is)) (fire_self i j cells same)
                ∙ fired-deliver (among j is) (cells j)
                ∙ sym (fired-due (cells j) (at_same i j cells false same come))
                ∙ ap (λ b. fired b (cells j)) (sym (among-head j i is same))
            | inr other ↦
                fire_due-cells is (fire now i cells) j
                ∙ ap (fired (among j is)) (fire_other i j cells other)
                ∙ ap (λ b. fired b (cells j)) (sym (among-tail j i is other))
          ])
  ]

  fire-deadline :
      (i j : ℕ) (cells : ℕ → Timer T) → (fire now i cells j).deadline ≡ (cells j).deadline
  fire-deadline i j cells = elim (Bool-cases (j == i)) [
    | inl same ↦ ap Timer.deadline (fire_self i j cells same)
    | inr other ↦ ap Timer.deadline (fire_other i j cells other)
  ]

  -- The kept timers are those in the list that are not due.
  pub fire_due-kept :
      (is : List ℕ) (cells : ℕ → Timer T) (j : ℕ)
      → among j (fire_due time now is cells).0 ≡ (among j is && time.after (cells j).deadline now)
  unfolding fire_due among
  fire_due-kept [] cells j = refl
  fire_due-kept (i ∷ is) cells j = elim (Bool-cases (time.after (cells i).deadline now)) [
    | inl later ↦
        rw (fire_due, later)
          (elim (Bool-cases (j == i)) [
            | inl same ↦ rw (same, at_same i j cells true same later) refl
            | inr other ↦ rw other (fire_due-kept is cells j)
          ])
    | inr come ↦
        rw (fire_due, come)
          (elim (Bool-cases (j == i)) [
            | inl same ↦
                fire_due-kept is (fire now i cells) j
                ∙ rw (same, fire-deadline i j cells, at_same i j cells false same come)
                    (false_and (among j is))
            | inr other ↦
                fire_due-kept is (fire now i cells) j ∙ rw (other, fire-deadline i j cells) refl
          ])
  ]

-- A channel of one slot after a send that does not block.
abbrev pub filled : {T : Type 0} → T → Option T → T
filled now none = now
filled now (some old) = old

deliver-filled :
    {T : Type 0} (now : T) (x : Timer T)
    → deliver now x ≡ record { deadline = x.deadline; channel = some (filled now x.channel) }
deliver-filled now x = elim (Option-cases x.channel) [
  | inl empty ↦ rw empty refl
  | inr (old, full) ↦ rw full refl
]

-- When the clock advances, each timer that is pending and whose deadline is not after the new time has
-- this time in its channel, or what was in the channel already, and is pending no longer; every other
-- timer keeps its deadline and its channel, and is pending if it was.
pub advance-fired :
    {T D : Type 0} (time : Time T D) (d : D) (m : Manual T) (j : ℕ)
    → (let n = advance time d m in
        (n.now ≡ time.add m.now d)
        × (n.cells j ≡ (
            if among j m.timers && not (time.after (m.cells j).deadline n.now)
            then record {
              deadline = (m.cells j).deadline;
              channel = some (filled n.now (m.cells j).channel);
            }
            else m.cells j))
        × (among j n.timers ≡ (among j m.timers && time.after (m.cells j).deadline n.now)))
unfolding advance move_to
advance-fired time d m j = (
  refl,
  fire_due-cells time (time.add m.now d) m.timers m.cells j
      ∙ ap
          (λ x.
            if among j m.timers && not (time.after (m.cells j).deadline (time.add m.now d))
            then x
            else m.cells j)
          (deliver-filled (time.add m.now d) (m.cells j)),
  fire_due-kept time (time.add m.now d) m.timers m.cells j,
)
