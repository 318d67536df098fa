-- ===== src/Clock/Distinct.antt =====
-- Lists of timers in which none occurs twice, for clock/timer.go.
use flynn_extensions.Prelude.{
  ℕ, ◌≡◌, refl, ◌∙◌, inl, inr, Bool, true, false, not, ◌==◌, ◌&&◌, ◌||◌, Bool-cases, List, [], ◌∷◌,
  ◌++◌, arith,
}
use flynn_extensions.Clock.{Time, Timer, fire, among, remove, fire_due}
use flynn_extensions.Clock.Due.{same_number, fire_due-kept}

abbrev pub Distinct : List ℕ → Type 0
Distinct [] = Unit
Distinct (x ∷ xs) = (among x xs ≡ false) × Distinct xs

pub among-append : (j i : ℕ) (xs : List ℕ) → among j (xs ++ (i ∷ [])) ≡ (among j xs || (j == i))
unfolding among
among-append j i [] = elim (Bool-cases (j == i)) [
  | inl same ↦ rw same refl
  | inr other ↦ rw other refl
]
among-append j i (x ∷ xs) = elim (Bool-cases (j == x)) [
  | inl same ↦ rw same refl
  | inr other ↦ rw other (among-append j i xs)
]

flip_same : (i j : ℕ) → (i == j) ≡ false → (j == i) ≡ false
flip_same i j h = ground arith

pub Distinct-append :
    (i : ℕ) (xs : List ℕ) → among i xs ≡ false → Distinct xs → Distinct (xs ++ (i ∷ []))
unfolding among
Distinct-append i [] h d = (refl, tt)
Distinct-append i (x ∷ xs) h d = elim (Bool-cases (i == x)) [
  | inl same ↦ (let now = rw same at h in cc)
  | inr other ↦
      let apart = rw other at h in
      (among-append x i xs ∙ rw (d.0, flip_same i x other) refl, Distinct-append i xs apart d.1)
]

and_true : (b : Bool) → b ≡ (b && true)
and_true true = refl
and_true false = refl

among-front :
    (j x : ℕ) (xs : List ℕ) → among x xs ≡ false → among j xs ≡ (among j (x ∷ xs) && not (j == x))
unfolding among
among-front j x xs h = elim (Bool-cases (j == x)) [
  | inl same ↦ (let e : j ≡ x = same_number j x same in rw same (rw e h))
  | inr other ↦ rw other (and_true (among j xs))
]

-- Where none occurs twice, the removal takes just this one.
pub among-remove :
    (j i : ℕ) (xs : List ℕ) → Distinct xs → among j (remove i xs) ≡ (among j xs && not (j == i))
unfolding among remove
among-remove j i [] d = refl
among-remove j i (x ∷ xs) d = elim (Bool-cases (i == x)) [
  | inl found ↦ (let e : i ≡ x = same_number i x found in rw (found, e) (among-front j x xs d.0))
  | inr other ↦ rw other (elim (Bool-cases (j == x)) [
    | inl same ↦
        (let apart : (j == i) ≡ false = ground (arith, same, other) in rw (same, apart) refl)
    | inr differ ↦ rw differ (among-remove j i xs d.1)
  ])
]

pub Distinct-remove : (i : ℕ) (xs : List ℕ) → Distinct xs → Distinct (remove i xs)
unfolding remove
Distinct-remove i [] d = tt
Distinct-remove i (x ∷ xs) d = elim (Bool-cases (i == x)) [
  | inl found ↦ rw found d.1
  | inr other ↦ rw other (among-remove x i xs d.1 ∙ rw d.0 refl, Distinct-remove i xs d.1)
]

pub fire_due-Distinct :
    {T D : Type 0} (time : Time T D) (now : T) (is : List ℕ) (cells : ℕ → Timer T)
    → Distinct is
    → Distinct (fire_due time now is cells).0
unfolding fire_due
fire_due-Distinct time now [] cells d = tt
fire_due-Distinct time now (i ∷ is) cells d =
    elim (Bool-cases (time.after (cells i).deadline now)) [
      | inl later ↦
          rw (fire_due, later)
            (
              fire_due-kept time now is cells i ∙ rw d.0 refl,
              fire_due-Distinct time now is cells d.1,
            )
      | inr come ↦ rw (fire_due, come) (fire_due-Distinct time now is (fire now i cells) d.1)
    ]
