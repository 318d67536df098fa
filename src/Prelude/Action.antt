-- ===== src/Prelude/Action.antt =====
-- Fallible code that changes the world outside of the program.
use mathlib.Core.Path.{◌≡◌, refl}
use flynn_extensions.Prelude.Result.{Result, ok, err}

abbrev pub Action {ℓ κ ρ} : Type ℓ → Type κ → Type ρ → Type (ℓ ⊔ κ ⊔ ρ)
Action W E A = W → Result E A × W

module _ {ℓ κ ρ σ} {W : Type ℓ} {E : Type κ} {A : Type ρ} {B : Type σ} where
  infixl 5 ◌>>=◌ ◌>>◌
  abbrev pub after : Result E A × W → (A → Action W E B) → Result E B × W
  after (ok a, w) f = f a w
  after (err e, w) f = (err e, w)

  abbrev pub ◌>>=◌ : Action W E A → (A → Action W E B) → Action W E B
  (m >>= f) w = after (m w) f

  abbrev pub ◌>>◌ : Action W E A → Action W E B → Action W E B
  (m >> k) w = after (m w) (λ _. k)

-- Code that leaves the world alone.
abbrev pub lift {ℓ κ ρ} : {W : Type ℓ} {E : Type κ} {A : Type ρ} → Result E A → Action W E A
lift r w = (r, w)

pub lift-eq-ok {ℓ κ ρ σ} :
    {W : Type ℓ} {E : Type κ} {A : Type ρ} {B : Type σ} (r : Result E A) (w : W)
    (f : A → Action W E B) {b : B} {w' : W}
    → after (lift r w) f ≡ (ok b, w')
    → (a : A) × (r ≡ ok a) × (f a w ≡ (ok b, w'))
lift-eq-ok (ok a) w f h = (a, refl, h)
lift-eq-ok (err e) w f h = cc
