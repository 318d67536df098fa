-- ===== src/Prelude/Result.antt =====
-- Go's `(value, error)` pair as a value: one of the two is there.
use mathlib.Core.Path.{◌≡◌, refl}

pub data Result {ℓ κ} (E : Type ℓ) (A : Type κ) : Type (ℓ ⊔ κ) where
  ok : A → Result E A
  err : E → Result E A

module _ {ℓ κ ρ} {E : Type ℓ} {A : Type κ} {B : Type ρ} where
  infixl 5 ◌>>=◌ ◌>>◌
  abbrev pub ◌>>=◌ : Result E A → (A → Result E B) → Result E B
  ok a >>= f = f a
  err e >>= f = err e

  abbrev pub ◌>>◌ : Result E A → Result E B → Result E B
  m >> k = m >>= λ _. k

-- `if err != nil { … }`, and the code that goes on.
abbrev pub either {ℓ κ ρ} :
    {E : Type ℓ} {A : Type κ} {B : Type ρ} → (E → B) → (A → B) → Result E A → B
either f g (ok a) = g a
either f g (err e) = f e

-- `fmt.Errorf("…: %w", err)`: the error keeps what it wraps.
abbrev pub wrap {ℓ κ ρ} : {E : Type ℓ} {F : Type κ} {A : Type ρ} → (E → F) → Result E A → Result F A
wrap f (ok a) = ok a
wrap f (err e) = err (f e)

-- The code ends without an error, with this value.
abbrev pub Gives {ℓ κ} : {E : Type ℓ} {A : Type κ} → Result E A → A → Type (ℓ ⊔ κ)
Gives r a = r ≡ ok a

-- If a chain gives a value, then its first step gave one, and the rest gave the chain's from there.
pub wrap->>=-Gives {ℓ κ ρ σ} :
    {E : Type ℓ} {F : Type κ} {A : Type ρ} {B : Type σ} (tag : E → F) (first : Result E A)
    (rest : A → Result F B) {end : B}
    → Gives (wrap tag first >>= rest) end
    → (middle : A) × Gives first middle × Gives (rest middle) end
wrap->>=-Gives tag (err e) rest given = cc
wrap->>=-Gives tag (ok middle) rest given = (middle, refl, given)

pub >>=-Gives {ℓ κ ρ} :
    {E : Type ℓ} {A : Type κ} {B : Type ρ} (first : Result E A) (rest : A → Result E B) {end : B}
    → Gives (first >>= rest) end
    → (middle : A) × Gives first middle × Gives (rest middle) end
>>=-Gives (err e) rest given = cc
>>=-Gives (ok middle) rest given = (middle, refl, given)

pub wrap-Gives {ℓ κ ρ} :
    {E : Type ℓ} {F : Type κ} {A : Type ρ} (tag : E → F) (r : Result E A) {value : A}
    → Gives (wrap tag r) value
    → Gives r value
wrap-Gives tag (ok a) given = cc
wrap-Gives tag (err e) given = cc
