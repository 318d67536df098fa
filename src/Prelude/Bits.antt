-- ===== src/Prelude/Bits.antt =====
-- The byte masks of the source, and `|` of parts that share no bit.
use Prim.Native.Nat.{
  ℕ, zero, suc, ◌+◌, ◌*◌, ◌/◌, ◌%◌, ◌^◌, ◌≤◌, ◌<◌, max, bit_and, bit_or, digits, bit_or-bitwise,
}
use mathlib.Core.Path.{◌≡◌, refl}
use mathlib.Core.Bool.{Bool, true, ◌&&◌}
use native.Mathlib.Omega.{arith}
use native.Mathlib.Nat.{pow-suc}
use flynn_extensions.Prelude.Tests.{◌==◌}

-- Two functions agree on every byte, by evaluation.
agrees : (ℕ → ℕ) → (ℕ → ℕ) → ℕ → Bool
agrees f g zero = true
agrees f g (suc n) = f n == g n && agrees f g n

agrees_sound : (f g : ℕ → ℕ) (n i : ℕ) → agrees f g n ≡ true → i < n → f i ≡ g i
unfolding agrees
agrees_sound f g zero i e h = absurd (omega arith)
agrees_sound f g (suc n) i e h = ground (arith, agrees_sound f g n i)

pub low_seven : (b : ℕ) → b < 256 → bit_and b 0x7f ≡ b % 128
unfolding agrees
low_seven b = agrees_sound (λ x. bit_and x 0x7f) (λ x. x % 128) 256 b refl

pub high_bit : (b : ℕ) → b < 256 → bit_and b 0x80 ≡ b / 128 * 128
unfolding agrees
high_bit b = agrees_sound (λ x. bit_and x 0x80) (λ x. x / 128 * 128) 256 b refl

-- The digit recursion that `bit_or` stands for; its fuel does not matter once it is enough.
abbrev or_digits : ℕ → ℕ → ℕ → ℕ
or_digits n a b = digits (λ d. d) max n a b

or_digits_fuel : (n m a b : ℕ) → a ≤ n → a ≤ m → or_digits n a b ≡ or_digits m a b
or_digits_fuel zero zero a b p q = refl
or_digits_fuel zero (suc m) zero b p q = refl
or_digits_fuel zero (suc m) (suc a) b p q = absurd (omega arith)
or_digits_fuel (suc n) zero zero b p q = refl
or_digits_fuel (suc n) zero (suc a) b p q = absurd (omega arith)
or_digits_fuel (suc n) (suc m) zero b p q = refl
or_digits_fuel (suc n) (suc m) (suc a) b p q =
    omega (arith, or_digits_fuel n m (suc a / 2) (b / 2) (omega arith) (omega arith))

zero-bit_or : (b : ℕ) → bit_or 0 b ≡ b
zero-bit_or b = bit_or-bitwise 0 b

-- The lowest bit of a disjunction, and the disjunction of the rest.
bit_or-halves : (x y : ℕ) → bit_or x y ≡ max (x % 2) (y % 2) + bit_or (x / 2) (y / 2) * 2
bit_or-halves zero y = omega (arith, zero-bit_or y, zero-bit_or (y / 2))
bit_or-halves (suc x) y = omega (
  arith,
  bit_or-bitwise (suc x) y,
  bit_or-bitwise (suc x / 2) (y / 2),
  or_digits_fuel x (suc x / 2) (suc x / 2) (y / 2) (omega arith) (omega arith),
)

-- `a | b << k` is a sum when `a` has no bit from `k` on.
pub bit_or_shifted : (k a b : ℕ) → a < 2 ^ k → bit_or a (b * 2 ^ k) ≡ a + b * 2 ^ k
bit_or_shifted zero a b h =
    let none_left : a ≡ 0 = omega arith in rw none_left (omega (arith, zero-bit_or (b * 1)))
bit_or_shifted (suc k) a b h =
    let half : b * 2 ^ suc k / 2 ≡ b * 2 ^ k = rw pow-suc (omega arith) in
    let even : b * 2 ^ suc k % 2 ≡ 0 = rw pow-suc (omega arith) in
    let small : a / 2 < 2 ^ k = omega (arith, pow-suc 2 k) in
    let step : bit_or a (b * 2 ^ suc k) ≡ bit_or (a / 2) (b * 2 ^ k) * 2 + a % 2 =
      rw (bit_or-halves, half, even) (omega arith) in
    omega (arith, step, bit_or_shifted k (a / 2) b small, pow-suc 2 k)
