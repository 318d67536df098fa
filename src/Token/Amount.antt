-- ===== src/Token/Amount.antt =====
-- token/engine.go, `scaledAmount`: whole tokens in the smallest units of a mint, or an overflow.
use native.Mathlib.Nat.{pow-suc, mul-le-mul_left}
use flynn_extensions.Prelude.{
  ℕ, zero, suc, ◌*◌, ◌/◌, ◌%◌, ◌^◌, ◌≤◌, ◌≡◌, ◌↔◌, sym, ap, ◌∙◌, ltb, Bool-cases, inl, inr, true,
  false, arith,
}
use flynn_extensions.Prelude.Result.{Result, ok, err}

pub data AmountError : Type 0 where
  overflow : AmountError

-- `math.MaxUint64`
abbrev pub max_uint64 : ℕ
max_uint64 = 0xffffffffffffffff

-- The loop over the decimals; `*=` wraps around at 64 bits.
unfoldable pub scale : ℕ → ℕ → Result AmountError ℕ
scale amount zero = ok amount
scale amount (suc n) = elim (ltb (max_uint64 / 10) amount) [
  | true ↦ err overflow
  | false ↦ scale (amount * 10 % 2 ^ 64) n
]

unfoldable pub scaled_amount : ℕ → ℕ → Result AmountError ℕ
scaled_amount whole decimals = scale whole decimals

ten_times : (amount n : ℕ) → amount * 10 * 10 ^ n ≡ amount * 10 ^ suc n
ten_times amount n = omega (arith, ap (λ (t : ℕ). amount * t) (pow-suc 10 n))

one_le_pow : (n : ℕ) → 1 ≤ 10 ^ n
one_le_pow zero = omega arith
one_le_pow (suc n) = omega (arith, one_le_pow n)

mul-pow_below : (a n : ℕ) → a * 10 ^ n ≤ max_uint64 → a ≤ max_uint64
mul-pow_below a n h = omega (arith, mul-le-mul_left a (one_le_pow n))

-- Below the bound of the loop's test, the product does not wrap around.
no_wrap :
    (amount : ℕ)
    → ltb (max_uint64 / 10) amount ≡ false
    → (amount * 10 % 2 ^ 64 ≡ amount * 10) × (amount * 10 ≤ max_uint64)
no_wrap amount h = (ground arith, ground arith)

scale-ok :
    (amount n out : ℕ)
    → amount ≤ max_uint64
    → scale amount n ≡ ok out
    → (out ≡ amount * 10 ^ n) × (out ≤ max_uint64)
unfolding scale
scale-ok amount zero out fits h = (ground arith, ground arith)
scale-ok amount (suc n) out fits h = elim (Bool-cases (ltb (max_uint64 / 10) amount)) [
  | inl over ↦ (let now = rw (scale, over) at h in cc)
  | inr under ↦
      let (same, below) = no_wrap amount under in
      let (value, bound) = scale-ok (amount * 10) n out below (rw (scale, under, same) at h) in
      (value ∙ ten_times amount n, bound)
]

scale-fits : (amount n : ℕ) → amount * 10 ^ n ≤ max_uint64 → scale amount n ≡ ok (amount * 10 ^ n)
unfolding scale
scale-fits amount zero fits = ap ok (omega arith)
scale-fits amount (suc n) fits =
    let product : amount * 10 * 10 ^ n ≤ max_uint64 = rw (ten_times amount n) fits in
    let below : amount * 10 ≤ max_uint64 = mul-pow_below (amount * 10) n product in
    let under : ltb (max_uint64 / 10) amount ≡ false = ground arith in
    rw (scale, under, (no_wrap amount under).0)
      (scale-fits (amount * 10) n product ∙ ap ok (ten_times amount n))

-- For a whole number of 64 bits, an amount is given exactly when whole * 10 ^ decimals fits into 64
-- bits, and it is then this product.
pub scaled_amount_iff :
    (whole decimals out : ℕ)
    → whole ≤ max_uint64
    → (scaled_amount whole decimals ≡ ok out)
      ↔ ((out ≡ whole * 10 ^ decimals) × (whole * 10 ^ decimals ≤ max_uint64))
unfolding scaled_amount
scaled_amount_iff whole decimals out fits = (
  λ h. (let (value, bound) = scale-ok whole decimals out fits h in (value, rw⁻¹ value bound)),
  λ (value, bound). scale-fits whole decimals bound ∙ ap ok (sym value),
)
