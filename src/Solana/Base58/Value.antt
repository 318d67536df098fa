-- ===== src/Solana/Base58/Value.antt =====
-- `base58Decode` of solana/message.go against the number that the digits stand for.
use Prim.Native.Nat.{ℕ, zero, suc, ◌+◌, ◌*◌, ◌/◌, ◌^◌, ◌<◌}
use mathlib.Core.List.{reverse, reverse-cons}
use native.Mathlib.Nat.{pow-suc}
use flynn_extensions.Prelude.{
  ◌≡◌, refl, ap, ◌∙◌, List, [], ◌∷◌, ◌++◌, map, none, some, arith, ltb, ◌==◌, if◌then◌else◌, ◌&&◌,
  true, false, Bool, length, get_elem?, All, Bytes, IsByte,
}
use flynn_extensions.Prelude.Result.{ok}
use flynn_extensions.Solana.Message.{addr_len}
use flynn_extensions.Solana.Base58.{
  b58_alphabet, index_from, multiply, flush, push_digit, accumulate, leading_ones, base58_decode,
}

-- The number that bytes stand for, lowest first, and highest first.
abbrev little : Bytes → ℕ
little [] = 0
little (x ∷ xs) = x + 256 * little xs

abbrev pub big_from : ℕ → Bytes → ℕ
big_from acc [] = acc
big_from acc (x ∷ xs) = big_from (acc * 256 + x) xs

-- The number that base 58 digits stand for, highest first, after `acc`.
abbrev pub digits_from : ℕ → List ℕ → ℕ
digits_from acc [] = acc
digits_from acc (d ∷ ds) = digits_from (acc * 58 + d) ds

-- The character of a digit.
unfoldable pub symbol : ℕ → ℕ
symbol d = elim (get_elem? b58_alphabet d) [ none ↦ 0 | some c ↦ c ]

abbrev pub IsDigit : ℕ → Type 0
IsDigit d = d < 58

found_below : ℕ → Bool
found_below zero = true
found_below (suc n) =
    elim (index_from (symbol n) 0 b58_alphabet) [ none ↦ false | some i ↦ i == n ] && found_below n

index_from-found :
    (n d : ℕ) → found_below n ≡ true → d < n → index_from (symbol d) 0 b58_alphabet ≡ some d
unfolding found_below
index_from-found zero d h lt = absurd (omega arith)
index_from-found (suc n) d h lt = ground (arith, index_from-found n d)

index_from-symbol : (d : ℕ) → IsDigit d → index_from (symbol d) 0 b58_alphabet ≡ some d
unfolding found_below index_from symbol
index_from-symbol d h = index_from-found 58 d refl h

-- One digit more: 58 times as much and the digit, over the bytes and the carry.
multiply-little :
    (carry : ℕ) (out : Bytes)
    → little (multiply carry out).0 + (multiply carry out).1 * 256 ^ length out
      ≡ carry + 58 * little out
unfolding multiply
multiply-little carry [] = omega arith
multiply-little carry (x ∷ out) =
    let next = (carry + 58 * x) / 256 in
    omega (
      arith,
      multiply-little next out,
      ap (λ (t : ℕ). (multiply next out).1 * t) (pow-suc 256 (length out)),
    )

multiply-carry :
    (carry : ℕ) (out : Bytes) → carry < 58 → All IsByte out → (multiply carry out).1 < 58
unfolding multiply
multiply-carry carry [] h b = h
multiply-carry carry (x ∷ out) h b = multiply-carry ((carry + 58 * x) / 256) out (omega arith) b.1

multiply-IsByte : (carry : ℕ) (out : Bytes) → All IsByte (multiply carry out).0
unfolding multiply
multiply-IsByte carry [] = tt
multiply-IsByte carry (x ∷ out) = (omega arith, multiply-IsByte ((carry + 58 * x) / 256) out)

length-multiply : (carry : ℕ) (out : Bytes) → length (multiply carry out).0 ≡ length out
unfolding multiply
length-multiply carry [] = refl
length-multiply carry (x ∷ out) = ap suc (length-multiply ((carry + 58 * x) / 256) out)

little-append : (xs : Bytes) (y : ℕ) → little (xs ++ y ∷ []) ≡ little xs + y * 256 ^ length xs
little-append [] y = omega arith
little-append (x ∷ xs) y =
    omega (arith, little-append xs y, ap (λ (t : ℕ). y * t) (pow-suc 256 (length xs)))

little-zeros : (xs zs : Bytes) → little zs ≡ 0 → little (xs ++ zs) ≡ little xs
little-zeros [] zs h = h
little-zeros (x ∷ xs) zs h = omega (arith, little-zeros xs zs h)

All-concat : (xs ys : Bytes) → All IsByte xs → All IsByte ys → All IsByte (xs ++ ys)
All-concat [] ys hx hy = hy
All-concat (x ∷ xs) ys hx hy = (hx.0, All-concat xs ys hx.1 hy)

-- The bytes after a digit: what the accumulator holds becomes 58 times as much and the digit. The
-- carry left by the loop is below 58, so it is flushed in one turn and the bound on the turns is
-- never met.
record Pushed (out : Bytes) (d : ℕ) (out' : Bytes) : Type 0 where
  value : little out' ≡ d + 58 * little out
  bytes : All IsByte out'

flushed : ℕ → Bytes → Bytes
flushed carry out = if ltb 0 carry then out ++ carry ∷ [] else out

flush-small :
    (carry : ℕ) (out : Bytes) → carry < 58 → flush addr_len carry out ≡ ok (flushed carry out)
unfolding flush flushed
flush-small carry out h = ground arith

little-flushed :
    (carry : ℕ) (out : Bytes) → little (flushed carry out) ≡ little out + carry * 256 ^ length out
unfolding flushed
little-flushed carry out = ground (arith, little-append out carry)

flushed-IsByte :
    (carry : ℕ) (out : Bytes) → carry < 58 → All IsByte out → All IsByte (flushed carry out)
unfolding flushed
flushed-IsByte carry out h b = ground (arith, All-concat out (carry ∷ []) b)

push_digit-ok :
    (out : Bytes) (d : ℕ)
    → IsDigit d
    → All IsByte out
    → (out' : Bytes) × (push_digit out (some d) ≡ ok out') × Pushed out d out'
unfolding push_digit
push_digit-ok out d h b =
    let (rest, carry) = multiply d out in
    let small = multiply-carry d out h b in
    (
      flushed carry rest,
      flush-small carry rest small,
      record {
        value = omega (
          arith,
          little-flushed carry rest,
          multiply-little d out,
          ap (λ (n : ℕ). carry * 256 ^ n) (length-multiply d out),
        );
        bytes = flushed-IsByte carry rest small (multiply-IsByte d out);
      },
    )

accumulate-ok :
    (ds : List ℕ) (out : Bytes)
    → All IsDigit ds
    → All IsByte out
    → (out' : Bytes) × (accumulate out (map symbol ds) ≡ ok out')
      × (little out' ≡ digits_from (little out) ds)
      × All IsByte out'
unfolding accumulate
accumulate-ok [] out h b = (out, refl, refl, b)
accumulate-ok (d ∷ ds) out h b =
    let (out1, pushed, p) = push_digit-ok out d h.0 b in
    let (out2, done, value, bytes) = accumulate-ok ds out1 h.1 p.bytes in
    (
      out2,
      rw (accumulate, index_from-symbol d h.0, pushed) done,
      value ∙ ap (λ v. digits_from v ds) (p.value ∙ omega arith),
      bytes,
    )

leading_ones-zeros : (s : Bytes) → (little (leading_ones s) ≡ 0) × All IsByte (leading_ones s)
unfolding leading_ones
leading_ones-zeros [] = (refl, tt)
leading_ones-zeros (c ∷ s) = ground (arith, leading_ones-zeros s)

big_from-append :
    (acc : ℕ) (xs : Bytes) (y : ℕ) → big_from acc (xs ++ y ∷ []) ≡ big_from acc xs * 256 + y
big_from-append acc [] y = refl
big_from-append acc (x ∷ xs) y = big_from-append (acc * 256 + x) xs y

big-reverse : (xs : Bytes) → big_from 0 (reverse xs) ≡ little xs
big-reverse [] = refl
big-reverse (x ∷ xs) =
    rw reverse-cons (omega (arith, big_from-append 0 (reverse xs) x, big-reverse xs))

All-reverse : (xs : Bytes) → All IsByte xs → All IsByte (reverse xs)
All-reverse [] h = tt
All-reverse (x ∷ xs) h =
    rw reverse-cons (All-concat (reverse xs) (x ∷ []) (All-reverse xs h.1) (h.0, tt))

-- Every text of base 58 digits is decoded, never with the error of a loop that does not end, and
-- to bytes that stand for the same number, highest first.
pub base58_decode-value :
    (ds : List ℕ)
    → All IsDigit ds
    → (b : Bytes) × (base58_decode (map symbol ds) ≡ ok b)
      × (big_from 0 b ≡ digits_from 0 ds)
      × All IsByte b
unfolding base58_decode
base58_decode-value ds h =
    let (out, done, value, bytes) = accumulate-ok ds [] h tt in
    let s = map symbol ds in
    let (zeros, small) = leading_ones-zeros s in
    (
      reverse (out ++ leading_ones s),
      rw (base58_decode, done) refl,
      big-reverse (out ++ leading_ones s) ∙ little-zeros out (leading_ones s) zeros ∙ value,
      All-reverse (out ++ leading_ones s) (All-concat out (leading_ones s) bytes small),
    )
