-- ===== src/Solana/Reader.antt =====
-- The `reader` of solana/message.go, which walks the payload. A read that fails returns no reader:
-- the source gives up the whole parse there.
pub mod Consumed
pub mod Rules
pub mod Length
pub mod Each
use flynn_extensions.Prelude.{
  ℕ, zero, suc, ◌+◌, ◌-◌, ◌*◌, ◌^◌, bit_and, bit_or, ltb, ◌==◌, ◌&&◌, if◌then◌else◌, length, List,
  [], ◌∷◌, ◌++◌, Bytes,
}
use flynn_extensions.Prelude.{take as first, drop as behind}
use flynn_extensions.Prelude.Result.{Result, ok, err, wrap}

-- The errors that `take`, `byte` and `compactU16` make.
pub data ReadError : Type 0 where
  truncated non_canonical out_of_range not_terminated : ReadError

pub record Reader : Type 0 where
  pub b : Bytes
  pub off : ℕ

-- A method of the reader that may fail.
abbrev pub Read {ℓ κ} : Type ℓ → Type κ → Type (ℓ ⊔ κ)
Read E A = Reader → Result E (A × Reader)

module _ {ℓ κ} {E : Type ℓ} {A : Type κ} where
  abbrev pub pure : A → Read E A
  pure a r = ok (a, r)

  abbrev pub raise : E → Read E A
  raise e r = err e

module _ {ℓ κ ρ} {E : Type ℓ} {A : Type κ} {B : Type ρ} where
  abbrev continue : Result E (A × Reader) → (A → Read E B) → Result E (B × Reader)
  continue (ok (a, r)) f = f a r
  continue (err e) f = err e

  infixl 5 ◌>>=◌ ◌>>◌
  unfoldable pub ◌>>=◌ : Read E A → (A → Read E B) → Read E B
  ◌>>=◌ m f r = continue (m r) f

  abbrev pub ◌>>◌ : Read E A → Read E B → Read E B
  m >> k = m >>= λ _. k

-- `fmt.Errorf("…: %w", err)` around one read.
unfoldable pub within {ℓ κ ρ} :
    {E : Type ℓ} {F : Type κ} {A : Type ρ} → (E → F) → Read E A → Read F A
within f m r = wrap f (m r)

-- `off` never passes the length, so the difference is that of Go's `int`.
unfoldable pub remaining : Reader → ℕ
remaining r = length r.b - r.off

-- A length read from the message is never negative, so `n < 0` has no counterpart.
unfoldable pub take : ℕ → Read ReadError Bytes
unfolding remaining
take n r =
    if ltb (remaining r) n
    then err truncated
    else ok (first n (behind r.off r.b), record r { off = r.off + n })

-- `b[0]` of the one byte taken.
head_byte : Bytes → Read ReadError ℕ
head_byte [] = raise truncated
head_byte (x ∷ xs) = pure x

unfoldable pub byte : Read ReadError ℕ
unfolding head_byte
byte = do b ← take 1; head_byte b

-- What one turn of the loop of `compactU16` does with its byte `b`; `rest` is the next turn.
after_byte : ℕ → ℕ → ℕ → Read ReadError ℕ → Read ReadError ℕ
after_byte i b val rest =
    if bit_and b 0x80 == 0
    then (if ltb 0 i && b == 0
        then raise non_canonical
        else if ltb 0xffff val
        then raise out_of_range
        else pure val)
    else rest

-- `for i := range 3`: the first argument counts the turns left.
unfoldable pub compact_loop : ℕ → ℕ → ℕ → ℕ → Read ReadError ℕ
unfolding after_byte
compact_loop zero i val shift = raise not_terminated
compact_loop (suc n) i val shift = do
  b ← byte
  let val' = bit_or val (bit_and b 0x7f * 2 ^ shift)
  after_byte i b val' (compact_loop n (i + 1) val' (shift + 7))

unfoldable pub compact_u16 : Read ReadError ℕ
unfolding compact_loop
compact_u16 = compact_loop 3 0 0 0

-- `for i := range n { x, err := item(i); …; acc = append(acc, x) }`: the first number counts the
-- turns left, the second is `i`.
unfoldable pub read_each {ℓ κ} :
    {E : Type ℓ} {A : Type κ} → (ℕ → Read E A) → ℕ → ℕ → List A → Read E (List A)
read_each item zero i acc = pure acc
read_each item (suc n) i acc = do x ← item i; read_each item n (i + 1) (acc ++ x ∷ [])
