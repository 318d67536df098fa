-- ===== src/Solana/Reader/Length.antt =====
-- `compactU16` of solana/message.go against Solana's ShortVec encoding of a length.
use flynn_extensions.Prelude.{
  ℕ, suc, ◌+◌, ◌*◌, ◌/◌, ◌%◌, ◌^◌, ◌≤◌, ◌<◌, ◌≡◌, ◌≢◌, refl, [], ◌∷◌, ◌++◌, arith, bit_and, bit_or,
  subst, Bool-cases, inl, inr, ltb, ◌==◌, if◌then◌else◌, ◌&&◌, Bytes, IsByte, length, All,
}
use flynn_extensions.Prelude.Bits.{low_seven, high_bit, bit_or_shifted}
use flynn_extensions.Solana.Reader.{
  ReadError, non_canonical, out_of_range, not_terminated, Read, pure, head_byte, byte, after_byte,
  compact_loop, compact_u16,
}
use flynn_extensions.Solana.Reader.Rules.{Parses, Parses-pure, Parses-bind, Parses-take}
use flynn_extensions.Solana.Reader.Consumed.{
  Consumes, Consumes-pure, Consumes-raise, Consumes-bind, Consumes-take,
}

-- The one encoding of a length: seven bits a byte, the lowest first, the high bit on all but the
-- last byte, and no more bytes than are needed.
unfoldable pub compact : ℕ → Bytes
compact n =
    if ltb n 128
    then n ∷ []
    else if ltb n 16384
    then (n % 128 + 128) ∷ (n / 128) ∷ []
    else (n % 128 + 128) ∷ (n / 128 % 128 + 128) ∷ (n / 16384) ∷ []

pub Parses-byte : (x : ℕ) → Parses byte x (x ∷ [])
unfolding byte
Parses-byte x = Parses-bind head_byte (Parses-take 1 (x ∷ []) refl) (Parses-pure x)

head_byte-Consumes :
    (f : Bytes)
    → length f ≡ 1
    → All IsByte f
    → Consumes (λ x g. (f ++ g ≡ x ∷ []) × IsByte x) (head_byte f)
unfolding head_byte
head_byte-Consumes [] one b = absurd (omega arith)
head_byte-Consumes (x ∷ []) one b = Consumes-pure x (refl, b.0)
head_byte-Consumes (x ∷ y ∷ r) one b = absurd (omega arith)

pub Consumes-byte : Consumes (λ x f. (f ≡ x ∷ []) × IsByte x) byte
unfolding byte
Consumes-byte =
    Consumes-bind (Consumes-take 1)
      λ v f (same, one, bytes). rw same (head_byte-Consumes f one bytes)

-- A byte with the high bit clear ends the length; one with it set does not.
last_byte :
    (i b val : ℕ) (rest : Read ReadError ℕ)
    → b < 128
    → (0 < i → b ≢ 0)
    → val ≤ 0xffff
    → after_byte i b val rest ≡ pure val
unfolding after_byte
last_byte i b val rest h canonical fits = ground (arith, high_bit b)

more_byte :
    (i b val : ℕ) (rest : Read ReadError ℕ) → 128 ≤ b → b < 256 → after_byte i b val rest ≡ rest
unfolding after_byte
more_byte i b val rest h k = ground (arith, high_bit b)

-- The value after a turn.
added :
    (b val shift : ℕ)
    → b < 256
    → val < 2 ^ shift
    → bit_or val (bit_and b 0x7f * 2 ^ shift) ≡ val + b % 128 * 2 ^ shift
added b val shift h small = rw low_seven (bit_or_shifted shift val (b % 128) small)

-- One turn of the loop, before the turns that are left.
Parses-turn :
    (n i b val shift : ℕ) {v : ℕ} {f : Bytes}
    → 128 ≤ b
    → b < 256
    → val < 2 ^ shift
    → Parses (compact_loop n (i + 1) (val + b % 128 * 2 ^ shift) (shift + 7)) v f
    → Parses (compact_loop (suc n) i val shift) v (b ∷ f)
unfolding compact_loop
Parses-turn n i b val shift h k small p =
    Parses-bind _ (Parses-byte b) (rw (more_byte, added b val shift k small) p)

Parses-last :
    (n i b val shift : ℕ)
    → b < 128
    → (0 < i → b ≢ 0)
    → val < 2 ^ shift
    → val + b * 2 ^ shift ≤ 0xffff
    → Parses (compact_loop (suc n) i val shift) (val + b * 2 ^ shift) (b ∷ [])
unfolding compact_loop
Parses-last n i b val shift h canonical small fits =
    let whole : b % 128 ≡ b = omega arith in
    Parses-bind _ (Parses-byte b) (
      rw (added b val shift (omega arith) small, whole, last_byte i b _ _ h canonical fits)
        (Parses-pure _))

after_byte-Consumes :
    {R : ℕ → Bytes → Type 0} (i b val : ℕ) (rest : Read ReadError ℕ)
    → b < 256
    → (128 ≤ b → Consumes R rest)
    → (b < 128 → (0 < i → b ≢ 0) → val ≤ 0xffff → R val [])
    → Consumes R (after_byte i b val rest)
unfolding after_byte
after_byte-Consumes i b val rest h more done = elim (Bool-cases (bit_and b 0x80 == 0)) [
  | inr set ↦ rw set (more (ground (arith, high_bit b)))
  | inl clear ↦ rw clear (elim (Bool-cases (ltb 0 i && b == 0)) [
    | inl padded ↦ rw padded (Consumes-raise _ non_canonical)
    | inr canonical ↦ rw canonical (elim (Bool-cases (ltb 0xffff val)) [
      | inl large ↦ rw large (Consumes-raise _ out_of_range)
      | inr fits ↦
          rw fits (
            Consumes-pure val
              (done (ground (arith, high_bit b)) (λ p. ground arith) (ground arith)))
    ])
  ])
]

Consumes-turn :
    {R : ℕ → Bytes → Type 0} (n i val shift : ℕ)
    → val < 2 ^ shift
    → ((b : ℕ)
        → 128 ≤ b
        → b < 256
        → Consumes
            (λ v g. R v (b ∷ g))
            (compact_loop n (i + 1) (val + b % 128 * 2 ^ shift) (shift + 7)))
    → ((b : ℕ)
        → b < 128
        → (0 < i → b ≢ 0)
        → val + b * 2 ^ shift ≤ 0xffff
        → R (val + b * 2 ^ shift) (b ∷ []))
    → Consumes R (compact_loop (suc n) i val shift)
unfolding compact_loop
Consumes-turn {R} n i val shift small more done = Consumes-bind Consumes-byte λ b f (same, byte).
    rw (same, added b val shift byte small)
      (after_byte-Consumes i b _ _ byte (λ h. more b h byte)
        (λ h canonical fits.
          let whole : b % 128 ≡ b = omega arith in
          rw whole (done b h canonical (rw whole at fits))))

compact-three :
    (b c d : ℕ)
    → (128 ≤ b) × (b < 256)
    → (128 ≤ c) × (c < 256)
    → d < 128
    → d ≢ 0
    → b ∷ c ∷ d ∷ [] ≡ compact (0 + b % 128 * 1 + c % 128 * 128 + d * 16384)
unfolding compact
compact-three b c d hb hc hd ne = ground arith

compact-two :
    (b c : ℕ)
    → (128 ≤ b) × (b < 256)
    → c < 128
    → c ≢ 0
    → b ∷ c ∷ [] ≡ compact (0 + b % 128 * 1 + c * 128)
unfolding compact
compact-two b c hb hc ne = ground arith

compact-one : (b : ℕ) → b < 128 → b ∷ [] ≡ compact (0 + b * 1)
unfolding compact
compact-one b h = ground arith

Parses-one : (b : ℕ) → b < 128 → Parses compact_u16 (0 + b * 1) (b ∷ [])
unfolding compact_u16
Parses-one b h = Parses-last 2 0 b 0 0 h (λ p. absurd (omega arith)) (omega arith) (omega arith)

Parses-two :
    (b c : ℕ)
    → (128 ≤ b) × (b < 256)
    → c < 128
    → c ≢ 0
    → Parses compact_u16 (0 + b % 128 * 1 + c * 128) (b ∷ c ∷ [])
unfolding compact_u16
Parses-two b c (hb, kb) hc ne =
    Parses-turn 2 0 b 0 0 hb kb (omega arith)
      (Parses-last 1 1 c (0 + b % 128 * 1) 7 hc (λ p. ne) (omega arith) (omega arith))

Parses-three :
    (b c d : ℕ)
    → (128 ≤ b) × (b < 256)
    → (128 ≤ c) × (c < 256)
    → d < 4
    → d ≢ 0
    → Parses compact_u16 (0 + b % 128 * 1 + c % 128 * 128 + d * 16384) (b ∷ c ∷ d ∷ [])
unfolding compact_u16
Parses-three b c d (hb, kb) (hc, kc) hd ne = Parses-turn 2 0 b 0 0 hb kb (omega arith) (
    Parses-turn 1 1 c (0 + b % 128 * 1) 7 hc kc (omega arith) (
      Parses-last 0 2 d (0 + b % 128 * 1 + c % 128 * 128) 14 (omega arith) (λ p. ne) (omega arith)
        (omega arith)))

-- A length below 2 ^ 16 is read back from its encoding.
pub Parses-compact_u16 : (n : ℕ) → n < 2 ^ 16 → Parses compact_u16 n (compact n)
unfolding compact
Parses-compact_u16 n h = elim (Bool-cases (ltb n 128)) [
  | inl one ↦
      rw one
        (subst (λ v. Parses compact_u16 v (n ∷ [])) (omega arith) (Parses-one n (ground arith)))
  | inr more ↦ rw more (elim (Bool-cases (ltb n 16384)) [
    | inl two ↦ rw two (
        subst (λ v. Parses compact_u16 v ((n % 128 + 128) ∷ (n / 128) ∷ [])) (omega arith)
          (Parses-two (n % 128 + 128) (n / 128) (omega arith) (ground arith) (ground arith)))
    | inr three ↦ rw three (
        subst
          (λ v. Parses compact_u16 v ((n % 128 + 128) ∷ (n / 128 % 128 + 128) ∷ (n / 16384) ∷ []))
          (omega arith)
          (Parses-three (n % 128 + 128) (n / 128 % 128 + 128) (n / 16384) (omega arith)
            (omega arith) (ground arith) (ground arith)))
  ])
]

-- What `compactU16` accepts is the encoding of the length that it returns, which is a uint16.
pub Consumes-compact_u16 : Consumes (λ v f. (v < 2 ^ 16) × (f ≡ compact v)) compact_u16
unfolding compact_u16
Consumes-compact_u16 =
    Consumes-turn 2 0 0 0 (omega arith)
      (λ b hb kb.
        Consumes-turn 1 1 (0 + b % 128 * 1) 7 (omega arith)
          (λ c hc kc.
            Consumes-turn 0 2 (0 + b % 128 * 1 + c % 128 * 128) 14 (omega arith)
              (λ d hd kd. unfold compact_loop in Consumes-raise _ not_terminated)
              (λ d hd ne fits.
                (omega arith, compact-three b c d (hb, kb) (hc, kc) hd (ne (omega arith)))))
          (λ c hc ne fits. (omega arith, compact-two b c (hb, kb) hc (ne (omega arith)))))
      (λ b hb ne fits. (omega arith, compact-one b hb))
