-- ===== src/SolanaSigner/RawKey.antt =====
-- cmd/solana-signer/main.go, `readRawKey`: which arrays of numbers are a key.
use flynn_extensions.Prelude.{
  ℕ, suc, ◌≡◌, ◌↔◌, refl, ap, List, [], ◌∷◌, map, length, All, arith, Bytes, IsByte, ltb, false,
  Bool-cases, inl, inr, ◌==◌,
}
use flynn_extensions.Prelude.Result.{ok, >>=-Gives}
use flynn_extensions.Signer.Custody.{private_key_size}
use flynn_extensions.SolanaSigner.{ℤ, pos, negsuc, raw_byte, raw_bytes, raw_key}

raw_byte-ok : (i : ℕ) (n : ℤ) (b : ℕ) → raw_byte i n ≡ ok b → (n ≡ pos b) × IsByte b
unfolding raw_byte
raw_byte-ok i (negsuc n) b h = cc
raw_byte-ok i (pos n) b h = ground arith

raw_bytes-ok :
    (i : ℕ) (nums : List ℤ) (key : Bytes)
    → raw_bytes i nums ≡ ok key
    → (nums ≡ map pos key) × All IsByte key
unfolding raw_bytes
raw_bytes-ok i [] [] h = (refl, tt)
raw_bytes-ok i [] (b ∷ key) h = cc
raw_bytes-ok i (n ∷ ns) key h =
    let (b, first, h₁) = >>=-Gives (raw_byte i n) _ h in
    let (bs, rest, h₂) = >>=-Gives (raw_bytes (suc i) ns) _ h₁ in
    let (same, byte) = raw_byte-ok i n b first in
    let (sames, bytes) = raw_bytes-ok (suc i) ns bs rest in
    let whole : b ∷ bs ≡ key = cc in rw⁻¹ whole (rw (same, sames) refl, (byte, bytes))

raw_bytes-map : (i : ℕ) (key : Bytes) → All IsByte key → raw_bytes i (map pos key) ≡ ok key
unfolding raw_bytes raw_byte
raw_bytes-map i [] bytes = refl
raw_bytes-map i (b ∷ key) (byte, bytes) =
    let small : ltb 255 b ≡ false = ground arith in rw (small, raw_bytes-map (suc i) key bytes) refl

length-map : (key : Bytes) → length (map pos key) ≡ length key
length-map [] = refl
length-map (b ∷ key) = ap suc (length-map key)

-- The numbers of a raw key file are a key exactly when they are 64 bytes, and then they are the key.
pub raw_key_iff :
    (nums : List ℤ) (key : Bytes)
    → (raw_key nums ≡ ok key) ↔ ((nums ≡ map pos key) × (length key ≡ 64) × All IsByte key)
unfolding raw_key
raw_key_iff nums key = (
  λ h. elim (Bool-cases (length nums == private_key_size)) [
    | inl right ↦
        let (same, bytes) = raw_bytes-ok 0 nums key (rw (raw_key, right) at h) in
        let sized : length (map pos key) ≡ 64 = rw⁻¹ same (ground arith) in
        (same, omega (arith, sized, length-map key), bytes)
    | inr wrong ↦ (let now = rw (raw_key, wrong) at h in cc)
  ],
  λ (same, sized, bytes). rw (raw_key, same, length-map key, sized) (raw_bytes-map 0 key bytes),
)
