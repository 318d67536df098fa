-- ===== src/SolanaSigner/Toy.antt =====
-- A host for the runs of signer/key.go: its disk is one file, and its ciphers are transparent.
use flynn_extensions.Prelude.{
  ℕ, zero, suc, ◌≡◌, refl, sym, ap, ◌∙◌, Bool, true, ◌==◌, ◌&&◌, if◌then◌else◌, Bool-cases, inl,
  inr, Option, none, some, ◌++◌, length, replicate, take, drop, arith, Bytes, codes, equal,
  equal_iff, equal_self, take-append_self, drop-append_self,
}
use flynn_extensions.Signer.Custody.{Host, SealedKey}
use flynn_extensions.Signer.Custody.Seal.{HostLaws}

abbrev is_toy : SealedKey → Bool
is_toy s =
    s.version == 1 && equal s.curve (codes "ed25519") && length s.salt == 16 && length s.nonce == 2

unfoldable pub marshal_toy : SealedKey → Option Bytes
marshal_toy s = if is_toy s then some (s.salt ++ (s.nonce ++ s.box)) else none

pub unmarshal_toy : Bytes → Option SealedKey
unmarshal_toy b = some (record {
  version = 1;
  curve = codes "ed25519";
  salt = take 16 b;
  nonce = take 2 (drop 16 b);
  box = drop 2 (drop 16 b);
})

pub open_toy : Bytes → Bytes → Bytes → Option Bytes
open_toy g nonce box =
    let head = g ++ nonce in
    if equal (take (length head) box) head then some (drop (length head) box) else none

unfoldable pub toy : Host Bytes Bytes Bytes
toy = record {
  id_key = λ passphrase salt time memory threads size. passphrase ++ salt;
  new_cipher = λ k. some k;
  new_gcm = λ k. some k;
  nonce_size = λ g. 2;
  gcm_seal = λ g nonce plain. g ++ nonce ++ plain;
  gcm_open = open_toy;
  ed25519_sign = λ priv payload. payload;
  read_random = λ n w. (some (replicate n 5), w);
  marshal_sealed = marshal_toy;
  unmarshal_sealed = unmarshal_toy;
  read_file = λ path w. (some w, w);
  write_file = λ path b perm w. (some tt, b);
}

length-replicate : (n b : ℕ) → length (replicate n b) ≡ n
length-replicate zero b = refl
length-replicate (suc n) b = ap suc (length-replicate n b)

open_toy-law : (g nonce plain : Bytes) → open_toy g nonce (g ++ nonce ++ plain) ≡ some plain
unfolding open_toy
open_toy-law g nonce plain =
    rw
      (
        take-append_self (g ++ nonce) plain,
        equal_self (g ++ nonce),
        drop-append_self (g ++ nonce) plain,
      )
      refl

toy_shape :
    (s : SealedKey)
    → is_toy s ≡ true
    → (s.version ≡ 1) × (s.curve ≡ codes "ed25519") × (length s.salt ≡ 16) × (length s.nonce ≡ 2)
toy_shape s h = (
  ground arith,
  (equal_iff s.curve (codes "ed25519")).0 (ground arith),
  ground arith,
  ground arith,
)

prefix :
    (n : ℕ) (xs ys : Bytes) → length xs ≡ n → (take n (xs ++ ys) ≡ xs) × (drop n (xs ++ ys) ≡ ys)
prefix n xs ys h = (
  ap (λ k. take k (xs ++ ys)) (sym h) ∙ take-append_self xs ys,
  ap (λ k. drop k (xs ++ ys)) (sym h) ∙ drop-append_self xs ys,
)

unmarshal-marshal_toy :
    (s : SealedKey) (b : Bytes) → marshal_toy s ≡ some b → unmarshal_toy b ≡ some s
unfolding marshal_toy unmarshal_toy
unmarshal-marshal_toy s b h = elim (Bool-cases (is_toy s)) [
  | inl shaped ↦
      let (version, curve, salt, nonce) = toy_shape s shaped in
      let now = rw (marshal_toy, shaped) at h in
      let whole : s.salt ++ (s.nonce ++ s.box) ≡ b = cc in
      let (salt_back, rest) = prefix 16 s.salt (s.nonce ++ s.box) salt in
      let (nonce_back, box_back) = prefix 2 s.nonce s.box nonce in
      rw⁻¹ whole (rw (salt_back, rest, nonce_back, box_back, ← version, ← curve) refl)
  | inr other ↦ (let now = rw (marshal_toy, other) at h in cc)
]

pub toy-HostLaws : HostLaws toy
unfolding toy
toy-HostLaws = record {
  random_length =
      λ n w w' b h. (let same : replicate n 5 ≡ b = cc in rw⁻¹ same (length-replicate n 5));
  unmarshal_marshal = unmarshal-marshal_toy;
  read_written = λ path b perm w w' h. ap some (ap (λ r. r.1) (sym h));
  open_sealed = λ g nonce plain h. open_toy-law g nonce plain;
}
