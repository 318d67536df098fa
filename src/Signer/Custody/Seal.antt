-- ===== src/Signer/Custody/Seal.antt =====
-- signer/key.go: sealing against opening, with the laws of the host that this takes.
use flynn_extensions.Prelude.{
  ℕ, ◌≡◌, refl, Bool, true, false, not, ◌==◌, Option, none, some, length, Bytes, arith,
}
use flynn_extensions.Prelude.Result.{Result, ok}
use flynn_extensions.Prelude.Action.{Action, after, lift-eq-ok}
use flynn_extensions.Signer.{demand}
use flynn_extensions.Signer.Custody.{
  SealedKey, sealed_file, malformed_key, empty_passphrase, salt_error, nonce_error, encode_error,
  write_error, Host, KeyError, private_key_size, salt_len, require, ed25519_key, new_ed25519_key,
  box_cipher, seal_ed25519_key, open_ed25519_key,
}

-- What the documentation of the libraries says of the functions of a `Host`.
pub record HostLaws {W B G : Type 0} (h : Host W B G) : Type 0 where
  pub random_length :
      (n : ℕ) (w w' : W) (b : Bytes) → h.read_random n w ≡ (some b, w') → length b ≡ n
  pub unmarshal_marshal :
      (s : SealedKey) (b : Bytes) → h.marshal_sealed s ≡ some b → h.unmarshal_sealed b ≡ some s
  pub read_written :
      (path b : Bytes) (perm : ℕ) (w w' : W)
      → h.write_file path b perm w ≡ (some tt, w')
      → (h.read_file path w').0 ≡ some b
  pub open_sealed :
      (g : G) (nonce plain : Bytes)
      → length nonce ≡ h.nonce_size g
      → h.gcm_open g nonce (h.gcm_seal g nonce plain) ≡ some plain

==-self : (n : ℕ) → (n == n) ≡ true
==-self n = ground arith

module _ {W B G : Type 0} (h : Host W B G) where
  demand-inv : {A : Type 0} (e : KeyError) (o : Option A) {a : A} → demand e o ≡ ok a → o ≡ some a
  demand-inv e none eq = cc
  demand-inv e (some b) eq = cc

  require-inv : (e : KeyError) (b : Bool) {u : Unit {0}} → require e b ≡ ok u → b ≡ true
  require-inv e true eq = refl
  require-inv e false eq = cc

  attempt-inv :
      {A C : Type 0} (e : KeyError) (o : Option A × W) (k : A → Action W KeyError C) {c : C}
      {w' : W}
      → after (demand e o.0, o.1) k ≡ (ok c, w')
      → (a : A) × (w : W) × (o ≡ (some a, w)) × (k a w ≡ (ok c, w'))
  attempt-inv e (some a, w) k eq = (a, w, refl, eq)
  attempt-inv e (none, w) k eq = cc

  abbrev IsDone : {A : Type 0} → Result KeyError A × W → A → W → Type 0
  IsDone r a w' = r ≡ (ok a, w')

  attempt-eq :
      {A : Type 0} (e : KeyError) (o : Option A × W) {a : A} {w' : W}
      → IsDone (demand e o.0, o.1) a w'
      → o ≡ (some a, w')
  attempt-eq e (some a, w) eq = ground arith
  attempt-eq e (none, w) eq = cc

  -- What a seal leaves on the disk.
  pub record Sealed (path priv passphrase : Bytes) (w' : W) : Type 0 where
    pub sized : length priv ≡ private_key_size
    pub protected : (length passphrase == 0) ≡ false
    pub salt : Bytes
    pub gcm : G
    pub made : box_cipher h passphrase salt ≡ ok gcm
    pub nonce : Bytes
    pub drawn : length nonce ≡ h.nonce_size gcm
    pub out : Bytes
    pub encoded : h.marshal_sealed (sealed_file salt nonce (h.gcm_seal gcm nonce priv)) ≡ some out
    pub stored : (h.read_file path w').0 ≡ some out

  seal-inv :
      HostLaws h
      → (path priv passphrase : Bytes) (w w' : W)
      → seal_ed25519_key h path priv passphrase w ≡ (ok tt, w')
      → Sealed path priv passphrase w'
  unfolding seal_ed25519_key
  seal-inv laws path priv passphrase w w' sealed =
      let (_, e₁, sealed₁) =
        lift-eq-ok (require malformed_key (length priv == private_key_size)) w _ sealed in
      let (_, e₂, sealed₂) =
        lift-eq-ok (require empty_passphrase (not (length passphrase == 0))) w _ sealed₁ in
      let (salt, w₃, e₃, sealed₃) = attempt-inv salt_error (h.read_random salt_len w) _ sealed₂ in
      let (gcm, e₄, sealed₄) = lift-eq-ok (box_cipher h passphrase salt) w₃ _ sealed₃ in
      let (nonce, w₅, e₅, sealed₅) =
        attempt-inv nonce_error (h.read_random (h.nonce_size gcm) w₃) _ sealed₄ in
      let file = sealed_file salt nonce (h.gcm_seal gcm nonce priv) in
      let (out, e₆, sealed₆) =
        lift-eq-ok (demand encode_error (h.marshal_sealed file)) w₅ _ sealed₅ in
      let sized = require-inv malformed_key (length priv == private_key_size) e₁ in
      let protected = require-inv empty_passphrase (not (length passphrase == 0)) e₂ in
      record {
        sized = ground arith;
        protected = ground arith;
        salt = salt;
        gcm = gcm;
        made = e₄;
        nonce = nonce;
        drawn = laws.random_length (h.nonce_size gcm) w₃ w₅ nonce e₅;
        out = out;
        encoded = demand-inv encode_error (h.marshal_sealed file) e₆;
        stored =
            laws.read_written path out 384 w₅ w'
              (attempt-eq write_error (h.write_file path out 384 w₅) sealed₆);
      }

  new_ed25519_key-sized :
      (priv : Bytes)
      → length priv ≡ private_key_size
      → new_ed25519_key h priv ≡ ok (ed25519_key h priv)
  unfolding new_ed25519_key
  new_ed25519_key-sized priv sized = rw sized refl

  open-Sealed :
      HostLaws h
      → (path priv passphrase : Bytes) (w' : W) → Sealed path priv passphrase w'
      → (open_ed25519_key h path passphrase w').0 ≡ ok (ed25519_key h priv)
  unfolding open_ed25519_key
  open-Sealed laws path priv passphrase w' s =
      let same : (length s.nonce == h.nonce_size s.gcm) ≡ true =
        rw s.drawn (==-self (h.nonce_size s.gcm)) in
      rw
        (
          s.stored,
          laws.unmarshal_marshal _ s.out s.encoded,
          s.protected,
          s.made,
          same,
          laws.open_sealed s.gcm s.nonce priv s.drawn,
        )
        (new_ed25519_key-sized priv s.sized)

  -- On a host that keeps its laws, a key that was sealed opens under the passphrase it was sealed
  -- under, as the same key.
  pub open_ed25519_key-seal :
      HostLaws h
      → (path priv passphrase : Bytes) (w w' : W)
      → seal_ed25519_key h path priv passphrase w ≡ (ok tt, w')
      → (open_ed25519_key h path passphrase w').0 ≡ ok (ed25519_key h priv)
  open_ed25519_key-seal laws path priv passphrase w w' sealed =
      open-Sealed laws path priv passphrase w' (seal-inv laws path priv passphrase w w' sealed)
