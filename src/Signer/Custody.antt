-- ===== src/Signer/Custody.antt =====
-- signer/key.go: the sealed key file. What the file uses of Go's standard library and of x/crypto is a
-- `Host`: argon2, AES-GCM, ed25519, the random source, the file system and encoding/json.
pub mod Seal
use flynn_extensions.Prelude.{
  ℕ, ◌*◌, Bool, not, ◌==◌, if◌then◌else◌, Option, none, some, List, length, drop, Bytes, codes,
}
use flynn_extensions.Prelude.Result.{Result, ok, err}
use flynn_extensions.Prelude.Action.{Action, ◌>>=◌, ◌>>◌, lift}
use flynn_extensions.Signer.{Key, demand}

-- `sealedKey`: what is on the disk.
pub record SealedKey : Type 0 where
  pub version : ℕ
  pub curve : Bytes
  pub salt : Bytes
  pub nonce : Bytes
  pub box : Bytes

-- `W` is the state of the disk and of the random source, `B` a block cipher and `G` its GCM.
pub record Host (W B G : Type 0) : Type 0 where
  pub id_key : Bytes → Bytes → ℕ → ℕ → ℕ → ℕ → Bytes
  pub new_cipher : Bytes → Option B
  pub new_gcm : B → Option G
  pub nonce_size : G → ℕ
  pub gcm_seal : G → Bytes → Bytes → Bytes
  pub gcm_open : G → Bytes → Bytes → Option Bytes
  pub ed25519_sign : Bytes → Bytes → Bytes
  pub read_random : ℕ → W → Option Bytes × W
  pub marshal_sealed : SealedKey → Option Bytes
  pub unmarshal_sealed : Bytes → Option SealedKey
  pub read_file : Bytes → W → Option Bytes × W
  pub write_file : Bytes → Bytes → ℕ → W → Option (Unit {0}) × W

pub data KeyError : Type 0 where
  malformed_key empty_passphrase salt_error nonce_error encode_error write_error : KeyError
  cipher_error gcm_error : KeyError
  read_error not_sealed no_passphrase malformed_sealed not_opened : KeyError
  unsupported_version : ℕ → KeyError

abbrev pub argon_time : ℕ
argon_time = 3

abbrev pub argon_memory : ℕ
argon_memory = 64 * 1024

abbrev pub argon_threads : ℕ
argon_threads = 4

abbrev pub argon_key_len : ℕ
argon_key_len = 32

abbrev pub salt_len : ℕ
salt_len = 16

abbrev pub seal_version : ℕ
seal_version = 1

-- Of crypto/ed25519.
abbrev pub private_key_size : ℕ
private_key_size = 64

abbrev pub seed_size : ℕ
seed_size = 32

abbrev pub require : KeyError → Bool → Result KeyError (Unit {0})
require e b = if b then ok tt else err e

abbrev pub sealed_file : Bytes → Bytes → Bytes → SealedKey
sealed_file salt nonce box = record {
  version = seal_version;
  curve = codes "ed25519";
  salt = salt;
  nonce = nonce;
  box = box;
}

module _ {W B G : Type 0} (h : Host W B G) where
  abbrev pub attempt : {A : Type 0} → KeyError → (W → Option A × W) → Action W KeyError A
  attempt e f w = let (o, w') = f w in (demand e o, w')

  -- The three methods of `Ed25519Key`.
  abbrev pub ed25519_key : Bytes → Key
  ed25519_key priv = record {
    public_half = drop seed_size priv;
    curve = codes "ed25519";
    sign = λ payload. ok (h.ed25519_sign priv payload);
  }

  unfoldable pub new_ed25519_key : Bytes → Result KeyError Key
  new_ed25519_key priv =
      if not (length priv == private_key_size) then err malformed_key else ok (ed25519_key priv)

  unfoldable pub box_cipher : Bytes → Bytes → Result KeyError G
  box_cipher passphrase salt =
      elim (h.new_cipher
        (h.id_key passphrase salt argon_time argon_memory argon_threads argon_key_len)) [
          | none ↦ err cipher_error
          | some block ↦ demand gcm_error (h.new_gcm block)
        ]

  unfoldable pub seal_ed25519_key : Bytes → Bytes → Bytes → Action W KeyError (Unit {0})
  seal_ed25519_key path priv passphrase = do
    lift (require malformed_key (length priv == private_key_size))
    lift (require empty_passphrase (not (length passphrase == 0)))
    salt ← attempt salt_error (h.read_random salt_len)
    gcm ← lift (box_cipher passphrase salt)
    nonce ← attempt nonce_error (h.read_random (h.nonce_size gcm))
    out ← lift (
        demand encode_error (h.marshal_sealed (sealed_file salt nonce (h.gcm_seal gcm nonce priv))))
    attempt write_error (h.write_file path out 384)

  unfoldable pub open_ed25519_key : Bytes → Bytes → Action W KeyError Key
  open_ed25519_key path passphrase = do
    raw ← attempt read_error (h.read_file path)
    sealed ← lift (demand not_sealed (h.unmarshal_sealed raw))
    lift (require (unsupported_version sealed.version) (sealed.version == seal_version))
    lift (require no_passphrase (not (length passphrase == 0)))
    gcm ← lift (box_cipher passphrase sealed.salt)
    lift (require malformed_sealed (length sealed.nonce == h.nonce_size gcm))
    priv ← lift (demand not_opened (h.gcm_open gcm sealed.nonce sealed.box))
    lift (new_ed25519_key priv)
