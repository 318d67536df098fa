-- ===== src/Signer.antt =====
-- signer/signer.go: the harness of every chain signer. The vault is the `vault` of the state, and the
-- chain's policy a value of the type `P` beside it; `W` is what the opener reads (a disk, a device).
-- JSON and base64 are Go's, the fields of a `Codec`.

pub mod Runs
pub mod Custody
pub mod Sign
pub mod Guard
pub mod Reply
use flynn_extensions.Prelude.{
  ℕ, ltb, ◌==◌, ◌*◌, ◌^◌, if◌then◌else◌, Option, none, some, List, length, Bytes, codes, Bool,
}
use flynn_extensions.Prelude.Result.{Result, ok, err, ◌>>=◌, ◌>>◌, wrap}
use flynn_extensions.McpServer.{Transport, Tool, Server, new, register}
use flynn_extensions.McpServer.Serve.{Turn, Served}
use flynn_extensions.McpServer.Serve

-- The interface `Key`; the private half is whatever `sign` is made of.
pub record Key : Type 0 where
  pub public_half : Bytes
  pub curve : Bytes
  pub sign : Bytes → Result Bytes Bytes

-- The interface `Policy`, with the methods of `BindsToKey` if the policy has them.
pub record Policy (P R : Type 0) : Type 0 where
  pub approve : P → Bytes → Result R (Unit {0})
  pub bind_key : Option (P → Bytes → P)

-- `Opener`: a passphrase and a path give a key.
abbrev pub Opener : Type 0 → Type 0 → Type 0
Opener W O = Bytes → Bytes → W → Result O Key × W

-- The arguments of the two tools, and the reply to an unlock.
pub record UnlockArgs : Type 0 where
  pub passphrase : Bytes
  pub key_path : Bytes

pub record Unlocked : Type 0 where
  pub public_key : Bytes
  pub curve : Bytes

pub record Codec : Type 0 where
  pub unmarshal_unlock : Bytes → Option UnlockArgs
  pub unmarshal_sign : Bytes → Option Bytes
  pub decode_string : Bytes → Option Bytes
  pub encode_to_string : Bytes → Bytes
  pub marshal_unlocked : Unlocked → Option Bytes
  pub marshal_signature : Bytes → Option Bytes

-- One constructor for each return of an error; `R` is the policy's refusal, `O` the opener's error.
pub data SignerError (R O : Type 0) : Type 0 where
  malformed_unlock encode_public_key : SignerError R O
  not_opened : O → SignerError R O
  locked malformed_sign not_base64 empty_payload encode_signature : SignerError R O
  too_large : ℕ → SignerError R O
  refused : R → SignerError R O
  not_signed : Bytes → SignerError R O

pub record State (P W : Type 0) : Type 0 where
  pub vault : Option Key
  pub policy : P
  pub world : W

abbrev pub unlock_tool_name : Bytes
unlock_tool_name = codes "signer_unlock"

abbrev pub sign_tool_name : Bytes
sign_tool_name = codes "signer_sign"

-- `64 << 10`
abbrev pub max_payload_bytes : ℕ
max_payload_bytes = 64 * 2 ^ 10

-- A decoder's or an encoder's `(value, error)`, with the error that the caller makes of it.
abbrev pub demand : {E A : Type 0} → E → Option A → Result E A
demand e none = err e
demand e (some a) = ok a

module _ {R O : Type 0} where
  -- The two guards on the size of the payload.
  unfoldable pub check_size : Bytes → Result (SignerError R O) (Unit {0})
  check_size payload =
      if length payload == 0
      then err empty_payload
      else if ltb max_payload_bytes (length payload)
      then err (too_large (length payload))
      else ok tt

module _ {P R W O : Type 0} (c : Codec) (policy : Policy P R) where
  -- The handler of `signTool`: parse, decide, and only then sign.
  unfoldable pub sign_payload : Bytes → State P W → Result (SignerError R O) Bytes
  sign_payload input st = do
    key ← demand locked st.vault
    args ← demand malformed_sign (c.unmarshal_sign input)
    payload ← demand not_base64 (c.decode_string args)
    check_size payload
    wrap refused (policy.approve st.policy payload)
    sig ← wrap not_signed (key.sign payload)
    demand encode_signature (c.marshal_signature (c.encode_to_string sig))

  -- A handler that changes nothing.
  abbrev pub sign_handler : Bytes → State P W → Result (SignerError R O) Bytes × State P W
  sign_handler input st = (sign_payload input st, st)

  abbrev pub sign_tool : Tool (State P W) (SignerError R O)
  sign_tool = record {
    info = record {
      name = sign_tool_name;
      description =
          codes
            "Sign a transaction, if the signing policy approves it. The transaction is parsed here, and one that does not satisfy the policy is refused rather than signed.";
      input_schema =
          codes
            "{\"type\":\"object\",\"properties\":{\"payload\":{\"type\":\"string\",\"description\":\"base64 of the exact bytes to sign\"}},\"required\":[\"payload\"]}";
    };
    handler = sign_handler;
  }

module _ {P R : Type 0} (policy : Policy P R) where
  -- `b.BindKey(key.Public())`, if the policy has the method.
  abbrev pub bind_to : Key → P → P
  bind_to key p = elim policy.bind_key [ none ↦ p | some bind ↦ bind p key.public_half ]

module _ {R O : Type 0} (c : Codec) where
  abbrev pub unlocked_reply : Key → Result (SignerError R O) Bytes
  unlocked_reply key = demand encode_public_key (
      c.marshal_unlocked
        (record { public_key = c.encode_to_string key.public_half; curve = key.curve }))

module _ {P R W O : Type 0} (c : Codec) (open_key : Opener W O) (policy : Policy P R) where
  -- `BindKey`, `v.set`, and then the reply: the key stays if the reply cannot be encoded.
  abbrev pub admit : Result O Key × W → State P W → Result (SignerError R O) Bytes × State P W
  admit (err e, w) st = (err (not_opened e), record st { world = w })
  admit (ok key, w) st = (
    unlocked_reply c key,
    record { vault = some key; policy = bind_to policy key st.policy; world = w },
  )

  unfoldable pub unlock : Bytes → State P W → Result (SignerError R O) Bytes × State P W
  unlock input st = elim (c.unmarshal_unlock input) [
    | none ↦ (err malformed_unlock, st)
    | some args ↦ admit (open_key args.passphrase args.key_path st.world) st
  ]

  abbrev pub unlock_tool : Tool (State P W) (SignerError R O)
  unlock_tool = record {
    info = record {
      name = unlock_tool_name;
      description =
          codes
            "Unlock the signing key and return its public half. The private half never leaves this process, and the signer can do nothing at all until this succeeds.";
      input_schema =
          codes
            "{\"type\":\"object\",\"properties\":{\"passphrase\":{\"type\":\"string\",\"description\":\"passphrase that opens the sealed key\"},\"keyPath\":{\"type\":\"string\",\"description\":\"path to the sealed key, when the signer was not launched with one\"}}}";
    };
    handler = unlock;
  }

  unfoldable pub signer_server : Bytes → Bytes → Server (State P W) (SignerError R O)
  signer_server name version =
      register (register (new name version) unlock_tool) (sign_tool c policy)

-- A signer without an opener or without a policy does not start.
pub data NotServed : Type 0 where
  blind_signing : NotServed

-- `Serve`: the process starts with an empty vault.
module _ {P R W O : Type 0} (t : Transport (SignerError R O)) (c : Codec) where
  abbrev pub start_locked : P → W → State P W
  start_locked p w = record { vault = none; policy = p; world = w }

  unfoldable pub serve_signer :
      Bytes
      → Bytes
      → Option (Opener W O)
      → Option (Policy P R × P)
      → List Turn
      → Bool
      → W
      → Result NotServed (Served (State P W))
  serve_signer name version (some open_key) (some (policy, p)) turns failed w =
      ok (
        Serve.serve t (signer_server c open_key policy name version) turns failed
          (start_locked p w))
  serve_signer name version _ _ turns failed w = err blind_signing
