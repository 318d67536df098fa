-- ===== src/SolanaSigner/Runs.antt =====
-- Keys are sealed and unlocked over a toy host.
use flynn_extensions.Prelude.{
  ◌≡◌, ◌⊎◌, refl, false, List, Option, none, some, [], ◌∷◌, map, replicate, Bytes, codes, equal,
}
use flynn_extensions.Prelude.Result.{ok}
use flynn_extensions.Solana.Policy.{Solana, PolicyError}
use flynn_extensions.McpServer.{Transport}
use flynn_extensions.Signer.{Codec, SignerError, Key, State, UnlockArgs, unlock}
use flynn_extensions.Signer.Sign.{unlock-state, Opened, Unopened}
use flynn_extensions.Signer.Guard.{solana_policy}
use flynn_extensions.Signer.Custody.{ed25519_key, seal_ed25519_key, open_ed25519_key, box_cipher}
use flynn_extensions.Signer.Custody.Seal.{open_ed25519_key-seal}
use flynn_extensions.SolanaSigner.{
  ℤ, pos, CommandError, Stdin, read_passphrase, trim_right, Flags, sealed, open_key, seal_key,
  raw_key, run_command,
}
use flynn_extensions.SolanaSigner.Sealed.{Restores, seal-unlock}
use flynn_extensions.SolanaSigner.Toy.{toy, marshal_toy, toy-HostLaws}

raw : Bytes
raw = replicate 64 7

-- What the toy host's disk holds after the key was sealed under the passphrase "x".
disk : Bytes
disk = (seal_ed25519_key toy (codes "k") raw (codes "x") []).1

is_sealed : seal_ed25519_key toy (codes "k") raw (codes "x") [] ≡ (ok tt, disk)
unfolding disk raw seal_ed25519_key box_cipher toy marshal_toy equal
is_sealed = refl

open_ed25519_key-seal_example :
    (open_ed25519_key toy (codes "k") (codes "x") disk).0 ≡ ok (ed25519_key toy raw)
open_ed25519_key-seal_example =
    open_ed25519_key-seal toy toy-HostLaws (codes "k") raw (codes "x") [] disk is_sealed

abbrev args : UnlockArgs
args = record { passphrase = codes "x"; key_path = [] }

abbrev codec : Codec
codec = record {
  unmarshal_unlock = λ input. some args;
  unmarshal_sign = λ input. some input;
  decode_string = λ text. some text;
  encode_to_string = λ bytes. bytes;
  marshal_unlocked = λ u. some u.public_key;
  marshal_signature = λ text. some text;
}

abbrev start : State Solana Bytes
start = record { vault = none; policy = record { payer = [] }; world = disk }

abbrev transport : Transport (SignerError PolicyError CommandError)
transport = record {
  unmarshal_request = λ line. none;
  unmarshal_call = λ params. none;
  marshal_response = λ r. none;
  trim_space = λ line. line;
}

-- The command line is read as it stands: `seal --in r --out k`, and for the signer `--key k`.
abbrev flags : Flags
flags = record {
  parse_serve = λ given. some (codes "k");
  parse_seal = λ given. some (codes "r", codes "k");
}

-- A line of a pipe, with the newline that ends it.
abbrev piped : Stdin
piped = record {
  is_terminal = false;
  read_password = none;
  read_string = (b'x' ∷ b'\n' ∷ [], none);
}

abbrev bytes_as_ints : Bytes → Option (List ℤ)
bytes_as_ints file = some (map pos file)

seals :
    run_command toy flags bytes_as_ints transport codec
      (codes "dev")
      []
      false
      piped
      (codes "seal" ∷ [])
      raw
    ≡ (ok sealed, disk)
unfolding run_command seal_key read_passphrase trim_right raw_key disk raw seal_ed25519_key
    box_cipher toy marshal_toy equal
seals = refl

reads_x : read_passphrase piped ≡ some (codes "x")
unfolding read_passphrase trim_right
reads_x = refl

seal-unlock_example :
    Restores toy bytes_as_ints
      (codes "r")
      raw
      (unlock codec (open_key toy (codes "k")) solana_policy [] start).1
seal-unlock_example =
    seal-unlock toy toy-HostLaws flags bytes_as_ints transport codec (codes "dev") [] false piped []
      (codes "r") (codes "k") (codes "k") [] args raw start refl seals refl reads_x refl

unlock-state_example :
    ((a : UnlockArgs) × (some args ≡ some a)
      × (k : Key) × Opened codec
          (open_key toy (codes "k"))
          solana_policy
          (open_key toy (codes "k") a.passphrase a.key_path disk).0
          start
          (unlock codec (open_key toy (codes "k")) solana_policy [] start).1
          (unlock codec (open_key toy (codes "k")) solana_policy [] start).0
          k)
    ⊎ Unopened codec
        (open_key toy (codes "k"))
        solana_policy
        []
        start
        (unlock codec (open_key toy (codes "k")) solana_policy [] start).1
        (unlock codec (open_key toy (codes "k")) solana_policy [] start).0
unlock-state_example = unlock-state codec (open_key toy (codes "k")) solana_policy [] start
