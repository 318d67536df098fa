-- ===== src/SolanaSigner.antt =====
-- cmd/solana-signer/main.go: the binary that holds the Solana key. Package flag is the record `Flags`,
-- and what a terminal or a pipe gives is a `Stdin`.
mod Runs
mod Toy
pub mod Unlock
pub mod RawKey
pub mod Sealed
use flynn_extensions.Prelude.{
  ℕ, suc, Bool, true, false, ltb, ◌==◌, ◌||◌, not, if◌then◌else◌, Option, none, some, List, [], ◌∷◌,
  length, Bytes, ◌+◌, codes, equal,
}
use mathlib.Core.List.{reverse}
use flynn_extensions.Prelude.Result.{Result, ok, err, ◌>>=◌, ◌>>◌, wrap}
use flynn_extensions.Prelude.Action.{Action}
use flynn_extensions.McpServer.{Transport}
use flynn_extensions.McpServer.Serve.{Turn, Served}
use flynn_extensions.Solana.Policy.{Solana, PolicyError}
use flynn_extensions.Signer.{
  Key, Opener, Codec, SignerError, State, NotServed, serve_signer, demand,
}
use flynn_extensions.Signer.Guard.{solana_policy}
use flynn_extensions.Signer.Custody.{
  Host, KeyError, private_key_size, open_ed25519_key, seal_ed25519_key,
}

-- An integer of Go, as encoding/json reads one.
pub data ℤ : Type 0 where
  pos negsuc : ℕ → ℤ

pub data CommandError : Type 0 where
  bad_flags no_sealed_key missing_flags passphrase_error empty_seal_passphrase : CommandError
  unreadable_key not_an_array : CommandError
  wrong_count out_of_range : ℕ → CommandError
  custody : KeyError → CommandError
  not_served : NotServed → CommandError

-- The check of one number, and the byte that it becomes.
pub raw_byte : ℕ → ℤ → Result CommandError ℕ
raw_byte i (negsuc n) = err (out_of_range i)
raw_byte i (pos n) = if ltb 255 n then err (out_of_range i) else ok n

pub raw_bytes : ℕ → List ℤ → Result CommandError Bytes
unfolding raw_byte
raw_bytes i [] = ok []
raw_bytes i (n ∷ ns) = do b ← raw_byte i n; bs ← raw_bytes (suc i) ns; ok (b ∷ bs)

-- `readRawKey`, from the numbers of the file on.
unfoldable pub raw_key : List ℤ → Result CommandError Bytes
unfolding raw_bytes
raw_key nums =
    if not (length nums == private_key_size)
    then err (wrong_count (length nums))
    else raw_bytes 0 nums

abbrev trim_line_end : Bytes → Bytes
trim_line_end [] = []
trim_line_end (b ∷ bs) = if b == 13 || b == 10 then trim_line_end bs else b ∷ bs

-- `strings.TrimRight(line, "\r\n")`
unfoldable pub trim_right : Bytes → Bytes
trim_right line = reverse (trim_line_end (reverse line))

pub data StdinError : Type 0 where
  eof read_failed : StdinError

-- Standard input: a terminal, from which package term reads a passphrase, or a stream, of which
-- `ReadString` gives what precedes a newline or an error.
pub record Stdin : Type 0 where
  pub is_terminal : Bool
  pub read_password : Option Bytes
  pub read_string : Bytes × Option StdinError

abbrev read_line : Bytes × Option StdinError → Option Bytes
read_line (line, none) = some (trim_right line)
read_line (line, some eof) = some (trim_right line)
read_line (line, some read_failed) = none

unfoldable pub read_passphrase : Stdin → Option Bytes
read_passphrase i = if i.is_terminal then i.read_password else read_line i.read_string

-- `fs.Parse` in `serveWith`, with `--key`, and in `seal`, with `--in` and `--out`.
pub record Flags : Type 0 where
  pub parse_serve : List Bytes → Option Bytes
  pub parse_seal : List Bytes → Option (Bytes × Bytes)

-- What a command that ends without an error has done: it sealed a key, or it served.
pub data Ran (W : Type 0) : Type 0 where
  sealed : Ran W
  served : Served (State Solana W) → Ran W

module _ {W B G : Type 0} (h : Host W B G) where
  abbrev pub in_custody : {A : Type 0} → Result KeyError A × W → Result CommandError A × W
  in_custody (r, w) = (wrap custody r, w)

  -- The path of the flag wins over the host's.
  abbrev pub key_path : Bytes → Bytes → Bytes
  key_path [] from_host = from_host
  key_path (x ∷ xs) from_host = x ∷ xs

  abbrev open_path : Bytes → Bytes → Action W CommandError Key
  open_path passphrase [] w = (err no_sealed_key, w)
  open_path passphrase (x ∷ xs) w = in_custody (open_ed25519_key h (x ∷ xs) passphrase w)

  unfoldable pub open_key : Bytes → Opener W CommandError
  open_key flag passphrase from_host = open_path passphrase (key_path flag from_host)

  -- `serveWith`: the policy starts unbound.
  abbrev serve_with :
      Transport (SignerError PolicyError CommandError)
      → Codec
      → Bytes
      → Bytes
      → List Turn
      → Bool
      → W
      → Result NotServed (Served (State Solana W))
  serve_with t c version flag turns failed w =
      serve_signer t c (codes "solana-signer") version (some (open_key flag))
        (some (solana_policy, record { payer = [] })) turns failed w

  abbrev seal_to : Bytes → Bytes → Option Bytes → W → Result CommandError (Unit {0}) × W
  seal_to out priv none w = (err passphrase_error, w)
  seal_to out priv (some []) w = (err empty_seal_passphrase, w)
  seal_to out priv (some (x ∷ xs)) w = in_custody (seal_ed25519_key h out priv (x ∷ xs) w)

  abbrev seal_raw :
      Bytes → Result CommandError Bytes → Option Bytes → W → Result CommandError (Unit {0}) × W
  seal_raw out (err e) pass w = (err e, w)
  seal_raw out (ok priv) pass w = seal_to out priv pass w

  -- The numbers of the file at `path`: `os.ReadFile` and `json.Unmarshal` into `[]int`.
  abbrev read_raw_key : (Bytes → Option (List ℤ)) → Option Bytes → Result CommandError Bytes
  read_raw_key unmarshal_ints none = err unreadable_key
  read_raw_key unmarshal_ints (some raw) = demand not_an_array (unmarshal_ints raw) >>= raw_key

  -- `seal`, with the texts of `--in` and `--out` and the passphrase that is read.
  unfoldable pub seal_key :
      (Bytes → Option (List ℤ))
      → Bytes
      → Bytes
      → Option Bytes
      → W
      → Result CommandError (Unit {0}) × W
  seal_key unmarshal_ints input out pass w =
      if (length input == 0) || (length out == 0)
      then (err missing_flags, w)
      else let (raw, w') = h.read_file input w in
        seal_raw out (read_raw_key unmarshal_ints raw) pass w'

  abbrev pub after_seal : Result CommandError (Unit {0}) × W → Result CommandError (Ran W) × W
  after_seal (err e, w) = (err e, w)
  after_seal (ok _, w) = (ok sealed, w)

  abbrev pub seal :
      (Bytes → Option (List ℤ))
      → Option (Bytes × Bytes)
      → Stdin
      → W
      → Result CommandError (Ran W) × W
  seal unmarshal_ints none stdin w = (err bad_flags, w)
  seal unmarshal_ints (some (input, out)) stdin w =
      after_seal (seal_key unmarshal_ints input out (read_passphrase stdin) w)

  abbrev after_serve :
      W → Result NotServed (Served (State Solana W)) → Result CommandError (Ran W) × W
  after_serve w (err e) = (err (not_served e), w)
  after_serve w (ok s) = (ok (served s), s.state.world)

  abbrev serve_command :
      Transport (SignerError PolicyError CommandError)
      → Codec
      → Bytes
      → Option Bytes
      → List Turn
      → Bool
      → W
      → Result CommandError (Ran W) × W
  serve_command t c version none turns failed w = (err bad_flags, w)
  serve_command t c version (some flag) turns failed w =
      after_serve w (serve_with t c version flag turns failed w)

  -- `run`: the operator's `seal`, or a signer that serves what its input yields.
  unfoldable pub run_command :
      Flags
      → (Bytes → Option (List ℤ))
      → Transport (SignerError PolicyError CommandError)
      → Codec
      → Bytes
      → List Turn
      → Bool
      → Stdin
      → List Bytes
      → W
      → Result CommandError (Ran W) × W
  run_command flags unmarshal_ints t c version turns failed stdin [] w =
      serve_command t c version (flags.parse_serve []) turns failed w
  run_command flags unmarshal_ints t c version turns failed stdin (a ∷ args) w =
      if equal a (codes "seal")
      then seal unmarshal_ints (flags.parse_seal args) stdin w
      else serve_command t c version (flags.parse_serve (a ∷ args)) turns failed w
