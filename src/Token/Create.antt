-- ===== src/Token/Create.antt =====
-- token/borsh.go, and `validateMetadata` of token/mint.go: the data of the instruction that creates a
-- mint with its metadata.
pub mod Read
use flynn_extensions.Prelude.{
  ℕ, ◌+◌, ◌*◌, ◌/◌, ◌%◌, ◌^◌, ◌≤◌, ◌<◌, ◌≡◌, ◌↔◌, refl, sym, ap, ◌∙◌, ltb, ◌==◌, ◌||◌,
  if◌then◌else◌, Option, none, some, List, [], ◌∷◌, ◌++◌, length, take, drop, arith, Bytes,
  append_assoc, take-append_self, drop-append_self,
}
use flynn_extensions.Prelude.Result.{Result, ok, err}

pub data MetadataError : Type 0 where
  bad_name bad_symbol bad_uri : ℕ → MetadataError

abbrev pub max_name_len : ℕ
max_name_len = 32

abbrev pub max_symbol_len : ℕ
max_symbol_len = 10

abbrev pub max_uri_len : ℕ
max_uri_len = 200

unfoldable pub validate_metadata : Bytes → Bytes → Bytes → Result MetadataError (Unit {0})
validate_metadata name symbol uri =
    if (length name == 0) || ltb max_name_len (length name)
    then err (bad_name (length name))
    else if (length symbol == 0) || ltb max_symbol_len (length symbol)
    then err (bad_symbol (length symbol))
    else if (length uri == 0) || ltb max_uri_len (length uri)
    then err (bad_uri (length uri))
    else ok tt

abbrev pub ix_create : ℕ
ix_create = 42

abbrev pub token_standard_fungible : ℕ
token_standard_fungible = 2

-- `binary.Write` of a uint32 and of a uint16; the conversion `uint32(len(s))` wraps around.
abbrev pub put_uint32 : ℕ → Bytes
put_uint32 n = n % 256 ∷ n / 2 ^ 8 % 256 ∷ n / 2 ^ 16 % 256 ∷ n / 2 ^ 24 % 256 ∷ []

abbrev pub put_uint16 : ℕ → Bytes
put_uint16 n = n % 256 ∷ n / 2 ^ 8 % 256 ∷ []

unfoldable pub borsh_string : Bytes → Bytes
borsh_string s = put_uint32 (length s % 2 ^ 32) ++ s

-- What follows the three strings.
abbrev pub create_tail : ℕ → Bytes
create_tail decimals =
    put_uint16 0
    ++ (0 ∷ 0 ∷ 0 ∷ token_standard_fungible ∷ 0 ∷ 0 ∷ 0 ∷ 0 ∷ [])
    ++ (1 ∷ decimals ∷ [])
    ++ (0 ∷ [])

unfoldable pub create_v1_data : Bytes → Bytes → Bytes → ℕ → Bytes
create_v1_data name symbol uri decimals =
    ix_create
    ∷ 0
    ∷ (borsh_string name ++ (borsh_string symbol ++ (borsh_string uri ++ create_tail decimals)))
