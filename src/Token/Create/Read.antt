-- ===== src/Token/Create/Read.antt =====
-- token/borsh.go against an independent reader of the format: what the program on the chain gets.
use flynn_extensions.Prelude.{
  ℕ, not, ◌==◌, ◌&&◌, if◌then◌else◌, ◌+◌, ◌*◌, ◌/◌, ◌%◌, ◌^◌, ◌≤◌, ◌<◌, ◌≡◌, refl, Option, none,
  some, [], ◌∷◌, ◌++◌, length, length-append, take, drop, arith, Bytes, take-append_self,
  drop-append_self,
}
use flynn_extensions.Prelude.Result.{ok}
use flynn_extensions.Token.Create.{validate_metadata, borsh_string, create_v1_data, create_tail}

-- The arguments of `Create` as the chain reads them, an option's tag as a byte.
pub record CreateArgs : Type 0 where
  pub name : Bytes
  pub symbol : Bytes
  pub uri : Bytes
  pub seller_fee_basis_points : ℕ
  pub creators : ℕ
  pub primary_sale_happened : ℕ
  pub is_mutable : ℕ
  pub token_standard : ℕ
  pub collection : ℕ
  pub uses : ℕ
  pub collection_details : ℕ
  pub rule_set : ℕ
  pub decimals : ℕ
  pub print_supply : ℕ

-- A length in four bytes, the least one first, then the bytes.
pub read_string : Bytes → Option (Bytes × Bytes)
read_string (a ∷ b ∷ c ∷ d ∷ rest) =
    let n = a + b * 2 ^ 8 + c * 2 ^ 16 + d * 2 ^ 24 in some (take n rest, drop n rest)
read_string _ = none

abbrev pub bind : {A B : Type 0} → Option A → (A → Option B) → Option B
bind none f = none
bind (some a) f = f a

abbrev pub read_rest : Bytes → Bytes → Bytes → Bytes → Option CreateArgs
read_rest name symbol uri
      (f₀ ∷ f₁ ∷ creators ∷ sale ∷ mutable ∷ standard ∷ collection ∷ uses ∷ details ∷ rules ∷ given
        ∷ decimals ∷ print ∷ []) =
    if not (given == 1)
    then none
    else some (record {
      name = name;
      symbol = symbol;
      uri = uri;
      seller_fee_basis_points = f₀ + f₁ * 2 ^ 8;
      creators = creators;
      primary_sale_happened = sale;
      is_mutable = mutable;
      token_standard = standard;
      collection = collection;
      uses = uses;
      collection_details = details;
      rule_set = rules;
      decimals = decimals;
      print_supply = print;
    })
read_rest name symbol uri _ = none

pub read_create : Bytes → Option CreateArgs
read_create (kind ∷ variant ∷ rest) =
    if not (kind == 42 && variant == 0)
    then none
    else bind (read_string rest) (λ (name, rest₁). bind (read_string rest₁) (λ (symbol, rest₂).
      bind (read_string rest₂) (λ (uri, rest₃). read_rest name symbol uri rest₃)))
read_create _ = none

whole :
    (n : ℕ)
    → n < 2 ^ 32
    → n % 2 ^ 32 % 256
        + n % 2 ^ 32 / 2 ^ 8 % 256 * 2 ^ 8
        + n % 2 ^ 32 / 2 ^ 16 % 256 * 2 ^ 16
        + n % 2 ^ 32 / 2 ^ 24 % 256 * 2 ^ 24
      ≡ n
whole n h = omega arith

read_string-borsh_string :
    (s rest : Bytes) → length s < 2 ^ 32 → read_string (borsh_string s ++ rest) ≡ some (s, rest)
unfolding borsh_string read_string
read_string-borsh_string s rest fits =
    rw (whole (length s) fits, take-append_self s rest, drop-append_self s rest) refl

-- The texts that `validateMetadata` lets pass are 32, 10 and 200 bytes at most.
pub validate_metadata-bounds :
    (name symbol uri : Bytes)
    → validate_metadata name symbol uri ≡ ok tt
    → (length name ≤ 32) × (length symbol ≤ 10) × (length uri ≤ 200)
unfolding validate_metadata
validate_metadata-bounds name symbol uri h = (ground arith, ground arith, ground arith)

-- The data of `Create` for texts that `validateMetadata` lets pass is read back as these texts and
-- decimals, with no fee, no creators, immutable, fungible, and every other option absent.
pub read_create-create_v1_data :
    (name symbol uri : Bytes) (decimals : ℕ)
    → validate_metadata name symbol uri ≡ ok tt
    → read_create (create_v1_data name symbol uri decimals)
      ≡ some (record {
        name = name;
        symbol = symbol;
        uri = uri;
        seller_fee_basis_points = 0;
        creators = 0;
        primary_sale_happened = 0;
        is_mutable = 0;
        token_standard = 2;
        collection = 0;
        uses = 0;
        collection_details = 0;
        rule_set = 0;
        decimals = decimals;
        print_supply = 0;
      })
unfolding read_create create_v1_data
read_create-create_v1_data name symbol uri decimals valid =
    let (n, s, u) = validate_metadata-bounds name symbol uri valid in
    rw
      (
        read_string-borsh_string name
            (borsh_string symbol ++ (borsh_string uri ++ create_tail decimals)) (omega arith),
        read_string-borsh_string symbol (borsh_string uri ++ create_tail decimals) (omega arith),
        read_string-borsh_string uri (create_tail decimals) (omega arith),
      )
      refl

length-borsh_string : (s : Bytes) → length (borsh_string s) ≡ length s + 4
unfolding borsh_string
length-borsh_string s = omega arith

validate_metadata_bounds :
    (name symbol uri : Bytes)
    → validate_metadata name symbol uri ≡ ok tt
    → (length name ≤ 32) × (length symbol ≤ 10) × (length uri ≤ 200)
unfolding validate_metadata
validate_metadata_bounds name symbol uri h = ground arith

-- The data of a token whose metadata are in their limits fit into a message.
pub create_v1_data-short :
    (name symbol uri : Bytes) (decimals : ℕ)
    → validate_metadata name symbol uri ≡ ok tt
    → length (create_v1_data name symbol uri decimals) < 2 ^ 16
unfolding create_v1_data
create_v1_data-short name symbol uri decimals h = omega (
  arith,
  validate_metadata_bounds name symbol uri h,
  length-append (borsh_string name)
      (borsh_string symbol ++ (borsh_string uri ++ create_tail decimals)),
  length-append (borsh_string symbol) (borsh_string uri ++ create_tail decimals),
  length-append (borsh_string uri) (create_tail decimals),
  length-borsh_string name,
  length-borsh_string symbol,
  length-borsh_string uri,
)
