-- ===== src/Token/Atomic.antt =====
-- token/atomic.go, `buildMint`, and `metadataPDA` of token/engine.go: the instructions of the one
-- transaction that makes a token. solana-go's addresses, derivations and builders are the fields of a
-- `Builders`; an instruction is whatever they build.
mod Runs
pub mod Assembled
pub mod Finished
use flynn_extensions.Prelude.{ℕ, Bool, true, false, Option, none, some, List, [], ◌∷◌, Bytes, codes}
use flynn_extensions.Prelude.Result.{Result, ok, err, ◌>>=◌, wrap}
use flynn_extensions.Token.Amount.{AmountError, scaled_amount}
use flynn_extensions.Token.Create.{create_v1_data}

-- `solana.Meta(key)`, with `.WRITE()` and `.SIGNER()`.
pub record AccountMeta : Type 0 where
  pub key : Bytes
  pub is_writable : Bool
  pub is_signer : Bool

abbrev pub meta : Bytes → AccountMeta
meta k = record { key = k; is_writable = false; is_signer = false }

abbrev pub write : AccountMeta → AccountMeta
write m = record m { is_writable = true }

abbrev pub signer : AccountMeta → AccountMeta
signer m = record m { is_signer = true }

-- `token.AuthorityType`, the two that are set.
pub data Authority : Type 0 where
  freeze_account mint_tokens : Authority

-- The builders fail on what `ValidateAndBuild` refuses. Of the builder of a set-authority, the new
-- authority is never set.
pub record Builders (Ix : Type 0) : Type 0 where
  pub metadata_program : Bytes
  pub system_program : Bytes
  pub sysvar_instructions : Bytes
  pub token_program : Bytes
  pub find_program_address : List Bytes → Bytes → Option Bytes
  pub find_associated_token_address : Bytes → Bytes → Option Bytes
  pub new_instruction : Bytes → List AccountMeta → Bytes → Ix
  pub create_idempotent : Bytes → Bytes → Bytes → Option Ix
  pub mint_to : ℕ → Bytes → Bytes → Bytes → Option Ix
  pub set_authority : Authority → Bytes → Bytes → Option Ix

pub data BuildError : Type 0 where
  metadata_pda_failed derive_ata build_create_ata : BuildError
  amount_overflow : AmountError → BuildError
  build_mint_to build_revoke_freeze build_set_authority : BuildError

-- `MintSpec`
pub record MintSpec : Type 0 where
  pub name : Bytes
  pub symbol : Bytes
  pub metadata_uri : Bytes
  pub decimals : ℕ
  pub supply : ℕ
  pub treasury : Bytes

-- `if err != nil`, for an error that carries nothing.
abbrev pub or_fail {ℓ} : {A : Type ℓ} → BuildError → Option A → Result BuildError A
or_fail e none = err e
or_fail e (some a) = ok a

module _ {Ix : Type 0} (b : Builders Ix) where
  abbrev pub metadata_pda : Bytes → Option Bytes
  metadata_pda mint =
      b.find_program_address (codes "metadata" ∷ b.metadata_program ∷ mint ∷ []) b.metadata_program

  -- The accounts of the Create, in the order that the program expects.
  abbrev pub create_accounts : Bytes → Bytes → Bytes → Bytes → List AccountMeta
  create_accounts metadata mint payer treasury =
      write (meta metadata)
      ∷ meta b.metadata_program
      ∷ signer (write (meta mint))
      ∷ signer (meta payer)
      ∷ signer (write (meta payer))
      ∷ meta treasury
      ∷ meta b.system_program
      ∷ meta b.sysvar_instructions
      ∷ meta b.token_program
      ∷ []

  abbrev pub create : Bytes → Bytes → Bytes → Bytes → MintSpec → Ix
  create metadata mint payer treasury s =
      b.new_instruction b.metadata_program (create_accounts metadata mint payer treasury)
        (create_v1_data s.name s.symbol s.metadata_uri s.decimals)

  unfoldable pub build_mint : Bytes → Bytes → Bytes → MintSpec → Result BuildError (List Ix)
  build_mint payer mint treasury s = do
    metadata ← or_fail metadata_pda_failed (metadata_pda mint)
    dest ← or_fail derive_ata (b.find_associated_token_address treasury mint)
    create_ata ← or_fail build_create_ata (b.create_idempotent payer treasury mint)
    amount ← wrap amount_overflow (scaled_amount s.supply s.decimals)
    mint_to ← or_fail build_mint_to (b.mint_to amount mint dest payer)
    revoke_freeze ← or_fail build_revoke_freeze (b.set_authority freeze_account mint payer)
    revoke_mint ← or_fail build_set_authority (b.set_authority mint_tokens mint payer)
    ok (
        create metadata mint payer treasury s
        ∷ create_ata
        ∷ mint_to
        ∷ revoke_freeze
        ∷ revoke_mint
        ∷ [])
