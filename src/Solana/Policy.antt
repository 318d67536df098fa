-- ===== src/Solana/Policy.antt =====
-- solana/solana.go: what the Solana key may sign. A refusal is an error of the class `ErrRefused`, so
-- every `PolicyError` is one; the texts are not kept, but each return of an error has a constructor.
pub mod Uses
pub mod Steps
pub mod Exact
use flynn_extensions.Prelude.{
  ℕ, ◌+◌, ◌*◌, ◌^◌, ltb, ◌==◌, ◌||◌, not, if◌then◌else◌, Option, none, some, List, [], ◌∷◌, length,
  Bytes, codes, equal,
}
use flynn_extensions.Prelude.{take as first}
use flynn_extensions.Prelude.Result.{Result, ok, err, ◌>>=◌, ◌>>◌, wrap}
use flynn_extensions.Solana.Message.{MessageError, Instruction, Message, program_of, parse_message}
use flynn_extensions.Solana.Base58.{must_addr}

pub data InstructionError : Type 0 where
  no_discriminator system_transfer_refused other_system : InstructionError
  empty_token malformed_set_authority new_authority other_authority other_token : InstructionError
  program : MessageError → InstructionError

pub data PolicyError : Type 0 where
  unreadable : MessageError → PolicyError
  no_accounts wrong_payer mint_not_revoked freeze_not_revoked : PolicyError
  instruction : ℕ → InstructionError → PolicyError
  not_granted : ℕ → PolicyError

-- The policy: `Payer` is the only field of the struct.
pub record Solana : Type 0 where
  pub payer : Bytes

-- The package does not start if one of its addresses does not decode, so `[]` is never compared.
abbrev address : Option Bytes → Bytes
address none = []
address (some a) = a

unfoldable pub system_program : Bytes
system_program = address (must_addr (codes "11111111111111111111111111111111"))

unfoldable pub token_program : Bytes
token_program = address (must_addr (codes "TokenkegQfeZyiNwAJbNbGKPFXCWuBvf9Ss623VQ5DA"))

unfoldable pub ata_program : Bytes
ata_program = address (must_addr (codes "ATokenGPvbdGVxr1b2hvZbsiqW5xWH25efTNsLJA8knL"))

unfoldable pub metadata_program : Bytes
metadata_program = address (must_addr (codes "metaqbxxUerdq28cj1RbAWkYQm3ybzjb6a8bt518x1s"))

abbrev pub spl_mint_to : ℕ
spl_mint_to = 7

abbrev pub spl_set_authority : ℕ
spl_set_authority = 6

abbrev pub authority_mint_tokens : ℕ
authority_mint_tokens = 0

abbrev pub authority_freeze_accnt : ℕ
authority_freeze_accnt = 1

abbrev pub system_transfer : ℕ
system_transfer = 2

abbrev pub system_create_account : ℕ
system_create_account = 0

abbrev pub system_transfer_with_seed : ℕ
system_transfer_with_seed = 11

-- `binary.LittleEndian.Uint32`
unfoldable pub little_u32 : Bytes → ℕ
little_u32 (a ∷ b ∷ c ∷ d ∷ rest) = a + b * 2 ^ 8 + c * 2 ^ 16 + d * 2 ^ 24
little_u32 _ = 0

unfoldable pub approve_system : Bytes → Result InstructionError (Unit {0})
unfolding little_u32
approve_system d =
    if ltb (length d) 4
    then err no_discriminator
    else let kind = little_u32 (first 4 d) in
      if kind == system_create_account
      then ok tt
      else if kind == system_transfer || kind == system_transfer_with_seed
      then err system_transfer_refused
      else err other_system

pub data TokenKind : Type 0 where
  other mint_to revoke_mint revoke_freeze : TokenKind

-- `case splSetAuthority`, on what follows the first byte.
set_authority : Bytes → Result InstructionError TokenKind
set_authority (kind ∷ new_key ∷ rest) =
    if not (new_key == 0)
    then err new_authority
    else if kind == authority_mint_tokens
    then ok revoke_mint
    else if kind == authority_freeze_accnt
    then ok revoke_freeze
    else err other_authority
set_authority _ = err malformed_set_authority

unfoldable pub approve_token : Bytes → Result InstructionError TokenKind
unfolding set_authority
approve_token [] = err empty_token
approve_token (x ∷ rest) =
    if x == spl_mint_to
    then ok mint_to
    else if x == spl_set_authority
    then set_authority rest
    else err other_token

pub record Counts : Type 0 where
  pub mints : ℕ
  pub revoked_mint : ℕ
  pub revoked_freeze : ℕ

abbrev pub count_kind : TokenKind → Counts → Counts
count_kind mint_to c = record c { mints = c.mints + 1 }
count_kind revoke_mint c = record c { revoked_mint = c.revoked_mint + 1 }
count_kind revoke_freeze c = record c { revoked_freeze = c.revoked_freeze + 1 }
count_kind other c = c

-- The switch on the program, in the source's order.
pub approve_program : ℕ → Bytes → Bytes → Counts → Result PolicyError Counts
approve_program i prog d c =
    if equal prog system_program
    then (do wrap (instruction i) (approve_system d); ok c)
    else if equal prog token_program
    then (do kind ← wrap (instruction i) (approve_token d); ok (count_kind kind c))
    else if equal prog ata_program || equal prog metadata_program
    then ok c
    else err (not_granted i)

-- The body of the loop over the instructions.
pub approve_instruction : Message → ℕ → Instruction → Counts → Result PolicyError Counts
unfolding approve_program
approve_instruction m i ix c = do
  prog ← wrap (λ e. instruction i (program e)) (program_of m ix)
  approve_program i prog ix.ix_data c

pub approve_each : Message → ℕ → List Instruction → Counts → Result PolicyError Counts
approve_each m i [] c = ok c
approve_each m i (ix ∷ ixs) c = do c' ← approve_instruction m i ix c; approve_each m (i + 1) ixs c'

-- A message that mints revokes both authorities.
pub check_revoked : Counts → Result PolicyError (Unit {0})
check_revoked c =
    if ltb 0 c.mints
    then (if ltb c.revoked_mint 1
        then err mint_not_revoked
        else if ltb c.revoked_freeze 1
        then err freeze_not_revoked
        else ok tt)
    else ok tt

abbrev pub no_counts : Counts
no_counts = record { mints = 0; revoked_mint = 0; revoked_freeze = 0 }

approve_payer : Bytes → List Bytes → Result PolicyError (Unit {0})
approve_payer payer [] = err no_accounts
approve_payer payer (a ∷ accounts) = if not (equal a payer) then err wrong_payer else ok tt

unfoldable pub approve_message : Solana → Message → Result PolicyError (Unit {0})
unfolding approve_payer approve_each approve_instruction check_revoked
approve_message p m = do
  approve_payer p.payer m.accounts
  c ← approve_each m 0 m.instructions no_counts
  check_revoked c

unfoldable pub approve : Solana → Bytes → Result PolicyError (Unit {0})
unfolding approve_message
approve p payload = do msg ← wrap unreadable (parse_message payload); approve_message p msg

-- `BindKey`
unfoldable pub bind_key : Solana → Bytes → Solana
bind_key p pub_key = record p { payer = pub_key }
