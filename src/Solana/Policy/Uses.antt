-- ===== src/Solana/Policy/Uses.antt =====
-- What the key is granted for, said of the message and not by the code: each instruction is one of
-- six uses of it, and a message that mints also revokes both authorities.
use flynn_extensions.Prelude.{ℕ, ◌+◌, ◌<◌, ◌≡◌, refl, length, some, List, [], ◌∷◌, Bytes, get_elem?}
use flynn_extensions.Solana.Base58.{must_addr, base58_decode, index_from, multiply, flush}
use flynn_extensions.Solana.Message.{Instruction, Message}
use flynn_extensions.Solana.Policy.{system_program, token_program, ata_program, metadata_program}

pub data Use : Type 0 where
  creates_account mints revokes_mint revokes_freeze writes_account : Use

-- A call of `prog` with the data `d` is the use `u`: the data starts as shown.
pub data Grants (prog d : Bytes) : Use → Type 0 where
  create_account :
      (rest : Bytes)
      → prog ≡ system_program
      → d ≡ 0 ∷ 0 ∷ 0 ∷ 0 ∷ rest
      → Grants prog d creates_account
  mint_to : (rest : Bytes) → prog ≡ token_program → d ≡ 7 ∷ rest → Grants prog d mints
  revoke_mint :
      (rest : Bytes) → prog ≡ token_program → d ≡ 6 ∷ 0 ∷ 0 ∷ rest → Grants prog d revokes_mint
  revoke_freeze :
      (rest : Bytes) → prog ≡ token_program → d ≡ 6 ∷ 1 ∷ 0 ∷ rest → Grants prog d revokes_freeze
  token_account : prog ≡ ata_program → Grants prog d writes_account
  metadata : prog ≡ metadata_program → Grants prog d writes_account

-- The instruction names a program of the message, and is that use of it.
pub record UsedAs (m : Message) (ix : Instruction) (u : Use) : Type 0 where
  pub prog : Bytes
  pub named : get_elem? m.accounts ix.program_index ≡ some prog
  pub grants : Grants prog ix.ix_data u

abbrev pub AllUsedAs : Message → List Instruction → List Use → Type 0
AllUsedAs m [] [] = Unit
AllUsedAs m (ix ∷ ixs) (u ∷ us) = UsedAs m ix u × AllUsedAs m ixs us
AllUsedAs m _ _ = ⊥

-- How often a use occurs.
abbrev pub same_use : Use → Use → ℕ
same_use creates_account creates_account = 1
same_use mints mints = 1
same_use revokes_mint revokes_mint = 1
same_use revokes_freeze revokes_freeze = 1
same_use writes_account writes_account = 1
same_use _ _ = 0

unfoldable pub uses : Use → List Use → ℕ
uses u [] = 0
uses u (v ∷ us) = same_use u v + uses u us

-- The message is paid by `payer`, its instructions are the uses `us`, and if it mints it revokes the
-- mint authority and the freeze authority.
pub record MayBeSigned (payer : Bytes) (m : Message) : Type 0 where
  pub others : List Bytes
  pub paid : m.accounts ≡ payer ∷ others
  pub us : List Use
  pub used : AllUsedAs m m.instructions us
  pub revoked : 0 < uses mints us → (0 < uses revokes_mint us) × (0 < uses revokes_freeze us)

pub metadata_program-length : length metadata_program ≡ 32
unfolding metadata_program must_addr base58_decode index_from multiply flush
metadata_program-length = refl

pub token_program-length : length token_program ≡ 32
unfolding token_program must_addr base58_decode index_from multiply flush
token_program-length = refl

pub ata_program-length : length ata_program ≡ 32
unfolding ata_program must_addr base58_decode index_from multiply flush
ata_program-length = refl
