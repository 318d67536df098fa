-- ===== src/Solana/Message/Wire.antt =====
-- The wire form of a legacy message, written from the format at the top of solana/message.go: what
-- a message says in full, its bytes, and the part of it that `parseMessage` keeps.
use flynn_extensions.Prelude.{ℕ, ◌^◌, ◌<◌, ◌≡◌, List, ◌∷◌, ◌++◌, map, length, All, Bytes}
use flynn_extensions.Solana.Reader.Length.{compact}
use flynn_extensions.Solana.Reader.Each.{all_bytes}
use flynn_extensions.Solana.Message.{Instruction, Message, addr_len}

pub record WireInstruction : Type 0 where
  pub program_index : ℕ
  pub account_indexes : Bytes
  pub ix_data : Bytes

pub record WireMessage : Type 0 where
  pub num_required_signatures : ℕ
  pub num_readonly_signed : ℕ
  pub num_readonly_unsigned : ℕ
  pub accounts : List Bytes
  pub recent_blockhash : Bytes
  pub instructions : List WireInstruction

-- The addresses one after another, and the instructions.
abbrev pub IsAddress : Bytes → Type 0
IsAddress a = length a ≡ addr_len

abbrev pub concat : List Bytes → Bytes
concat = all_bytes (λ a. a) (λ a. a) IsAddress

-- The limits of the format.
pub record FitsInstruction (w : WireInstruction) : Type 0 where
  pub index_fits : length w.account_indexes < 2 ^ 16
  pub data_fits : length w.ix_data < 2 ^ 16

pub record FitsMessage (w : WireMessage) : Type 0 where
  pub legacy : w.num_required_signatures < 128
  pub accounts_fit : length w.accounts < 2 ^ 16
  pub addresses : All IsAddress w.accounts
  pub hash_fits : length w.recent_blockhash ≡ addr_len
  pub instructions_fit : length w.instructions < 2 ^ 16
  pub each_fits : All FitsInstruction w.instructions

abbrev pub view_instruction : WireInstruction → Instruction
view_instruction w = record { program_index = w.program_index; ix_data = w.ix_data }

unfoldable pub encode_instruction : WireInstruction → Bytes
encode_instruction w =
    w.program_index ∷ compact (length w.account_indexes)
    ++ (w.account_indexes ++ (compact (length w.ix_data) ++ w.ix_data))

abbrev pub all_instructions : List WireInstruction → Bytes
all_instructions = all_bytes view_instruction encode_instruction FitsInstruction

unfoldable pub encode : WireMessage → Bytes
unfolding encode_instruction
encode w =
    w.num_required_signatures
    ∷ w.num_readonly_signed
    ∷ w.num_readonly_unsigned
    ∷ (compact (length w.accounts)
        ++ (concat w.accounts
            ++ (w.recent_blockhash
                ++ (compact (length w.instructions) ++ all_instructions w.instructions))))

-- The header, the account indexes and the blockhash are not kept.
abbrev pub view : WireMessage → Message
view w = record { accounts = w.accounts; instructions = map view_instruction w.instructions }
