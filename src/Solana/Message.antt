-- ===== src/Solana/Message.antt =====
-- solana/message.go: the legacy Solana message, as the policy reads it.
pub mod Wire
pub mod Body
pub mod Exact
use flynn_extensions.Prelude.{
  ℕ, ◌+◌, leb, ltb, ◌==◌, not, bit_and, if◌then◌else◌, Option, none, some, List, [], ◌∷◌, ◌++◌,
  length, get_elem?, Bytes,
}
use flynn_extensions.Prelude.Result.{Result, ok, err}
use flynn_extensions.Solana.Reader.{
  ReadError, Reader, Read, pure, raise, ◌>>=◌, ◌>>◌, within, remaining, take, byte, compact_u16,
  read_each,
}

-- One constructor for each way that `parseMessage` or `programOf` fails; the number is the index of
-- the account or of the instruction, and the last argument the error that is wrapped.
pub data MessageError : Type 0 where
  empty_payload versioned no_such_program : MessageError
  header account_count blockhash instruction_count : ReadError → MessageError
  account program_index_of account_count_of accounts_of data_length_of data_of :
      ℕ → ReadError → MessageError
  trailing : ℕ → MessageError

abbrev pub addr_len : ℕ
addr_len = 32

-- `data` of the source is `ix_data`: `data` is a reserved word here.
pub record Instruction : Type 0 where
  pub program_index : ℕ
  pub ix_data : Bytes

pub record Message : Type 0 where
  pub accounts : List Bytes
  pub instructions : List Instruction

unfoldable pub program_of : Message → Instruction → Result MessageError Bytes
program_of m ix = elim (get_elem? m.accounts ix.program_index) [
  | none ↦ err no_such_program
  | some a ↦ ok a
]

unfoldable pub read_account : ℕ → Read MessageError Bytes
read_account i = within (account i) (take addr_len)

unfoldable pub read_instruction : ℕ → Read MessageError Instruction
read_instruction i = do
  prog_idx ← within (program_index_of i) byte
  n_accts ← within (account_count_of i) compact_u16
  within (accounts_of i) (take n_accts)
  n_data ← within (data_length_of i) compact_u16
  ix_data ← within (data_of i) (take n_data)
  pure (record { program_index = prog_idx; ix_data = ix_data })

no_trailing : Message → Read MessageError Message
no_trailing m r = if not (remaining r == 0) then err (trailing (remaining r)) else ok (m, r)

-- All of the message, up to where the payload should end.
unfoldable pub read_body : Read MessageError Message
read_body = do
  within header (take 3)
  n_accounts ← within account_count compact_u16
  accounts ← read_each read_account n_accounts 0 []
  within blockhash (take addr_len)
  n_ixs ← within instruction_count compact_u16
  instructions ← read_each read_instruction n_ixs 0 []
  pure (record { accounts = accounts; instructions = instructions })

unfoldable pub read_message : Read MessageError Message
unfolding no_trailing
read_message = do m ← read_body; no_trailing m

abbrev message_of : Result MessageError (Message × Reader) → Result MessageError Message
message_of (ok (m, r)) = ok m
message_of (err e) = err e

-- A versioned message sets the high bit of its first byte.
unfoldable pub parse_message : Bytes → Result MessageError Message
unfolding read_message
parse_message [] = err empty_payload
parse_message (x ∷ xs) =
    if not (bit_and x 0x80 == 0)
    then err versioned
    else message_of (read_message (record { b = x ∷ xs; off = 0 }))
