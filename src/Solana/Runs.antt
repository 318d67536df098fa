-- ===== src/Solana/Runs.antt =====
-- Runs of the parser and of the policy, and their theorems at concrete messages.
use flynn_extensions.Prelude.{
  ℕ, ◌<◌, ◌≤◌, ◌≡◌, ◌↔◌, refl, [], ◌∷◌, ◌++◌, map, replicate, All, arith, Bytes, IsByte, length,
  equal,
}
use flynn_extensions.Prelude.Result.{Result, ok, err}
use flynn_extensions.Solana.Reader.{
  ◌>>=◌, within, remaining, take, byte, compact_loop, compact_u16, read_each, truncated,
  non_canonical,
}
use flynn_extensions.Solana.Reader.Length.{compact}
use flynn_extensions.Solana.Message.{
  Message, program_of, parse_message, read_body, read_message, read_account, read_instruction,
  versioned, trailing,
}
use flynn_extensions.Solana.Message.Wire.{
  WireInstruction, WireMessage, FitsMessage, encode_instruction, encode, view,
}
use flynn_extensions.Solana.Message.Exact.{parse_message_iff}
use flynn_extensions.Solana.Base58.{must_addr, base58_decode, index_from, multiply, flush}
use flynn_extensions.Solana.Base58.Value.{symbol, big_from, digits_from, base58_decode-value}
use flynn_extensions.Solana.Policy.{
  Solana, system_program, token_program, ata_program, metadata_program, approve, little_u32,
  approve_token, mint_not_revoked, wrong_payer, unreadable, approve_system, PolicyError,
}
use flynn_extensions.Solana.Policy.Uses.{MayBeSigned, token_program-length}
use flynn_extensions.Solana.Policy.Exact.{approve_iff}

abbrev pub key : Bytes
key = replicate 32 7

abbrev pub mint_key : Bytes
mint_key = replicate 32 9

abbrev other_mint : Bytes
other_mint = replicate 32 11

abbrev call : ℕ → Bytes → Bytes → WireInstruction
call p accounts bytes = record { program_index = p; account_indexes = accounts; ix_data = bytes }

-- A mint of `mint_key` (account 1), and the two revocations over the account `revoked`.
abbrev pub mint_message : ℕ → WireMessage
mint_message revoked = record {
  num_required_signatures = 1;
  num_readonly_signed = 0;
  num_readonly_unsigned = 1;
  accounts = key ∷ mint_key ∷ other_mint ∷ token_program ∷ [];
  recent_blockhash = replicate 32 5;
  instructions =
      call 3 (1 ∷ 2 ∷ 0 ∷ []) (7 ∷ 1 ∷ 0 ∷ [])
      ∷ call 3 (revoked ∷ 0 ∷ []) (6 ∷ 1 ∷ 0 ∷ [])
      ∷ call 3 (revoked ∷ 0 ∷ []) (6 ∷ 0 ∷ 0 ∷ [])
      ∷ [];
}

abbrev pub policy : Solana
policy = record { payer = key }

mint_message-Fits : (revoked : ℕ) → FitsMessage (mint_message revoked)
mint_message-Fits revoked = record {
  legacy = omega arith;
  accounts_fit = omega arith;
  addresses = (refl, (refl, (refl, (token_program-length, tt))));
  hash_fits = refl;
  instructions_fit = omega arith;
  each_fits = (
    record { index_fits = omega arith; data_fits = omega arith },
    (
      record { index_fits = omega arith; data_fits = omega arith },
      (record { index_fits = omega arith; data_fits = omega arith }, tt),
    ),
  );
}

-- `approve`, with all that a run of it computes.
unfoldable approve_run : Solana → Bytes → Result PolicyError (Unit {0})
unfolding approve program_of parse_message encode compact encode_instruction token_program
    system_program ata_program metadata_program must_addr base58_decode index_from multiply flush
    read_body read_message read_account read_instruction ◌>>=◌ within remaining take byte
    compact_loop compact_u16 read_each little_u32 approve_token approve_system equal
approve_run p b = approve p b

pub approves : approve policy (encode (mint_message 1)) ≡ ok tt
unfolding approve_run
approves = refl

-- The message is small enough to be signed.
pub encode-size :
    (0 < length (encode (mint_message 1))) × (length (encode (mint_message 1)) ≤ 65536)
unfolding approve_run
encode-size = (omega arith, omega arith)

-- The mint without its revocations, a versioned message, and bytes behind the message.
abbrev bare_mint : WireMessage
bare_mint = record (mint_message 1) { instructions = call 3 (1 ∷ []) (7 ∷ 1 ∷ 0 ∷ []) ∷ [] }

refuses :
    (approve policy (encode bare_mint) ≡ err mint_not_revoked)
    × (approve policy (128 ∷ []) ≡ err (unreadable versioned))
    × (approve policy (encode (mint_message 1) ++ 0 ∷ []) ≡ err (unreadable (trailing 1)))
    × (approve (record { payer = mint_key }) (encode bare_mint) ≡ err wrong_payer)
unfolding approve_run
refuses = (refl, refl, refl, refl)

lengths :
    (compact_u16 (record { b = 0x80 ∷ 0 ∷ []; off = 0 }) ≡ err non_canonical)
    × (compact_u16 (record { b = 0x80 ∷ []; off = 0 }) ≡ err truncated)
    × (compact_u16 (record { b = 0xff ∷ 0xff ∷ 3 ∷ []; off = 0 })
        ≡ ok (65535, record { b = 0xff ∷ 0xff ∷ 3 ∷ []; off = 3 }))
unfolding approve_run
lengths = (refl, refl, refl)

IsByte-mint_message : (revoked : ℕ) → revoked < 3 → All IsByte (encode (mint_message revoked))
unfolding approve_run
IsByte-mint_message revoked h = omega arith

parse_message_iff_example :
    (parse_message (encode (mint_message 1)) ≡ ok (view (mint_message 1))) ↔ (
      (w : WireMessage) × FitsMessage w
      × (view (mint_message 1) ≡ view w)
      × (encode (mint_message 1) ≡ encode w))
parse_message_iff_example =
    parse_message_iff (encode (mint_message 1)) (view (mint_message 1))
      (IsByte-mint_message 1 (omega arith))

approve_iff_example :
    (approve policy (encode (mint_message 1)) ≡ ok tt)
    ↔ ((m : Message) × (parse_message (encode (mint_message 1)) ≡ ok m) × MayBeSigned key m)
approve_iff_example = approve_iff policy (encode (mint_message 1))

-- The authorities of account 2 are revoked, and the mint of account 1 is not: it is approved as well.
base58_decode-value_example :
    (b : Bytes) × (base58_decode (map symbol (0 ∷ 57 ∷ 1 ∷ [])) ≡ ok b)
    × (big_from 0 b ≡ digits_from 0 (0 ∷ 57 ∷ 1 ∷ []))
    × All IsByte b
base58_decode-value_example = base58_decode-value (0 ∷ 57 ∷ 1 ∷ []) (omega arith)
