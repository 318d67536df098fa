-- ===== src/Token/Samples.antt =====
-- Concrete libraries for the runs of token/ and cmd/token: small tables, builders, and a wire that
-- carries only what a verify reads.
use flynn_extensions.Prelude.{ℕ, true, false, none, some, [], ◌∷◌, Bytes, replicate, codes}
use flynn_extensions.Prelude.Result.{Result, ok, err}
use flynn_extensions.Token.Atomic.{Builders, MintSpec}
use flynn_extensions.Token.Host.{RpcError, Wire}
use flynn_extensions.Token.Ledger.{
  Call, Reply, get_latest_blockhash, get_block_height, send_transaction, get_signature_statuses,
  get_account_info, get_genesis_hash, sign, blockhash_failed, unread,
}
use flynn_extensions.Token.Mint.{Sdk, Wallet}
use flynn_extensions.Token.Verify.{Fetched, fetch_failed, found, Programs, MintAccount}

abbrev pub account_in : Result RpcError Bytes → Fetched
account_in (ok body) = found (record { owner = body; account_data = replicate 82 0 })
account_in (err e) = fetch_failed

abbrev pub answer : (c : Call) → Result RpcError Bytes → Reply c
answer (get_latest_blockhash level) r = blockhash_failed
answer (get_block_height level) r = none
answer (send_transaction signatures message level) r = true
answer (get_signature_statuses asked) r = unread
answer (get_account_info account level) r = account_in r
answer get_genesis_hash r = none
answer (sign message) r = none

abbrev pub wire : Wire
wire = record {
  marshal_request = λ id c. some (id ∷ []);
  unmarshal_response = λ body. some (record { error = none; result = body });
  answer = answer;
}

abbrev pub minted_account : MintAccount
minted_account = record {
  is_initialized = true;
  decimals = 2;
  supply = 500;
  mint_authority = none;
  freeze_authority = none;
}

abbrev pub programs : Programs
programs = record {
  token_2022 = 5 ∷ [];
  spl_token = 4 ∷ [];
  decode_mint = λ d. some minted_account;
}

abbrev pub builders : Builders ℕ
builders = record {
  metadata_program = 1 ∷ [];
  system_program = 2 ∷ [];
  sysvar_instructions = 3 ∷ [];
  token_program = 4 ∷ [];
  find_program_address = λ seeds program. some (11 ∷ []);
  find_associated_token_address = λ wallet mint. some (12 ∷ []);
  new_instruction = λ program accounts data_. 0;
  create_idempotent = λ payer wallet mint. some 1;
  mint_to = λ amount mint dest authority. some 2;
  set_authority = λ kind mint authority. some 3;
}

-- Tables that leave every rune alone, and a library whose transactions need the payer and the mint.
abbrev pub sdk : Sdk ℕ
sdk = record {
  unicode = record { is_format = λ r. false; to_lower = λ r. r };
  runes = λ t. t;
  parse_url = λ u. none;
  builders = builders;
  new_transaction = λ ixs hash payer.
      some (record {
        fee_payer = payer;
        more_signers = (3 ∷ []) ∷ [];
        marshalled = some (1 ∷ 2 ∷ []);
      });
  programs = programs;
  squads_program = 6 ∷ [];
}

abbrev pub wallet : Wallet
wallet = record { wallet_key = 3 ∷ []; wallet_sign = λ m. some (6 ∷ m) }

abbrev pub spec : Bytes → MintSpec
spec name = record {
  name = name;
  symbol = codes "acm";
  metadata_uri = codes "ipfs://x";
  decimals = 2;
  supply = 5;
  treasury = 8 ∷ [];
}
