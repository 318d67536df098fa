-- ===== src/Token/Session/SignRuns.antt =====
-- A run of a mint session up to the message that its payer signs.
use flynn_extensions.Prelude.{
  ◌≤◌, ◌≡◌, refl, true, none, some, [], ◌∷◌, Bytes, length, replicate, equal, codes, arith,
}
use flynn_extensions.Prelude.Result.{Result, ok, err}
use flynn_extensions.Solana.Message.Wire.{encode, encode_instruction}
use flynn_extensions.Solana.Policy.{token_program, ata_program, metadata_program}
use flynn_extensions.Token.Amount.{scaled_amount, scale}
use flynn_extensions.Token.Atomic.{MintSpec, create, build_mint}
use flynn_extensions.Token.Create.{validate_metadata, create_v1_data, borsh_string}
use flynn_extensions.Token.Engine.{
  send, with_blockhash, authorize, authorize_message, sign_for, find_signer,
}
use flynn_extensions.Token.Host.{RpcError, SignRequest, HostReply, Wire, cross, call_for_into}
use flynn_extensions.Token.Impersonation.{
  is_kept, imitated, impersonation_target, protected_brands, brand_of, normalize, fold_rune,
  normalized_brands,
}
use flynn_extensions.Token.Ledger.{
  Latest, blockhash_failed, latest, get_latest_blockhash, get_block_height, send_transaction,
  get_signature_statuses, get_account_info, get_genesis_hash, sign, ◌>>=◌, Call, Reply, unread,
}
use flynn_extensions.Token.Mint.{
  Sdk, MintResult, treasury_of, find_network, content_addressed, has_prefix, check_spendable,
  submit_mint, fund, check_treasury, judge_plan, identify, mint,
}
use flynn_extensions.Token.Network.{new_cluster, resolve_network, live}
use flynn_extensions.Token.Safety.{
  guard, evaluate, violations, trim_space, trim_left, is_space, less,
}
use flynn_extensions.Token.Samples.{sdk, wire, wallet, spec, account_in}
use flynn_extensions.Token.Session.{Session, through_host, advance_session, start_mint}
use flynn_extensions.Token.Session.Signed.{Requests}
use flynn_extensions.Signer.{max_payload_bytes}
use flynn_extensions.Signer.Runs.{codec, signing_key, served}
use flynn_extensions.Solana.Reader.Length.{compact}
use flynn_extensions.Solana.Base58.{must_addr, base58_decode, index_from, multiply, flush}
use flynn_extensions.Token.Session.Library.{SampleIx, builders, compiled, new_transaction}
use flynn_extensions.Token.Session.Parked.{Reach, begins, goes}

abbrev pub real_sdk : Sdk SampleIx
real_sdk = record {
  unicode = sdk.unicode;
  runes = sdk.runes;
  parse_url = sdk.parse_url;
  builders = builders;
  new_transaction = new_transaction;
  programs = sdk.programs;
  squads_program = sdk.squads_program;
}

abbrev pub hash_in : Result RpcError Bytes → Latest
hash_in (ok body) = latest (replicate 32 5) 100
hash_in (err e) = blockhash_failed

abbrev pub blockhash_answer : (c : Call) → Result RpcError Bytes → Reply c
blockhash_answer (get_latest_blockhash level) r = hash_in r
blockhash_answer (get_block_height level) r = none
blockhash_answer (send_transaction signatures message level) r = true
blockhash_answer (get_signature_statuses asked) r = unread
blockhash_answer (get_account_info account level) r = account_in r
blockhash_answer get_genesis_hash r = none
blockhash_answer (sign message) r = none

abbrev pub hash_wire : Wire
hash_wire = record wire { answer = blockhash_answer }

abbrev pub payer : Bytes
payer = replicate 32 7

abbrev pub token : MintSpec
token = spec (codes "q")

abbrev reply : HostReply
reply = record { signature = []; body = 4 ∷ []; failure = none }

-- The genesis hash, the treasury and the blockhash have been asked for.
abbrev after : {T : Type 0} → Session T → Session T
after s = elim (advance_session reply s) [ ok n ↦ n | err e ↦ s ]

abbrev started : Session MintResult
started = start_mint hash_wire real_sdk payer wallet 1 token []

-- What the message carries.
abbrev pub request : SignRequest
request = record {
  pubkey = payer;
  message = encode (
      compiled
        (create builders (11 ∷ []) wallet.wallet_key payer (8 ∷ []) token
          ∷ record { program = ata_program; metas = []; bytes = 1 ∷ [] }
          ∷ record { program = token_program; metas = []; bytes = 7 ∷ [] }
          ∷ record { program = token_program; metas = []; bytes = 6 ∷ 1 ∷ 0 ∷ [] }
          ∷ record { program = token_program; metas = []; bytes = 6 ∷ 0 ∷ 0 ∷ [] }
          ∷ [])
        (replicate 32 5) payer);
}

abbrev waiting : Session MintResult
waiting = after (after (after started))

waits : waiting.pending ≡ some (record { sign_request = some request; fetch_request = none })
unfolding mint identify find_network judge_plan check_treasury fund submit_mint check_spendable
    treasury_of content_addressed has_prefix build_mint validate_metadata scaled_amount scale send
    with_blockhash authorize authorize_message sign_for find_signer ◌>>=◌ equal impersonation_target
    brand_of normalize fold_rune normalized_brands protected_brands is_kept imitated resolve_network
    live guard evaluate violations trim_space trim_left is_space less cross call_for_into
    through_host advance_session
waits = refl

reached :
    Reach (through_host hash_wire payer 0 (mint real_sdk payer wallet 1 token new_cluster)) waiting
unfolding mint identify find_network judge_plan check_treasury fund submit_mint check_spendable
    treasury_of content_addressed has_prefix build_mint validate_metadata scaled_amount scale send
    with_blockhash authorize authorize_message sign_for find_signer ◌>>=◌ equal impersonation_target
    brand_of normalize fold_rune normalized_brands protected_brands is_kept imitated resolve_network
    live guard evaluate violations trim_space trim_left is_space less cross call_for_into
    through_host advance_session
reached = goes reply (goes reply (goes reply begins refl) refl) refl

request-size : length request.message ≤ max_payload_bytes
unfolding encode compact encode_instruction create_v1_data borsh_string metadata_program
    token_program ata_program must_addr base58_decode index_from multiply flush
request-size = omega arith

pub asks :
    Requests codec payer served.state request.message request.message (length request.message ∷ [])
asks = record {
  key = signing_key;
  held = refl;
  of_payer = refl;
  args = request.message;
  read = refl;
  decoded = refl;
  few_bytes = request-size;
  sig = length request.message ∷ [];
  signed = refl;
  written = refl;
}
