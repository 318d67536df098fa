-- ===== src/TokenCommand/ServerRuns.antt =====
-- Runs of the server of the token tools: a mint up to the message that a host is told to sign, and a
-- verify up to its report.
use flynn_extensions.Prelude.{
  Bool-cases, inl, inr, ℕ, ◌≡◌, if◌then◌else◌, refl, false, true, none, Option, some, List, [], ◌∷◌,
  ◌++◌, Bytes, codes, equal, length, replicate,
}
use flynn_extensions.Prelude.Result.{Result, ok}
use flynn_extensions.McpServer.{
  Call, Transport, dispatch, dispatch_request, dispatch_method, call_result, lookup, register, put,
}
use flynn_extensions.McpServer.Serve.{Turn, serve}
use flynn_extensions.Signer.{sign_payload}
use flynn_extensions.Signer.Guard.{solana_policy}
use flynn_extensions.Signer.Runs.{
  codec, transport as signer_transport, open_it, unbound, unlock_turn, served as signer,
  run_unlocked,
}
use flynn_extensions.Token.Amount.{scaled_amount, scale}
use flynn_extensions.Token.Atomic.{build_mint}
use flynn_extensions.Token.Create.{validate_metadata}
use flynn_extensions.Token.Engine.{
  send, zero_signature, with_blockhash, authorize, authorize_message, sign_for, find_signer,
}
use flynn_extensions.Token.Host.{HostReply, cross, call_for_into}
use flynn_extensions.Token.Impersonation.{
  is_kept, imitated, impersonation_target, protected_brands, brand_of, normalize, fold_rune,
  normalized_brands,
}
use flynn_extensions.Token.Ledger.{◌>>=◌}
use flynn_extensions.Token.Mint.{
  MintResult, treasury_of, find_network, content_addressed, has_prefix, check_spendable,
  submit_mint, fund, check_treasury, judge_plan, identify, mint,
}
use flynn_extensions.Token.Network.{resolve_network, live}
use flynn_extensions.Token.Safety.{
  guard, evaluate, violations, trim_space, trim_left, is_space, less,
}
use flynn_extensions.Token.Samples.{programs, wallet}
use flynn_extensions.Token.Session.{Session, start_verify, through_host, advance_session}
use flynn_extensions.Token.Session.Library.{methods, library}
use flynn_extensions.Token.Session.SignRuns.{real_sdk, hash_wire, payer, request, asks}
use flynn_extensions.Token.Verify.{VerifyError, MintState}
use flynn_extensions.TokenCommand.{
  ResumeArgs, VerifyArgs, Texts, ToolError, Answer, sign_answer, Registry, get, find, delete,
  reply_of, pending_reply, render, handle,
}
use flynn_extensions.TokenCommand.Extension.{extension, call_mint, main}
use flynn_extensions.TokenCommand.Granted.{Names, Granted, main-Granted}
use flynn_extensions.TokenCommand.Replies.{Printer, reply}
use flynn_extensions.TokenCommand.Signed.{Injects, main-signed}
use flynn_extensions.TokenCommand.Told.{to_sign, read_reply}
use flynn_extensions.TokenCommand.Tools.{parse_supply, mint_handle, verify_handle}
use flynn_extensions.TokenCommand.Verified.{Reported, main-verified}

-- The arguments 0 start a session, and any other resume the first one with these bytes as the response.
abbrev resumed : Bytes → Bytes → ResumeArgs
resumed id response = record {
  session = id;
  signature_text = [];
  sign_error = [];
  response = response;
  fetch_error = [];
}

abbrev starting : ResumeArgs
starting = record {
  session = [];
  signature_text = [];
  sign_error = [];
  response = [];
  fetch_error = [];
}

abbrev decoded : Bytes → Bytes → ResumeArgs
decoded id arguments = if equal arguments (0 ∷ []) then starting else resumed id arguments

abbrev mint_id : Bytes
mint_id = codes "mint-" ++ 1 ∷ []

abbrev verify_id : Bytes
verify_id = codes "verify-" ++ 1 ∷ []

abbrev verify_args : Bytes → VerifyArgs
verify_args arguments = record { resume_args = decoded verify_id arguments; mint_text = 3 ∷ [] }

abbrev texts : Texts
texts = record {
  decode_base64 = λ t. some t;
  encode_base64 = λ b. b;
  format_uint = λ n. n ∷ [];
  parse_uint = λ t. some (length t);
  public_key_from_base58 = λ t. some t;
  unmarshal_verify = λ arguments. some (verify_args arguments);
  unmarshal_mint = λ arguments. some (record {
    resume_args = decoded mint_id arguments;
    host_key = if equal arguments (0 ∷ []) then payer else [];
    name = codes "q";
    symbol = codes "acm";
    metadata_uri = codes "ipfs://x";
    decimals = 2;
    supply_text = replicate 5 1;
    treasury_text = 8 ∷ [];
  });
}

abbrev printer : Printer
printer = record { key_text = λ key. key; marshal = λ f. some [] }

-- The message 9 starts a verify, and any other is the arguments of a mint.
abbrev called : Bytes → Option Call
called params = some (
    if equal params (9 ∷ [])
    then record { name = codes "token_verify"; arguments = 0 ∷ [] }
    else record { name = codes "token_mint"; arguments = params })

abbrev transport : Transport ToolError
transport = record {
  unmarshal_request = λ line. some (record {
    jsonrpc = codes "2.0";
    id = codes "1";
    method = codes "tools/call";
    params = line;
  });
  unmarshal_call = called;
  marshal_response = λ r. some r.id;
  trim_space = λ line. line;
}

abbrev turn : Bytes → Turn
turn line = record { cancelled = false; line = line; writes = true }

-- The start, and the answers to two requests; the third is the argument of the further call.
abbrev turns : List Turn
turns = turn (0 ∷ []) ∷ turn (4 ∷ []) ∷ turn (4 ∷ []) ∷ []

abbrev after_turns : Registry (Session MintResult)
after_turns =
    (main texts printer hash_wire programs real_sdk (λ n. wallet) (λ n. 1) transport (codes "dev")
      turns false).state.mint_reg

abbrev next : Registry (Session MintResult)
next = (call_mint texts hash_wire real_sdk (λ n. wallet) (λ n. 1) [] (4 ∷ []) after_turns).1

abbrev answer : Answer
answer = sign_answer mint_id request.message

calls :
    call_mint texts hash_wire real_sdk (λ n. wallet) (λ n. 1) [] (4 ∷ []) after_turns
    ≡ (ok answer, next)
unfolding main extension serve dispatch dispatch_request dispatch_method call_result lookup register
    put mint_handle parse_supply handle render reply reply_of pending_reply find delete mint
    identify find_network judge_plan check_treasury fund submit_mint check_spendable treasury_of
    content_addressed has_prefix build_mint validate_metadata scaled_amount scale send
    with_blockhash authorize authorize_message sign_for find_signer ◌>>=◌ equal impersonation_target
    brand_of normalize fold_rune normalized_brands protected_brands is_kept imitated resolve_network
    live guard evaluate violations trim_space trim_left is_space less cross call_for_into
    through_host advance_session
calls = refl

tells : read_reply texts (reply texts printer answer) ≡ some (to_sign mint_id request.message)
unfolding reply find equal
tells = refl

main-Granted_example : Granted texts (Names transport turns (4 ∷ [])) mint_id request.message next
main-Granted_example =
    main-Granted methods texts printer hash_wire programs real_sdk (λ n. wallet) (λ n. 1) transport
      (codes "dev") turns false (4 ∷ []) answer next mint_id request.message library (λ b. refl)
      calls tells

abbrev after_verify : Registry (Session (Result VerifyError MintState))
after_verify =
    (main texts printer hash_wire programs real_sdk (λ n. wallet) (λ n. 1) transport (codes "dev")
      (turn (9 ∷ []) ∷ []) false).state.verify_reg

verify_waits : get verify_id after_verify ≡ some (start_verify hash_wire programs (3 ∷ []))
unfolding main extension serve dispatch dispatch_request dispatch_method call_result lookup register
    put equal verify_handle handle render reply pending_reply through_host cross call_for_into find
    delete
verify_waits = refl

abbrev host_reply : HostReply
host_reply = record { signature = zero_signature; body = 4 ∷ []; failure = none }

replied : reply_of texts (resumed verify_id (4 ∷ [])) ≡ ok host_reply
unfolding reply_of equal
replied = refl

main-verified_example :
    Reported texts hash_wire programs verify_id
      (start_verify hash_wire programs (3 ∷ []))
      host_reply
      (verify_handle texts hash_wire programs (4 ∷ []) after_verify)
unfolding equal
main-verified_example =
    main-verified texts printer hash_wire programs real_sdk (λ n. wallet) (λ n. 1) transport
      (codes "dev") (turn (9 ∷ []) ∷ []) false (4 ∷ []) (verify_args (4 ∷ []))
      (start_verify hash_wire programs (3 ∷ [])) host_reply refl (λ e. cc) verify_waits replied

injects : Injects texts transport turns (4 ∷ []) payer
injects b a named made first = elim (Bool-cases (equal b (0 ∷ []))) [
  | inl starts ↦ (let now = rw starts at made in cc)
  | inr resumes ↦ (let now = rw resumes at made in cc)
]

main-signed_example :
    sign_payload {O = ℕ} codec solana_policy request.message signer.state
    ≡ ok (length request.message ∷ [])
main-signed_example =
    main-signed methods texts printer hash_wire programs real_sdk (λ n. wallet) (λ n. 1) transport
      (codes "dev") turns false (4 ∷ []) answer next mint_id request.message signer_transport codec
      open_it (codes "solana-signer") (codes "dev") unbound (unlock_turn ∷ []) false tt signer payer
      request.message (length request.message ∷ []) library (λ b. refl) injects calls tells
      run_unlocked asks
