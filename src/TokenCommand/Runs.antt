-- ===== src/TokenCommand/Runs.antt =====
-- Runs of the tools: a verify that pauses for a request and is resumed, and an unknown session.
use flynn_extensions.Prelude.{
  ℕ, ◌≡◌, refl, true, false, none, some, List, [], ◌++◌, ◌∷◌, Bytes, codes, replicate, arith, equal,
  length,
}
use flynn_extensions.Prelude.Result.{Result, ok, err}
use flynn_extensions.Token.Host.{cross, call_for_into}
use flynn_extensions.Token.Mint.{MintResult}
use flynn_extensions.Token.Samples.{wire, programs, sdk, wallet}
use flynn_extensions.Token.Session.{
  Session, awaits, finished, start_verify, through_host, advance_session,
}
use flynn_extensions.Token.Session.Parked.{parked}
use flynn_extensions.Token.Verify.{VerifyError, MintState, verify}
use flynn_extensions.TokenCommand.{
  ResumeArgs, MintArgs, Texts, ToolError, unknown_session, Answer, sign_answer, fetch_answer,
  verified, Registry, new_registry, find, delete, get, store, reply_of, pending_reply, render,
  handle,
}
use flynn_extensions.McpServer.{
  Transport, dispatch, dispatch_request, dispatch_method, call_result, lookup, register, put,
}
use flynn_extensions.McpServer.Serve.{Turn, Served, serve}
use flynn_extensions.TokenCommand.Extension.{Services, extension, main}
use flynn_extensions.TokenCommand.Replies.{Printer, reply}
use flynn_extensions.TokenCommand.Told.{read_reply, stands, render-told}
use flynn_extensions.TokenCommand.Waiting.{AllWait, main-AllWait}
use flynn_extensions.TokenCommand.Handles.{Asked, handles-Resumable, store-fresh}
use flynn_extensions.TokenCommand.Sessions.{IsKept}
use flynn_extensions.TokenCommand.Tools.{verify_handle, mint_handle}

abbrev resume_args : Bytes → Bytes → ResumeArgs
resume_args id response = record {
  session = id;
  signature_text = [];
  sign_error = [];
  response = response;
  fetch_error = [];
}

-- Arguments: nothing starts a session, a number and a body resume one.
abbrev decoded : Bytes → ResumeArgs
decoded [] = resume_args [] []
decoded (id ∷ body) = resume_args (id ∷ []) body

abbrev mint_args : Bytes → MintArgs
mint_args arguments = record {
  resume_args = decoded arguments;
  host_key = replicate 32 7;
  name = codes "q";
  symbol = codes "acm";
  metadata_uri = codes "ipfs://x";
  decimals = 2;
  supply_text = 5 ∷ [];
  treasury_text = 8 ∷ [];
}

abbrev texts : Texts
texts = record {
  decode_base64 = λ t. some t;
  encode_base64 = λ b. b;
  format_uint = λ n. n ∷ [];
  parse_uint = λ t. some (length t);
  public_key_from_base58 = λ t. some t;
  unmarshal_verify =
      λ arguments. some (record { resume_args = decoded arguments; mint_text = 3 ∷ [] });
  unmarshal_mint = λ arguments. some (mint_args arguments);
}

abbrev Verifies : Type 0
Verifies = Registry (Session (Result VerifyError MintState))

abbrev empty : Verifies
empty = new_registry []

abbrev paused : Result ToolError Answer × Verifies
paused = verify_handle texts wire programs [] empty

first_call : paused.0 ≡ ok (fetch_answer (1 ∷ []) (1 ∷ []))
unfolding verify_handle handle equal render pending_reply through_host cross call_for_into
first_call = refl

second_call :
    (verify_handle texts wire programs (1 ∷ 4 ∷ []) paused.1).0
    ≡ ok (
        verified (record {
          mint = 3 ∷ [];
          decimals = 2;
          supply = 500;
          mint_authority = none;
          freeze_authority = none;
        }))
unfolding verify_handle handle equal render pending_reply through_host cross call_for_into find
    delete reply_of advance_session verify
second_call = refl

not_started :
    (verify_handle texts wire programs (2 ∷ 4 ∷ []) paused.1).0 ≡ err (unknown_session (2 ∷ []))
unfolding verify_handle handle equal render pending_reply through_host cross call_for_into find
    delete
not_started = refl

empty-IsKept : {T : Type 0} → IsKept texts {T = T} (new_registry [])
unfolding find
empty-IsKept id s h = cc

abbrev mint_call : Result ToolError Answer × Registry (Session MintResult)
mint_call = mint_handle texts wire sdk wallet 1 [] [] (new_registry [])

handles-Resumable_example :
    (IsKept texts paused.1 × Asked texts paused.0 paused.1)
    × (IsKept texts mint_call.1 × Asked texts mint_call.0 mint_call.1)
handles-Resumable_example =
    handles-Resumable texts wire programs sdk wallet 1 [] [] empty (new_registry []) (omega arith)
      (omega arith) empty-IsKept empty-IsKept

-- The server, on a call that starts a verify.
abbrev transport : Transport ToolError
transport = record {
  unmarshal_request =
      λ line. some (record { jsonrpc = codes "2.0"; id = codes "1"; method = line; params = [] });
  unmarshal_call = λ params. some (record { name = codes "token_verify"; arguments = params });
  marshal_response = λ r. some r.id;
  trim_space = λ line. line;
}

abbrev printer : Printer
printer = record { key_text = λ key. key; marshal = λ f. some [] }

abbrev calls : List Turn
calls = record { cancelled = false; line = codes "tools/call"; writes = true } ∷ []

abbrev served : Served Services
served =
    main texts printer wire programs sdk (λ n. wallet) (λ n. 1) transport (codes "dev") calls false

one_waits :
    get (codes "verify-" ++ 1 ∷ []) served.state.verify_reg
    ≡ some (start_verify wire programs (3 ∷ []))
unfolding main extension serve dispatch dispatch_request dispatch_method call_result lookup register
    put equal verify_handle handle render reply pending_reply through_host cross call_for_into find
    delete
one_waits = refl

main-AllWait_example : AllWait served.state.verify_reg × AllWait served.state.mint_reg
main-AllWait_example =
    main-AllWait texts printer wire programs sdk (λ n. wallet) (λ n. 1) transport (codes "dev")
      calls false

numbers_differ : (m n : ℕ) → texts.format_uint m ≡ texts.format_uint n → m ≡ n
numbers_differ m n h = cc

store-fresh_example :
    (let (id, next) = store texts (start_verify wire programs (3 ∷ [])) empty in
      (get id empty ≡ none) × (get id next ≡ some (start_verify wire programs (3 ∷ []))))
store-fresh_example =
    store-fresh texts (start_verify wire programs (3 ∷ [])) empty numbers_differ (omega arith)
      empty-IsKept

-- A mint that waits for a signature of the message "m".
abbrev signing : Session MintResult
signing = parked (
    awaits
      (record {
        sign_request = some (record { pubkey = 7 ∷ []; message = codes "m" });
        fetch_request = none;
      })
      (λ answer. finished ([], [], none)))

render-told_example :
    read_reply texts (reply texts printer (sign_answer (codes "mint-1") (codes "m")))
    ≡ stands texts printer (codes "mint-1") signing
unfolding render pending_reply
render-told_example =
    render-told texts printer (λ b. refl) (codes "mint-1") signing (new_registry [])
      (sign_answer (codes "mint-1") (codes "m")) refl
