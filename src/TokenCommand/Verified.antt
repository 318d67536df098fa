-- ===== src/TokenCommand/Verified.antt =====
-- cmd/token/main.go, token/session.go and `Verify` of token/engine.go together: what `token_verify` reports.
use flynn_extensions.Prelude.{
  ℕ, ◌≡◌, ◌≢◌, inl, inr, refl, sym, ap, ◌∙◌, subst, Option-cases, Bool, none, some, List, [], ◌∷◌,
  Bytes, arith, replicate,
}
use flynn_extensions.Prelude.Result.{Result, ok, err}
use flynn_extensions.McpServer.{Transport}
use flynn_extensions.McpServer.Serve.{Turn}
use flynn_extensions.Token.Host.{
  HostCall, HostReply, Wire, request_id, rpc_result, fetch_call, call_for_into, cross,
}
use flynn_extensions.Token.Session.Drive.{heard, rpc_result-heard}
use flynn_extensions.Token.Ledger.{finalized, get_account_info}
use flynn_extensions.Token.Mint.{Sdk, Wallet}
use flynn_extensions.Token.Session.{
  Life, finished, awaits, Session, through_host, verify_mint, advance_session,
}
use flynn_extensions.Token.Session.Parked.{
  parked, start-parked, advance-parked, Reach-parked, Reach, begins, goes,
}
use flynn_extensions.Token.Verify.{
  Programs, VerifyError, token_2022_mint, fetch_mint, mint_not_found, not_spl_mint, undecodable,
  not_initialized, MintState, verify,
}
use flynn_extensions.TokenCommand.{
  Texts, VerifyArgs, ToolError, not_verified, Answer, verified, unsafe_token_2022, Registry, delete,
  get, reply_of, render, after_advance, handle,
}
use flynn_extensions.TokenCommand.Entries.{not_equal, find-delete_self}
use flynn_extensions.TokenCommand.Extension.{main}
use flynn_extensions.TokenCommand.Lifecycles.{IsVerify, main-Running}
use flynn_extensions.TokenCommand.Replies.{Printer}
use flynn_extensions.TokenCommand.Sessions.{Waits}
use flynn_extensions.TokenCommand.Tools.{verify_report, new_verify, verify_handle}
use flynn_extensions.TokenCommand.Waiting.{main-AllWait}

parked-inj : {T : Type 0} (a b : Life T) → parked a ≡ parked b → a ≡ b
parked-inj (finished x) (finished y) h = ground arith
parked-inj (finished x) (awaits req k) h = cc
parked-inj (awaits req k) (finished y) h = cc
parked-inj (awaits req k) (awaits other l) h = ap (λ s. s.life) h

module _ (wire : Wire) (programs : Programs) where
  abbrev verifying : Bytes → Life (Result VerifyError MintState)
  verifying key = through_host wire [] 0 (verify_mint programs key)

  -- What `Verify` makes of the account in a reply of the host.
  abbrev pub judged : Bytes → HostReply → Result VerifyError MintState
  judged key r = verify programs key (wire.answer (get_account_info key finalized) (heard wire r))

  judged-rpc_result :
      (key : Bytes) (r : HostReply)
      → verify programs key (wire.answer (get_account_info key finalized) (rpc_result wire r))
        ≡ judged key r
  judged-rpc_result key r =
      ap (λ x. verify programs key (wire.answer (get_account_info key finalized) x))
        (rpc_result-heard wire r)

  -- The session asks for the account, and what it makes of the reply ends it.
  abbrev IsAsking : Bytes → HostCall → (HostReply → Life (Result VerifyError MintState)) → Type 0
  IsAsking key req k =
      (body : Bytes) × (wire.marshal_request (request_id 1) (get_account_info key finalized)
        ≡ some body)
      × (req ≡ fetch_call wire body)
      × ((r : HostReply) → k r ≡ finished (judged key r))

  verifying-awaits :
      (key : Bytes) (req : HostCall) (k : HostReply → Life (Result VerifyError MintState))
      → verifying key ≡ awaits req k
      → IsAsking key req k
  unfolding through_host cross call_for_into
  verifying-awaits key req k h =
      elim (Option-cases (wire.marshal_request (request_id 1) (get_account_info key finalized))) [
        | inl failed ↦ (let now = rw (through_host, cross, call_for_into, failed) at h in cc)
        | inr (body, made) ↦
            let now = rw (through_host, cross, call_for_into, made) at h in
            let asks : fetch_call wire body ≡ req = cc in
            let judges : (λ (r : HostReply). finished (
                  verify programs key
                    (wire.answer (get_account_info key finalized) (rpc_result wire r))))
                ≡ k =
              cc in
            (
              body,
              made,
              sym asks,
              λ r.
                  ap (λ (f : HostReply → _). f r) (sym judges)
                  ∙ ap finished (judged-rpc_result key r),
            )
      ]

  -- What follows a reply does not wait.
  replied-ends :
      (key : Bytes) (now : Life (Result VerifyError MintState)) (r : HostReply)
      (s : Session (Result VerifyError MintState))
      → ((req : HostCall) (k : HostReply → Life (Result VerifyError MintState))
          → now ≡ awaits req k
          → IsAsking key req k)
      → advance_session r (parked now) ≡ ok s
      → (req : HostCall) (k : HostReply → Life (Result VerifyError MintState))
      → s ≡ parked (awaits req k)
      → ⊥
  unfolding advance_session
  replied-ends key (finished out) r s asking h req k same = cc
  replied-ends key (awaits asked next) r s asking h req k same =
      let (body, made, sent, judges) = asking asked next refl in
      let ends : ok (parked (next r)) ≡ ok s = sym (advance-parked asked next r) ∙ h in
      let next_is : parked (next r) ≡ s = cc in
      let waits = sym (ap parked (judges r)) ∙ next_is ∙ same in cc

  -- A verify that waits is one that was just started: its first reply ends it.
  waiting-start :
      (key : Bytes) (s : Session (Result VerifyError MintState))
      → Reach (verifying key) s
      → (req : HostCall) (k : HostReply → Life (Result VerifyError MintState))
      → s ≡ parked (awaits req k)
      → IsAsking key req k
  waiting-start key s begins req k same =
      verifying-awaits key req k (parked-inj _ _ (sym (start-parked (verifying key)) ∙ same))
  waiting-start key s (goes {s = t} r before h) req k same =
      let (now, at) = Reach-parked (verifying key) before in
      absurd (
        replied-ends key now r s
          (λ asked next e. waiting-start key t before asked next (at ∙ ap parked e))
          (subst (λ t. advance_session r t ≡ ok s) at h) req k same)

-- What the tool says of what `Verify` made: the state of a safe mint; that the program of the account is
-- Token-2022, then beside the zero address and not the one that was asked for; or the error.
pub data IsReport : Result VerifyError MintState → Result ToolError Answer → Type 0 where
  safe : (st : MintState) → IsReport (ok st) (ok (verified st))
  other_program : IsReport (err token_2022_mint) (ok (unsafe_token_2022 (replicate 32 0)))
  failing : (e : VerifyError) → e ≢ token_2022_mint → IsReport (err e) (err (not_verified e))

verify_report-IsReport : (out : Result VerifyError MintState) → IsReport out (verify_report out)
verify_report-IsReport (ok st) = safe st
verify_report-IsReport (err token_2022_mint) = other_program
verify_report-IsReport (err fetch_mint) = failing fetch_mint (λ e. cc)
verify_report-IsReport (err mint_not_found) = failing mint_not_found (λ e. cc)
verify_report-IsReport (err not_spl_mint) = failing not_spl_mint (λ e. cc)
verify_report-IsReport (err undecodable) = failing undecodable (λ e. cc)
verify_report-IsReport (err not_initialized) = failing not_initialized (λ e. cc)

module _ (texts : Texts) (wire : Wire) (programs : Programs) where
  -- What a call came to that passed a reply of the host to a verify session: the session waited with a
  -- request for the account of some address, the report says what `Verify` makes of the account in the
  -- reply, and the session is gone.
  pub record Reported (id : Bytes) (s : Session (Result VerifyError MintState)) (r : HostReply)
      (call : Result ToolError Answer × Registry (Session (Result VerifyError MintState)))
      : Type 0 where
    pub key : Bytes
    pub body : Bytes
    pub asked : wire.marshal_request (request_id 1) (get_account_info key finalized) ≡ some body
    pub waits : s.pending ≡ some (fetch_call wire body)
    pub reports : IsReport (judged wire programs key r) call.0
    pub gone : get id call.1 ≡ none

  finished-Reported :
      (id : Bytes) (req : HostCall) (k : HostReply → Life (Result VerifyError MintState))
      (reply : HostReply) (r : Registry (Session (Result VerifyError MintState))) (key : Bytes)
      → IsAsking wire programs key req k
      → Reported id
          (parked (awaits req k))
          reply
          (after_advance texts verify_report id (advance_session reply (parked (awaits req k))) r)
  unfolding render
  finished-Reported id req k reply r key (body, made, sent, judges) =
      let out = judged wire programs key reply in
      let ended : advance_session reply (parked (awaits req k)) ≡ ok (parked (finished out)) =
        advance-parked req k reply ∙ ap (λ life. ok (parked life)) (judges reply) in
      rw ended (record {
        key = key;
        body = body;
        asked = made;
        waits = ap some sent;
        reports = verify_report-IsReport out;
        gone = find-delete_self id ((id, parked (finished out)) ∷ delete id r.sessions);
      })

  handle-Reported :
      (a : VerifyArgs) (fresh : Result ToolError (Session (Result VerifyError MintState)))
      (r : Registry (Session (Result VerifyError MintState)))
      (s : Session (Result VerifyError MintState)) (reply : HostReply)
      → a.resume_args.session ≢ []
      → get a.resume_args.session r ≡ some s
      → reply_of texts a.resume_args ≡ ok reply
      → Waits s
      → IsVerify wire programs s
      → Reported a.resume_args.session s reply (handle texts verify_report a.resume_args fresh r)
  unfolding handle
  handle-Reported a fresh r s reply named found read (req, k, waits) v =
      rw (handle, not_equal a.resume_args.session [] named, found, read, waits)
        (finished-Reported a.resume_args.session req k reply r v.key
          (waiting-start wire programs v.key s v.reached req k waits))

-- Whatever messages the server of the token tools has read: a further call of `token_verify` that names a
-- session of the registry and brings a reply of the host comes to what `Verify` makes of the account in
-- that reply, for the address whose account the session's request asks for: it reports the mint's state
-- if `Verify` has no error, it says that a Token-2022 mint is not safe (beside the zero address), and any
-- other error of `Verify` is its error. The session is gone.
pub main-verified :
    {Ix : Type 0} (texts : Texts) (printer : Printer) (wire : Wire) (programs : Programs)
    (sdk : Sdk Ix) (wallets : ℕ → Wallet) (polls : ℕ → ℕ) (transport : Transport ToolError)
    (version : Bytes) (turns : List Turn) (failed : Bool) (arguments : Bytes) (a : VerifyArgs)
    (s : Session (Result VerifyError MintState)) (reply : HostReply)
    → texts.unmarshal_verify arguments ≡ some a
    → a.resume_args.session ≢ []
    → get a.resume_args.session
        (main texts printer wire programs sdk wallets polls transport version turns
          failed).state.verify_reg
      ≡ some s
    → reply_of texts a.resume_args ≡ ok reply
    → Reported texts wire programs a.resume_args.session s reply (
        verify_handle texts wire programs arguments
          (main texts printer wire programs sdk wallets polls transport version turns
            failed).state.verify_reg)
unfolding verify_handle
main-verified texts printer wire programs sdk wallets polls transport version turns failed arguments
      a s reply decoded named found read =
    let id = a.resume_args.session in
    let (waiting, _) =
      main-AllWait texts printer wire programs sdk wallets polls transport version turns failed in
    let (verifies, _) =
      main-Running texts printer wire programs sdk wallets polls (λ b. Unit) transport version turns
        failed (λ b made. tt) in
    rw decoded (
      handle-Reported texts wire programs a (new_verify texts wire programs a) _ s reply named found
        read (waiting id s found) (verifies id s found))
