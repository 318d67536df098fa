-- ===== src/TokenCommand/Granted.antt =====
-- cmd/token/main.go against solana/solana.go: what a host that talks to the server of the token tools is
-- told to sign.
use flynn_extensions.Prelude.{
  ℕ, ◌≡◌, ◌⊎◌, refl, sym, ap, ◌∙◌, subst, inl, inr, Option-cases, Bool, some, List, [], Bytes,
  arith,
}
use flynn_extensions.Prelude.Result.{ok}
use flynn_extensions.McpServer.{Transport}
use flynn_extensions.McpServer.Serve.{Turn}
use flynn_extensions.Solana.Policy.{approve}
use flynn_extensions.Token.Host.{SignRequest, HostCall, Wire}
use flynn_extensions.Token.Mint.{Sdk, Wallet, MintResult}
use flynn_extensions.Token.Mint.Granted.{Methods, IsLibrary}
use flynn_extensions.Token.Session.{Session}
use flynn_extensions.Token.Session.Granted.{start_mint-granted}
use flynn_extensions.Token.Verify.{Programs}
use flynn_extensions.TokenCommand.{
  MintArgs, Texts, ToolError, Answer, Registry, get, parse_pubkey_bytes,
}
use flynn_extensions.TokenCommand.Held.{AllHold}
use flynn_extensions.TokenCommand.Handles.{mint_with-Resumable}
use flynn_extensions.TokenCommand.Lifecycles.{IsMint, Calls, call_mint-IsMint, main-Running}
use flynn_extensions.TokenCommand.Replies.{Printer, reply}
use flynn_extensions.TokenCommand.Sessions.{Given, Offers, Answered}
use flynn_extensions.TokenCommand.Told.{
  to_sign, read_reply, call_told, DecodesEncoded, minted-told, call-told,
}
use flynn_extensions.TokenCommand.Tools.{mint_report, mint_handle}
use flynn_extensions.TokenCommand.Extension.{call_mint, main}
use flynn_extensions.TokenCommand.Waiting.{AllWait, main-AllWait}

call_told-to_sign :
    (at id message : Bytes) (req : HostCall)
    → call_told at req ≡ some (to_sign id message)
    → (sr : SignRequest) × (req.sign_request ≡ some sr) × (at ≡ id) × (sr.message ≡ message)
call_told-to_sign at id message req told = elim (Option-cases req.sign_request) [
  | inr (sr, signs) ↦ (let now = rw signs at told in (sr, signs, cc, cc))
  | inl unsigned ↦ elim (Option-cases req.fetch_request) [
    | inr (f, sends) ↦ (let now = rw (unsigned, sends) at told in cc)
    | inl neither ↦ (let now = rw (unsigned, neither) at told in cc)
  ]
]

-- The arguments are those of the further call, or of a call of `token_mint` among the messages.
abbrev pub Names : Transport ToolError → List Turn → Bytes → Bytes → Type 0
Names transport turns arguments b = (b ≡ arguments) ⊎ Calls transport turns b

module _ (texts : Texts) (From : Bytes → Type 0) where
  -- A session of the registry waits for a signature of the message by the key that a call with such
  -- arguments named when it started a session, and the policy that is bound to this key approves the
  -- message.
  pub record Granted (id message : Bytes) (r : Registry (Session MintResult)) : Type 0 where
    pub session : Session MintResult
    pub held : get id r ≡ some session
    pub arguments : Bytes
    pub from : From arguments
    pub args : MintArgs
    pub decoded : texts.unmarshal_mint arguments ≡ some args
    pub first : args.resume_args.session ≡ []
    pub payer : Bytes
    pub named : parse_pubkey_bytes texts args.host_key ≡ ok payer
    pub req : HostCall
    pub waits : session.pending ≡ some req
    pub signs : req.sign_request ≡ some (record { pubkey = payer; message = message })
    pub approved : approve (record { payer = payer }) message ≡ ok tt

module _ {Ix : Type 0} (texts : Texts) (printer : Printer) (wire : Wire) (sdk : Sdk Ix)
    (From : Bytes → Type 0) where
  Offers-Granted :
      (methods : Methods Ix)
      → IsLibrary methods sdk.builders sdk.new_transaction
      → DecodesEncoded texts printer
      → (a : Answer) (r : Registry (Session MintResult)) (id message : Bytes)
      → AllHold (IsMint texts wire sdk [] From) r
      → Offers texts mint_report a r
      → read_reply texts (reply texts printer a) ≡ some (to_sign id message)
      → Granted texts From id message r
  Offers-Granted methods library decodes a r id message mints (inl (at, out, reports, gone)) told =
      let over = sym (minted-told texts printer out a reports) ∙ told in cc
  Offers-Granted methods library decodes a r id message mints (inr (at, s, req, found, waits, e))
        told =
      let (sr, signs, same_id, same) =
        call_told-to_sign at id message req
          (sym (call-told texts printer decodes at req a e) ∙ told) in
      let m = mints at s found in
      let (for_payer, approved) =
        start_mint-granted methods wire sdk m.payer m.wallet m.polls m.spec [] s req sr library
          m.reached waits signs in
      let request : sr ≡ record { pubkey = m.payer; message = message } = ground arith in
      record {
        session = s;
        held = subst (λ k. get k r ≡ some s) same_id found;
        arguments = m.arguments;
        from = m.from;
        args = m.args;
        decoded = m.decoded;
        first = m.first;
        payer = m.payer;
        named = m.named;
        req = req;
        waits = waits;
        signs = signs ∙ ap some request;
        approved = subst (λ b. approve (record { payer = m.payer }) b ≡ ok tt) same approved;
      }

  abbrev Anyhow : Given
  Anyhow prefix id seq = Unit

  call_mint-Granted :
      (methods : Methods Ix) (wallets : ℕ → Wallet) (polls : ℕ → ℕ) (arguments : Bytes)
      (r next : Registry (Session MintResult)) (a : Answer) (id message : Bytes)
      → IsLibrary methods sdk.builders sdk.new_transaction
      → DecodesEncoded texts printer
      → AllWait r
      → From arguments
      → AllHold (IsMint texts wire sdk [] From) r
      → call_mint texts wire sdk wallets polls [] arguments r ≡ (ok a, next)
      → read_reply texts (reply texts printer a) ≡ some (to_sign id message)
      → Granted texts From id message next
  unfolding mint_handle
  call_mint-Granted methods wallets polls arguments r next a id message library decodes waiting from
        mints called told =
      let (kept, answered) =
        mint_with-Resumable texts Anyhow wire sdk (wallets r.seq) (polls r.seq) []
          (texts.unmarshal_mint arguments) r ((λ id g. g), tt)
          (λ id s found. (waiting id s found, tt)) in
      Offers-Granted methods library decodes a next id message
        (subst (λ p. AllHold (IsMint texts wire sdk [] From) p.1) called
          (call_mint-IsMint texts wire sdk [] From wallets polls arguments r from mints))
        (subst (λ p. Answered texts mint_report p.0 p.1) called answered) told

-- Whatever messages the server of the token tools has read, a message that the reply of a further call of
-- `token_mint` tells the host to sign is one that the session under the reply's id waits with, for the key
-- that this call, or a call of `token_mint` among those messages, named in its arguments when it started a
-- session, and is approved by the signing policy that is bound to this key. base64 decodes what it
-- encoded, and the library that builds and writes the transaction does what it documents.
pub main-Granted :
    {Ix : Type 0} (methods : Methods Ix) (texts : Texts) (printer : Printer) (wire : Wire)
    (programs : Programs) (sdk : Sdk Ix) (wallets : ℕ → Wallet) (polls : ℕ → ℕ)
    (transport : Transport ToolError) (version : Bytes) (turns : List Turn) (failed : Bool)
    (arguments : Bytes) (a : Answer) (next : Registry (Session MintResult)) (id message : Bytes)
    → IsLibrary methods sdk.builders sdk.new_transaction
    → DecodesEncoded texts printer
    → call_mint texts wire sdk wallets polls [] arguments
        (main texts printer wire programs sdk wallets polls transport version turns
          failed).state.mint_reg
      ≡ (ok a, next)
    → read_reply texts (reply texts printer a) ≡ some (to_sign id message)
    → Granted texts (Names transport turns arguments) id message next
main-Granted methods texts printer wire programs sdk wallets polls transport version turns failed
      arguments a next id message library decodes called told =
    let From = Names transport turns arguments in
    call_mint-Granted texts printer wire sdk From methods wallets polls arguments _ next a id
      message library decodes
      (main-AllWait texts printer wire programs sdk wallets polls transport version turns failed).1
      (inl refl)
      (main-Running texts printer wire programs sdk wallets polls From transport version turns
        failed (λ b made. inr made)).1
      called told
