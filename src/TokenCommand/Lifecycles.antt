-- ===== src/TokenCommand/Lifecycles.antt =====
-- cmd/token/main.go, `main`, and token/session.go: which sessions the registries hold while the server runs.
use flynn_extensions.Prelude.{
  ℕ, ◌≡◌, refl, sym, inl, inr, subst, Bool, Option, none, some, List, [], Bytes, codes,
}
use flynn_extensions.Prelude.Result.{Result, ok, err, ◌>>=◌, wrap, wrap-Gives}
use flynn_extensions.McpServer.{Call, Tool, Transport, lookup}
use flynn_extensions.McpServer.Serve.{Turn, Makes, serve-keeps}
use flynn_extensions.Token.Atomic.{MintSpec}
use flynn_extensions.Token.Host.{Wire}
use flynn_extensions.Token.Mint.{Sdk, Wallet, MintResult, mint}
use flynn_extensions.Token.Network.{new_cluster}
use flynn_extensions.Token.Session.{Session, MintOption, configure, verify_mint, through_host}
use flynn_extensions.Token.Session.Parked.{Reach, begins, goes}
use flynn_extensions.Token.Verify.{Programs, VerifyError, MintState}
use flynn_extensions.TokenCommand.{
  Texts, VerifyArgs, MintArgs, ToolError, bad_host_key, bad_mint_address, Registry,
  parse_pubkey_bytes,
}
use flynn_extensions.TokenCommand.Held.{AllHold, new-AllHold, Advances, handle-AllHold}
use flynn_extensions.TokenCommand.Replies.{Printer}
use flynn_extensions.TokenCommand.Tools.{
  verify_report, mint_report, or_bad, parse_supply, new_verify, treasury_arg, new_mint, verify_with,
  mint_with, verify_handle, mint_handle,
}
use flynn_extensions.TokenCommand.Extension.{Services, new_services, call_mint, extension, main}
use flynn_extensions.TokenCommand.Waiting.{lookup-extension}

-- Code that ends without an error ends with such a value.
abbrev Yields {ℓ} : {E A : Type 0} → (A → Type ℓ) → Result E A → Type ℓ
Yields P r = (a : _) → r ≡ ok a → P a

ok-Yields {ℓ} :
    {E A : Type 0} (P : A → Type ℓ) (r : Result E A) (a : A) → r ≡ ok a → P a → Yields P r
ok-Yields P r a returned h b e = (let same : a ≡ b = cc in subst P same h)

>>=-Yields {ℓ} :
    {E A B : Type 0} (P : B → Type ℓ) (m : Result E A) (f : A → Result E B)
    → ((a : A) → m ≡ ok a → Yields P (f a))
    → Yields P (m >>= f)
>>=-Yields P (err e) f h b made = cc
>>=-Yields P (ok a) f h b made = h a refl b made

module _ (wire : Wire) (programs : Programs) where
  -- A verify of some address, with some replies.
  pub record IsVerify (s : Session (Result VerifyError MintState)) : Type 0 where
    pub key : Bytes
    pub reached : Reach (through_host wire [] 0 (verify_mint programs key)) s

  IsVerify-Advances : Advances IsVerify
  IsVerify-Advances r s n v e = record { key = v.key; reached = goes r v.reached e }

  new_verify-IsVerify :
      (texts : Texts) (a : VerifyArgs) → Yields IsVerify (new_verify texts wire programs a)
  new_verify-IsVerify texts a =
      >>=-Yields IsVerify (or_bad bad_mint_address (texts.public_key_from_base58 a.mint_text)) _
        (λ key named. ok-Yields IsVerify _ _ refl (record { key = key; reached = begins }))

-- The arguments of a call of `token_mint` that one of the messages makes.
abbrev pub Calls : Transport ToolError → List Turn → Bytes → Type 0
Calls transport turns arguments =
    (call : Call) × Makes transport turns call
    × (call.name ≡ codes "token_mint")
    × (call.arguments ≡ arguments)

module _ {Ix : Type 0} (texts : Texts) (wire : Wire) (sdk : Sdk Ix) (opts : List MintOption)
    (From : Bytes → Type 0) where
  -- A mint that a call with such arguments started, one that names no session, paid by the key that this
  -- call named, with some replies.
  pub record IsMint (s : Session MintResult) : Type 0 where
    pub arguments : Bytes
    pub from : From arguments
    pub args : MintArgs
    pub decoded : texts.unmarshal_mint arguments ≡ some args
    pub first : args.resume_args.session ≡ []
    pub payer : Bytes
    pub named : parse_pubkey_bytes texts args.host_key ≡ ok payer
    pub wallet : Wallet
    pub polls : ℕ
    pub spec : MintSpec
    pub reached :
        Reach
          (through_host wire payer 0
            (mint sdk payer wallet polls spec (configure opts new_cluster)))
          s

  IsMint-Advances : Advances IsMint
  IsMint-Advances r s n m e = record {
    arguments = m.arguments;
    from = m.from;
    args = m.args;
    decoded = m.decoded;
    first = m.first;
    payer = m.payer;
    named = m.named;
    wallet = m.wallet;
    polls = m.polls;
    spec = m.spec;
    reached = goes r m.reached e;
  }

  new_mint-IsMint :
      (wallet : Wallet) (polls : ℕ) (arguments : Bytes) (a : MintArgs)
      → From arguments
      → texts.unmarshal_mint arguments ≡ some a
      → a.resume_args.session ≡ []
      → Yields IsMint (new_mint texts wire sdk wallet polls opts a)
  new_mint-IsMint wallet polls arguments a from decoded first =
      >>=-Yields IsMint (wrap bad_host_key (parse_pubkey_bytes texts a.host_key)) _ (λ payer named.
        >>=-Yields IsMint (parse_supply texts a.supply_text) _ (λ supply counted.
          >>=-Yields IsMint (treasury_arg texts a.treasury_text) _ (λ treasury sent.
            ok-Yields IsMint _ _ refl (record {
              arguments = arguments;
              from = from;
              args = a;
              decoded = decoded;
              first = first;
              payer = payer;
              named = wrap-Gives bad_host_key (parse_pubkey_bytes texts a.host_key) named;
              wallet = wallet;
              polls = polls;
              spec = _;
              reached = begins;
            }))))

  mint_with-IsMint :
      (wallet : Wallet) (polls : ℕ) (arguments : Bytes) (a : Option MintArgs)
      (r : Registry (Session MintResult))
      → From arguments
      → texts.unmarshal_mint arguments ≡ a
      → AllHold IsMint r
      → AllHold IsMint (mint_with texts wire sdk wallet polls opts a r).1
  mint_with-IsMint wallet polls arguments none r from decoded h = h
  mint_with-IsMint wallet polls arguments (some a) r from decoded h =
      handle-AllHold IsMint texts mint_report IsMint-Advances a.resume_args
        (new_mint texts wire sdk wallet polls opts a) r
        (new_mint-IsMint wallet polls arguments a from decoded) h

  pub call_mint-IsMint :
      (wallets : ℕ → Wallet) (polls : ℕ → ℕ) (arguments : Bytes) (r : Registry (Session MintResult))
      → From arguments
      → AllHold IsMint r
      → AllHold IsMint (call_mint texts wire sdk wallets polls opts arguments r).1
  unfolding mint_handle
  call_mint-IsMint wallets polls arguments r from h =
      mint_with-IsMint (wallets r.seq) (polls r.seq) arguments (texts.unmarshal_mint arguments) r
        from refl h

module _ (texts : Texts) (wire : Wire) (programs : Programs) where
  verify_with-IsVerify :
      (a : Option VerifyArgs) (r : Registry (Session (Result VerifyError MintState)))
      → AllHold (IsVerify wire programs) r
      → AllHold (IsVerify wire programs) (verify_with texts wire programs a r).1
  verify_with-IsVerify none r h = h
  verify_with-IsVerify (some a) r h =
      handle-AllHold (IsVerify wire programs) texts verify_report (IsVerify-Advances wire programs)
        a.resume_args (new_verify texts wire programs a) r
        (λ new. new_verify-IsVerify wire programs texts a) h

module _ {Ix : Type 0} (texts : Texts) (printer : Printer) (wire : Wire) (programs : Programs)
    (sdk : Sdk Ix) (wallets : ℕ → Wallet) (polls : ℕ → ℕ) (From : Bytes → Type 0) where
  abbrev pub Running : Services → Type 0
  Running st =
      AllHold (IsVerify wire programs) st.verify_reg
      × AllHold (IsMint texts wire sdk [] From) st.mint_reg

  tools-Running :
      (version name : Bytes) (tool : Tool Services ToolError)
      → lookup name (extension texts printer wire programs sdk wallets polls [] version).tools
        ≡ some tool
      → (arguments : Bytes) (st : Services) → (name ≡ codes "token_mint" → From arguments)
      → Running st
      → Running (tool.handler arguments st).1
  unfolding verify_handle
  tools-Running version name tool found arguments st from (v, m) =
      elim (lookup-extension texts printer wire programs sdk wallets polls [] version name tool
        found) [
          | inl same ↦
              subst (λ t. Running (t.handler arguments st).1) same
                (
                  verify_with-IsVerify texts wire programs (texts.unmarshal_verify arguments)
                      st.verify_reg v,
                  m,
                )
          | inr (named, same) ↦
              subst (λ t. Running (t.handler arguments st).1) same
                (
                  v,
                  call_mint-IsMint texts wire sdk [] From wallets polls arguments st.mint_reg
                      (from (sym named)) m,
                )
        ]

  -- After any run of the server, each session of its registries is one that some call started, with
  -- the replies of some calls; a mint, one that a call of `token_mint` among the messages started.
  pub main-Running :
      (transport : Transport ToolError) (version : Bytes) (turns : List Turn) (failed : Bool)
      → ((arguments : Bytes) → Calls transport turns arguments → From arguments)
      → Running
          (main texts printer wire programs sdk wallets polls transport version turns failed).state
  unfolding main
  main-Running transport version turns failed from =
      serve-keeps transport (extension texts printer wire programs sdk wallets polls [] version)
        Running turns
        (λ call tool found made st.
          tools-Running version call.name tool found call.arguments st
            (λ named. from call.arguments (call, made, named, refl)))
        failed new_services
        (
          new-AllHold (IsVerify wire programs) (codes "verify-"),
          new-AllHold (IsMint texts wire sdk [] From) (codes "mint-"),
        )
