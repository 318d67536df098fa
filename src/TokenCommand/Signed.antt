-- ===== src/TokenCommand/Signed.antt =====
-- cmd/token/main.go and signer/signer.go: the worker and the signer of one host, as two servers.
use flynn_extensions.Prelude.{ℕ, ◌≡◌, subst, Bool, some, [], Bytes, List}
use flynn_extensions.Prelude.Result.{Result, ok}
use flynn_extensions.McpServer.{Transport}
use flynn_extensions.McpServer.Serve.{Turn, Served}
use flynn_extensions.Signer.{Opener, Codec, SignerError, State, sign_payload, serve_signer}
use flynn_extensions.Signer.Guard.{solana_policy}
use flynn_extensions.Solana.Policy.{Solana, PolicyError, approve}
use flynn_extensions.Token.Host.{Wire}
use flynn_extensions.Token.Mint.{Sdk, Wallet, MintResult}
use flynn_extensions.Token.Mint.Granted.{Methods, IsLibrary}
use flynn_extensions.Token.Session.{Session}
use flynn_extensions.Token.Session.Signed.{Requests, approved-signed}
use flynn_extensions.Token.Verify.{Programs}
use flynn_extensions.TokenCommand.{
  Texts, MintArgs, AddressError, ToolError, Answer, Registry, parse_pubkey_bytes,
}
use flynn_extensions.TokenCommand.Extension.{call_mint, main}
use flynn_extensions.TokenCommand.Granted.{Names, main-Granted}
use flynn_extensions.TokenCommand.Replies.{Printer, reply}
use flynn_extensions.TokenCommand.Told.{to_sign, read_reply, DecodesEncoded}

one_value : (r : Result AddressError Bytes) (x y : Bytes) → r ≡ ok x → r ≡ ok y → x ≡ y
one_value r x y first second = cc

-- The host injects the bytes of its one key into each call of `token_mint` that starts a session, among
-- the messages and the further call.
abbrev pub Injects : Texts → Transport ToolError → List Turn → Bytes → Bytes → Type 0
Injects texts transport turns arguments payer =
    (b : Bytes) (a : MintArgs)
    → Names transport turns arguments b
    → texts.unmarshal_mint b ≡ some a
    → a.resume_args.session ≡ []
    → parse_pubkey_bytes texts a.host_key ≡ ok payer

-- Whatever messages the server of the token tools has read, and whatever a Solana signer has been sent,
-- if the signer holds the key that the host injects into each of its calls of `token_mint` that starts a
-- session, then a message of at
-- most 65536 bytes that the reply of a further call of this tool tells the host to sign is signed by the
-- signer; the key signs it, the signer's codec reads the request and writes the reply, base64 decodes
-- what it encoded, and the library that builds and writes the transaction does what it documents.
pub main-signed :
    {Ix W O : Type 0} (methods : Methods Ix) (texts : Texts) (printer : Printer) (wire : Wire)
    (programs : Programs) (sdk : Sdk Ix) (wallets : ℕ → Wallet) (polls : ℕ → ℕ)
    (transport : Transport ToolError) (version : Bytes) (turns : List Turn) (failed : Bool)
    (arguments : Bytes) (a : Answer) (next : Registry (Session MintResult)) (id message : Bytes)
    (t : Transport (SignerError PolicyError O)) (c : Codec) (open_key : Opener W O)
    (server_name signer_version : Bytes) (p : Solana) (signer_turns : List Turn)
    (signer_failed : Bool) (w : W) (served : Served (State Solana W)) (payer input out : Bytes)
    → IsLibrary methods sdk.builders sdk.new_transaction
    → DecodesEncoded texts printer
    → Injects texts transport turns arguments payer
    → call_mint texts wire sdk wallets polls [] arguments
        (main texts printer wire programs sdk wallets polls transport version turns
          failed).state.mint_reg
      ≡ (ok a, next)
    → read_reply texts (reply texts printer a) ≡ some (to_sign id message)
    → serve_signer t c server_name signer_version
        (some open_key)
        (some (solana_policy, p))
        signer_turns
        signer_failed
        w
      ≡ ok served
    → Requests c payer served.state message input out
    → sign_payload {O = O} c solana_policy input served.state ≡ ok out
main-signed methods texts printer wire programs sdk wallets polls transport version turns failed
      arguments a next id message t c open_key server_name signer_version p signer_turns
      signer_failed w served payer input out library decodes injects called told ran request =
    let g =
      main-Granted methods texts printer wire programs sdk wallets polls transport version turns
        failed arguments a next id message library decodes called told in
    let same : g.payer ≡ payer =
      one_value _ _ _ g.named (injects g.arguments g.args g.from g.decoded g.first) in
    approved-signed t c open_key server_name signer_version p signer_turns signer_failed w served
      payer message input out ran request
      (subst (λ k. approve (record { payer = k }) message ≡ ok tt) same g.approved)
