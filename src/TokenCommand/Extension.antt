-- ===== src/TokenCommand/Extension.antt =====
-- cmd/token/main.go, `main`: the server that hosts the two tools, and their services.
use flynn_extensions.Prelude.{ℕ, Bool, List, [], ◌++◌, Bytes, codes}
use flynn_extensions.Prelude.Action.{Action}
use flynn_extensions.Prelude.Result.{Result}
use flynn_extensions.McpServer.{ToolInfo, Tool, Server, Transport, new, register}
use flynn_extensions.McpServer.Serve.{Turn, Served, serve}
use flynn_extensions.Token.Host.{Wire}
use flynn_extensions.Token.Mint.{Sdk, Wallet, MintResult}
use flynn_extensions.Token.Session.{Session, MintOption}
use flynn_extensions.Token.Verify.{Programs, VerifyError, MintState}
use flynn_extensions.TokenCommand.{Texts, ToolError, Answer, Registry, new_registry}
use flynn_extensions.TokenCommand.Tools.{verify_handle, mint_handle}
use flynn_extensions.TokenCommand.Replies.{Printer, printed}

-- The registries of `verifyService` and `mintService`.
pub record Services : Type 0 where
  pub verify_reg : Registry (Session (Result VerifyError MintState))
  pub mint_reg : Registry (Session MintResult)

-- `newVerifyService` and `newMintService`
abbrev pub new_services : Services
new_services = record {
  verify_reg = new_registry (codes "verify-");
  mint_reg = new_registry (codes "mint-");
}

abbrev verify_info : ToolInfo
verify_info = record {
  name = codes "token_verify";
  description =
      codes "Verify a Solana mint: report supply, decimals, and whether the mint and free"
      ++ codes "ze authorities are revoked (a safe token has both revoked). The chain is rea"
      ++ codes "d through the host, which holds the RPC endpoint, so the call completes thro"
      ++ codes "ugh the host's fetch loop.";
  input_schema = codes "{\"type\":\"object\",\"properties\":{\"mint\":{\"type\":\"string\"}}}";
}

abbrev mint_info : ToolInfo
mint_info = record {
  name = codes "token_mint";
  description =
      codes "Mint a new fixed-supply SPL token safely on Solana: create the min"
      ++ codes "t, attach metadata, mint the whole supply to the treasury, then revoke the m"
      ++ codes "int authority (freeze authority is never set). A scam-shaped request is refu"
      ++ codes "sed. Call it with {name,symbol,metadataUri,decimals,supply,treasury}; treasu"
      ++ codes "ry is the address that receives the whole supply and should be a multisig va"
      ++ codes "ult (omit it on a test cluster and the payer keeps the supply; on mainnet om"
      ++ codes "itting it is refused). The transactions are signed by the host with a key th"
      ++ codes "is tool never holds and submitted through the host's RPC endpoint, so the ca"
      ++ codes "ll completes through the host's call loop and returns {done,mint}.";
  input_schema =
      codes
        "{\"type\":\"object\",\"properties\":{\"name\":{\"type\":\"string\"},\"symbol\":{\"type\":\"st"
      ++ codes
          "ring\"},\"metadataUri\":{\"type\":\"string\"},\"decimals\":{\"type\":\"integer\"},\"supply"
      ++ codes
          "\":{\"type\":\"integer\"},\"treasury\":{\"type\":\"string\",\"description\":\"base58 addre"
      ++ codes "ss receiving the whole supply (a multisig vault); required on mainnet\"}},\"re"
      ++ codes "quired\":[\"name\",\"symbol\",\"metadataUri\",\"supply\"]}";
}

-- The handler of `token_mint`. Each session draws a key of its own, and its timer wins some number of
-- times: both go by the number of sessions so far.
abbrev pub call_mint :
    {Ix : Type 0}
    → Texts
    → Wire
    → Sdk Ix
    → (ℕ → Wallet)
    → (ℕ → ℕ)
    → List MintOption
    → Bytes
    → Action (Registry (Session MintResult)) ToolError Answer
call_mint texts wire sdk wallets polls opts arguments r =
    mint_handle texts wire sdk (wallets r.seq) (polls r.seq) opts arguments r

module _ {Ix : Type 0} (texts : Texts) (printer : Printer) (wire : Wire) (programs : Programs)
    (sdk : Sdk Ix) (wallets : ℕ → Wallet) (polls : ℕ → ℕ) (opts : List MintOption) where
  abbrev pub verify_tool : Tool Services ToolError
  verify_tool = record {
    info = verify_info;
    handler = λ arguments st.
        (let (out, reg) = verify_handle texts wire programs arguments st.verify_reg in
          (printed texts printer out, record st { verify_reg = reg }));
  }

  abbrev pub mint_tool : Tool Services ToolError
  mint_tool = record {
    info = mint_info;
    handler = λ arguments st.
        (let (out, reg) = call_mint texts wire sdk wallets polls opts arguments st.mint_reg in
          (printed texts printer out, record st { mint_reg = reg }));
  }

  unfoldable pub extension : Bytes → Server Services ToolError
  extension version = register (register (new (codes "token") version) verify_tool) mint_tool

-- `main`, from the messages that the scanner yields. The service of the mints has no options.
unfoldable pub main :
    {Ix : Type 0}
    → Texts
    → Printer
    → Wire
    → Programs
    → Sdk Ix
    → (ℕ → Wallet)
    → (ℕ → ℕ)
    → Transport ToolError
    → Bytes
    → List Turn
    → Bool
    → Served Services
main texts printer wire programs sdk wallets polls transport version turns failed =
    serve transport (extension texts printer wire programs sdk wallets polls [] version) turns
      failed new_services
