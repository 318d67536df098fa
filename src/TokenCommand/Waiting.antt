-- ===== src/TokenCommand/Waiting.antt =====
-- cmd/token/main.go, `main`: what the registries hold while the server runs.
use flynn_extensions.Prelude.{
  ℕ, ◌≡◌, ◌⊎◌, inl, inr, subst, Bool, Bool-cases, none, some, List, [], ◌∷◌, Bytes, codes, equal,
  equal_iff,
}
use flynn_extensions.McpServer.{Tool, Transport, lookup, put, register}
use flynn_extensions.McpServer.Serve.{Turn, serve-keeps}
use flynn_extensions.Token.Host.{Wire}
use flynn_extensions.Token.Mint.{Sdk, Wallet}
use flynn_extensions.Token.Session.{Session, MintOption}
use flynn_extensions.Token.Verify.{Programs}
use flynn_extensions.TokenCommand.{Texts, ToolError, Registry, new_registry, get, find}
use flynn_extensions.TokenCommand.Sessions.{Given, KeptBy, Waits}
use flynn_extensions.TokenCommand.Handles.{verify_with-Resumable, mint_with-Resumable}
use flynn_extensions.TokenCommand.Replies.{Printer}
use flynn_extensions.TokenCommand.Tools.{verify_handle, mint_handle}
use flynn_extensions.TokenCommand.Extension.{
  Services, new_services, verify_tool, mint_tool, extension, main,
}

-- Any id will do.
abbrev Any : Given
Any prefix id seq = Unit

-- Every session that a registry holds waits for a reply of the host.
abbrev pub AllWait : {T : Type 0} → Registry (Session T) → Type 0
AllWait r = (id : Bytes) (s : _) → get id r ≡ some s → Waits s

abbrev Kept : Services → Type 0
Kept st = KeptBy Any st.verify_reg × KeptBy Any st.mint_reg

lookup_two :
    {S E : Type 0} (name j k : Bytes) (t u tool : Tool S E)
    → lookup name ((j, t) ∷ (k, u) ∷ []) ≡ some tool
    → (t ≡ tool) ⊎ ((k ≡ name) × (u ≡ tool))
unfolding lookup
lookup_two name j k t u tool found = elim (Bool-cases (equal j name)) [
  | inl first ↦ inl (let now : some t ≡ some tool = rw first at found in cc)
  | inr later ↦ elim (Bool-cases (equal k name)) [
    | inl second ↦ inr (
      (equal_iff k name).0 second,
      let now : some u ≡ some tool = rw (later, lookup, second) at found in cc,
    )
    | inr neither ↦ (let now : none ≡ some tool = rw (later, lookup, neither) at found in cc)
  ]
]

module _ {Ix : Type 0} (texts : Texts) (printer : Printer) (wire : Wire) (programs : Programs)
    (sdk : Sdk Ix) (wallets : ℕ → Wallet) (polls : ℕ → ℕ) (opts : List MintOption) where
  verify_tool-Kept :
      (arguments : Bytes) (st : Services)
      → Kept st
      → Kept
          ((verify_tool texts printer wire programs sdk wallets polls opts).handler arguments st).1
  unfolding verify_handle
  verify_tool-Kept arguments st (v, w) = (
    (verify_with-Resumable texts Any wire programs (texts.unmarshal_verify arguments) st.verify_reg
        ((λ id g. g), tt) v).0,
    w,
  )

  mint_tool-Kept :
      (arguments : Bytes) (st : Services)
      → Kept st
      → Kept ((mint_tool texts printer wire programs sdk wallets polls opts).handler arguments st).1
  unfolding mint_handle
  mint_tool-Kept arguments st (v, w) = (
    v,
    (mint_with-Resumable texts Any wire sdk (wallets st.mint_reg.seq) (polls st.mint_reg.seq) opts
        (texts.unmarshal_mint arguments) st.mint_reg ((λ id g. g), tt) w).0,
  )

  -- The server has no other tool.
  pub lookup-extension :
      (version name : Bytes) (tool : Tool Services ToolError)
      → lookup name (extension texts printer wire programs sdk wallets polls opts version).tools
        ≡ some tool
      → (verify_tool texts printer wire programs sdk wallets polls opts ≡ tool)
        ⊎ ((codes "token_mint" ≡ name)
            × (mint_tool texts printer wire programs sdk wallets polls opts ≡ tool))
  unfolding extension register put lookup equal
  lookup-extension version name tool found =
      lookup_two name (codes "token_verify") (codes "token_mint")
        (verify_tool texts printer wire programs sdk wallets polls opts)
        (mint_tool texts printer wire programs sdk wallets polls opts) tool found

  tools-Kept :
      (version name : Bytes) (tool : Tool Services ToolError)
      → lookup name (extension texts printer wire programs sdk wallets polls opts version).tools
        ≡ some tool
      → (arguments : Bytes) (st : Services) → Kept st
      → Kept (tool.handler arguments st).1
  tools-Kept version name tool found arguments st h =
      elim (lookup-extension version name tool found) [
        | inl same ↦
            subst (λ t. Kept (t.handler arguments st).1) same (verify_tool-Kept arguments st h)
        | inr (named, same) ↦
            subst (λ t. Kept (t.handler arguments st).1) same (mint_tool-Kept arguments st h)
      ]

new-Any : {T : Type 0} (prefix : Bytes) → KeptBy Any {T = T} (new_registry prefix)
unfolding find
new-Any prefix id s h = cc

-- Whatever messages the server reads, and however its loop ends, each session that the registries of
-- its two tools then hold waits for a reply of the host.
pub main-AllWait :
    {Ix : Type 0} (texts : Texts) (printer : Printer) (wire : Wire) (programs : Programs)
    (sdk : Sdk Ix) (wallets : ℕ → Wallet) (polls : ℕ → ℕ) (transport : Transport ToolError)
    (version : Bytes) (turns : List Turn) (failed : Bool)
    → (let st =
          (main texts printer wire programs sdk wallets polls transport version turns
            failed).state in
        AllWait st.verify_reg × AllWait st.mint_reg)
unfolding main
main-AllWait texts printer wire programs sdk wallets polls transport version turns failed =
    let (v, w) =
      serve-keeps transport (extension texts printer wire programs sdk wallets polls [] version)
        Kept turns
        (λ call tool found made st.
          tools-Kept texts printer wire programs sdk wallets polls [] version call.name tool found
            call.arguments st)
        failed new_services (new-Any (codes "verify-"), new-Any (codes "mint-")) in
    ((λ id s found. (v id s found).0), λ id s found. (w id s found).0)
