-- ===== src/Signer/Guard.antt =====
-- signer/signer.go with the policy of solana/solana.go: what a running Solana signer signs.
use flynn_extensions.Prelude.{◌≡◌, ◌⊎◌, inl, inr, sym, ◌∙◌, ap, Bool, some, List, Bytes}
use flynn_extensions.Prelude.Result.{ok}
use flynn_extensions.McpServer.{Transport, Tool, lookup, new}
use flynn_extensions.McpServer.Register.{lookup-register}
use flynn_extensions.McpServer.Serve.{Turn, Served, serve, serve-keeps}
use flynn_extensions.Solana.Message.{Message, parse_message}
use flynn_extensions.Solana.Policy.{Solana, PolicyError, approve, bind_key}
use flynn_extensions.Solana.Policy.Uses.{MayBeSigned}
use flynn_extensions.Solana.Policy.Exact.{approve_iff}
use flynn_extensions.Signer.{
  Key, Policy, Opener, Codec, SignerError, State, sign_tool, unlock_tool, unlock, sign_payload,
  signer_server, serve_signer, start_locked,
}
use flynn_extensions.Signer.Sign.{sign_payload_iff, unlock-state}

-- The policy of the Solana signer: `Approve` and `BindKey` of solana/solana.go.
abbrev pub solana_policy : Policy Solana PolicyError
solana_policy = record { approve = approve; bind_key = some bind_key }

-- The tools of a signer are the two that `Serve` registers.
module _ {P R W O : Type 0} (c : Codec) (open_key : Opener W O) (policy : Policy P R) where
  tools-lookup :
      (name server_name version : Bytes) {tool : Tool (State P W) (SignerError R O)}
      → lookup name (signer_server c open_key policy server_name version).tools ≡ some tool
      → (unlock_tool c open_key policy ≡ tool) ⊎ (sign_tool c policy ≡ tool)
  unfolding signer_server
  tools-lookup name server_name version e = elim (lookup-register _ _ name e) [
    | inl sign ↦ inr sign
    | inr older ↦ elim (lookup-register (new server_name version) _ name older) [
      | inl unlock ↦ inl unlock
      | inr none_left ↦ unfold lookup in cc
    ]
  ]

-- The policy guards the key that the vault holds.
abbrev pub Guarded : {W : Type 0} → State Solana W → Type 0
Guarded st = (key : Key) → st.vault ≡ some key → st.policy.payer ≡ key.public_half

module _ {W O : Type 0} (t : Transport (SignerError PolicyError O)) (c : Codec)
    (open_key : Opener W O) where
  unlock-Guarded :
      (input : Bytes) (st : State Solana W)
      → Guarded st
      → Guarded (unlock c open_key solana_policy input st).1
  unfolding bind_key
  unlock-Guarded input st h key held = elim (unlock-state c open_key solana_policy input st) [
    | inl (args, read, opened, (answer, vault, bound, reply)) ↦
        let same : opened ≡ key = cc in rw bound (ap (λ k. k.public_half) same)
    | inr (why, vault, kept, error) ↦ rw kept (h key (sym vault ∙ held))
  ]

  handler-Guarded :
      (server_name version name : Bytes) (tool : Tool (State Solana W) (SignerError PolicyError O))
      → lookup name (signer_server c open_key solana_policy server_name version).tools ≡ some tool
      → (arguments : Bytes) (st : State Solana W) → Guarded st
      → Guarded (tool.handler arguments st).1
  handler-Guarded server_name version name tool found arguments st h =
      elim (tools-lookup c open_key solana_policy name server_name version found) [
        | inl unlocks ↦ rw⁻¹ unlocks (unlock-Guarded arguments st h)
        | inr signs ↦ rw⁻¹ signs h
      ]

  -- After any run of a Solana signer that `Serve` started, its policy guards the key of its vault.
  pub serve_signer-Guarded :
      (server_name version : Bytes) (p : Solana) (turns : List Turn) (failed : Bool) (w : W)
      (served : Served (State Solana W))
      → serve_signer t c server_name version
          (some open_key)
          (some (solana_policy, p))
          turns
          failed
          w
        ≡ ok served
      → Guarded served.state
  unfolding serve_signer
  serve_signer-Guarded server_name version p turns failed w served ran =
      let server = signer_server c open_key solana_policy server_name version in
      let run : serve t server turns failed (start_locked t c p w) ≡ served = cc in
      let guarded : Guarded (serve t server turns failed (start_locked t c p w)).state =
        serve-keeps t server Guarded turns
          (λ call tool found made st.
            handler-Guarded server_name version call.name tool found call.arguments st)
          failed (start_locked t c p w) (λ key e. cc) in
      rw run at guarded

  -- After any run of a Solana signer that `Serve` started, whatever it was sent, a signature is given
  -- only by the key that was unlocked, over the bytes of a message that this key may sign.
  pub serve_signer-signs_only :
      (server_name version : Bytes) (p : Solana) (turns : List Turn) (failed : Bool) (w : W)
      (served : Served (State Solana W))
      → serve_signer t c server_name version
          (some open_key)
          (some (solana_policy, p))
          turns
          failed
          w
        ≡ ok served
      → (input out : Bytes) → sign_payload {O = O} c solana_policy input served.state ≡ ok out
      → (key : Key) × (payload : Bytes) × (m : Message) × (sig : Bytes) × (served.state.vault
          ≡ some key)
        × (parse_message payload ≡ ok m)
        × MayBeSigned key.public_half m
        × (key.sign payload ≡ ok sig)
        × (c.marshal_signature (c.encode_to_string sig) ≡ some out)
  serve_signer-signs_only server_name version p turns failed w served ran input out signs =
      let s = (sign_payload_iff c solana_policy input served.state out).0 signs in
      let (m, read, may) = (approve_iff served.state.policy s.payload).0 s.approved in
      let bound : served.state.policy.payer ≡ s.key.public_half =
        serve_signer-Guarded server_name version p turns failed w served ran s.key s.held in
      (s.key, s.payload, m, s.sig, s.held, read, rw bound at may, s.signed, s.written)
