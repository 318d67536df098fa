-- ===== src/Token/Session/Signed.antt =====
-- token/session.go and signer/signer.go together: a mint session, and a running Solana signer that holds
-- the key of its payer.
use flynn_extensions.Prelude.{
  ℕ, ◌≤◌, ◌<◌, ◌≡◌, sym, ◌∙◌, subst, Bool, some, List, [], ◌∷◌, Bytes, length, arith,
}
use flynn_extensions.Prelude.Result.{ok}
use flynn_extensions.McpServer.{Transport}
use flynn_extensions.McpServer.Serve.{Turn, Served}
use flynn_extensions.Signer.{
  Key, Opener, Codec, SignerError, State, max_payload_bytes, sign_payload, serve_signer,
}
use flynn_extensions.Signer.Guard.{solana_policy, serve_signer-Guarded}
use flynn_extensions.Signer.Sign.{sign_payload_iff}
use flynn_extensions.Solana.Message.{parse_message}
use flynn_extensions.Solana.Policy.{Solana, PolicyError, approve}
use flynn_extensions.Solana.Policy.Exact.{approve_iff}
use flynn_extensions.Token.Atomic.{MintSpec}
use flynn_extensions.Token.Host.{SignRequest, HostCall, Wire}
use flynn_extensions.Token.Mint.{Sdk, Wallet, MintResult, mint}
use flynn_extensions.Token.Mint.Granted.{Methods, IsLibrary}
use flynn_extensions.Token.Network.{new_cluster}
use flynn_extensions.Token.Session.{Session, through_host, MintOption, configure}
use flynn_extensions.Token.Session.Granted.{start_mint-granted}
use flynn_extensions.Token.Session.Parked.{Reach}

approve-some_bytes : (p : Solana) (payload : Bytes) → approve p payload ≡ ok tt → 0 < length payload
unfolding parse_message
approve-some_bytes p [] e = (let (m, read, may) = (approve_iff p []).0 e in cc)
approve-some_bytes p (b ∷ payload) e = omega arith

same_payer : (p q : Solana) → p.payer ≡ q.payer → p ≡ q
same_payer p q e = ground arith

-- A mint session that waits for a signature.
module _ {Ix : Type 0} (wire : Wire) (sdk : Sdk Ix) (payer : Bytes) (wallet : Wallet) (polls : ℕ)
    (spec : MintSpec) (opts : List MintOption) where
  pub record Hands (s : Session MintResult) (message : Bytes) : Type 0 where
    pub reached :
        Reach
          (through_host wire payer 0
            (mint sdk payer wallet polls spec (configure opts new_cluster)))
          s
    pub req : HostCall
    pub waits : s.pending ≡ some req
    pub pubkey : Bytes
    pub signs : req.sign_request ≡ some (record { pubkey = pubkey; message = message })

-- A request to the signer, which holds the key, of a message that the key signs.
module _ {W : Type 0} (c : Codec) (payer : Bytes) where
  pub record Requests (st : State Solana W) (message input out : Bytes) : Type 0 where
    pub key : Key
    pub held : st.vault ≡ some key
    pub of_payer : key.public_half ≡ payer
    pub args : Bytes
    pub read : c.unmarshal_sign input ≡ some args
    pub decoded : c.decode_string args ≡ some message
    pub few_bytes : length message ≤ max_payload_bytes
    pub sig : Bytes
    pub signed : key.sign message ≡ ok sig
    pub written : c.marshal_signature (c.encode_to_string sig) ≡ some out

-- A message that the policy approves for the payer's key is signed by a signer that holds this key.
pub approved-signed :
    {W O : Type 0} (t : Transport (SignerError PolicyError O)) (c : Codec) (open_key : Opener W O)
    (server_name version : Bytes) (p : Solana) (turns : List Turn) (failed : Bool) (w : W)
    (served : Served (State Solana W)) (payer message input out : Bytes)
    → serve_signer t c server_name version (some open_key) (some (solana_policy, p)) turns failed w
      ≡ ok served
    → Requests c payer served.state message input out
    → approve (record { payer = payer }) message ≡ ok tt
    → sign_payload {O = O} c solana_policy input served.state ≡ ok out
approved-signed t c open_key server_name version p turns failed w served payer message input out ran
      request approved =
    let guarded =
      serve_signer-Guarded t c open_key server_name version p turns failed w served ran request.key
        request.held in
    let bound =
      same_payer served.state.policy (record { payer = payer }) (guarded ∙ request.of_payer) in
    (sign_payload_iff c solana_policy input served.state out).1 (record {
      key = request.key;
      held = request.held;
      args = request.args;
      read = request.read;
      payload = message;
      decoded = request.decoded;
      some_bytes = approve-some_bytes (record { payer = payer }) message approved;
      few_bytes = request.few_bytes;
      approved = subst (λ q. approve q message ≡ ok tt) (sym bound) approved;
      sig = request.sig;
      signed = request.signed;
      written = request.written;
    })

-- Whatever a mint session is replied, a message of at most 65536 bytes that it hands out to be signed is
-- signed by a Solana signer that `Serve` started, whatever this was sent before, if its vault holds the
-- payer's key, the key signs the message, and its codec reads the request and writes the reply. The
-- library that builds and writes the transaction does what it documents.
pub start_mint-signed :
    {Ix W O : Type 0} (methods : Methods Ix) (wire : Wire) (sdk : Sdk Ix) (payer : Bytes)
    (wallet : Wallet) (polls : ℕ) (spec : MintSpec) (opts : List MintOption)
    (s : Session MintResult) (message : Bytes) (t : Transport (SignerError PolicyError O))
    (c : Codec) (open_key : Opener W O) (server_name version : Bytes) (p : Solana)
    (turns : List Turn) (failed : Bool) (w : W) (served : Served (State Solana W))
    (input out : Bytes)
    → IsLibrary methods sdk.builders sdk.new_transaction
    → Hands wire sdk payer wallet polls spec opts s message
    → serve_signer t c server_name version (some open_key) (some (solana_policy, p)) turns failed w
      ≡ ok served
    → Requests c payer served.state message input out
    → sign_payload {O = O} c solana_policy input served.state ≡ ok out
start_mint-signed methods wire sdk payer wallet polls spec opts s message t c open_key server_name
      version p turns failed w served input out library hands ran request =
    let sr : SignRequest = record { pubkey = hands.pubkey; message = message } in
    let (for_payer, approved) =
      start_mint-granted methods wire sdk payer wallet polls spec opts s hands.req sr library
        hands.reached hands.waits hands.signs in
    approved-signed t c open_key server_name version p turns failed w served payer message input out
      ran request approved
