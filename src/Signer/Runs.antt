-- ===== src/Signer/Runs.antt =====
-- A Solana signer is started, unlocked and asked for a signature.
use flynn_extensions.Prelude.{
  if◌then◌else◌, true, false, ℕ, ◌≡◌, ◌↔◌, refl, some, [], ◌∷◌, length, Bytes, codes, equal,
}
use flynn_extensions.Prelude.Result.{ok}
use flynn_extensions.McpServer.{
  Request, Response, Call, result, tool_text, result_response, id_or_null, Transport, dispatch,
  dispatch_request, dispatch_method, call_result, lookup, put, register,
}
use flynn_extensions.McpServer.Serve.{Turn, Served, end_of_input, framed, serve}
use flynn_extensions.Solana.Message.{Message, parse_message}
use flynn_extensions.Solana.Message.Wire.{encode}
use flynn_extensions.Solana.Policy.{Solana, PolicyError, bind_key}
use flynn_extensions.Solana.Policy.Uses.{MayBeSigned}
use flynn_extensions.Solana.Runs.{key, policy, mint_message, approves, encode-size}
use flynn_extensions.Signer.{
  Key, Opener, Codec, SignerError, State, unlock_tool_name, sign_tool_name, signer_server,
  serve_signer, unlock, sign_payload,
}
use flynn_extensions.Signer.Sign.{Signs, sign_payload_iff}
use flynn_extensions.Signer.Reply.{call_result-sign, serve_signer-reply}
use flynn_extensions.Signer.Guard.{solana_policy}

abbrev pub codec : Codec
codec = record {
  unmarshal_unlock = λ input. some (record { passphrase = input; key_path = [] });
  unmarshal_sign = λ input. some input;
  decode_string = λ text. some text;
  encode_to_string = λ bytes. bytes;
  marshal_unlocked = λ u. some u.public_key;
  marshal_signature = λ text. some text;
}

abbrev pub unlock_call : Call
unlock_call = record { name = unlock_tool_name; arguments = codes "secret" }

abbrev pub sign_call : Call
sign_call = record { name = sign_tool_name; arguments = encode (mint_message 1) }

abbrev pub request : Bytes → Request
request line = record {
  jsonrpc = codes "2.0";
  id = codes "1";
  method = codes "tools/call";
  params = line;
}

-- Every message is a call: "secret" of the unlock tool, any other of the sign tool.
abbrev pub transport : Transport (SignerError PolicyError ℕ)
transport = record {
  unmarshal_request = λ line. some (request line);
  unmarshal_call =
      λ params. some (if equal params (codes "secret") then unlock_call else sign_call);
  marshal_response = λ r. some (codes "{}");
  trim_space = λ line. line;
}

abbrev pub signing_key : Key
signing_key = record {
  public_half = key;
  curve = codes "ed25519";
  sign = λ payload. ok (length payload ∷ []);
}

abbrev pub open_it : Opener (Unit {0}) ℕ
open_it passphrase path w = (ok signing_key, w)

abbrev pub unbound : Solana
unbound = record { payer = [] }

abbrev pub unlocked : State Solana (Unit {0})
unlocked = record { vault = some signing_key; policy = policy; world = tt }

abbrev pub unlock_turn : Turn
unlock_turn = record { cancelled = false; line = codes "secret"; writes = true }

abbrev pub served : Served (State Solana (Unit {0}))
served = record { written = framed (codes "{}") ∷ []; state = unlocked; ended = end_of_input }

pub run_unlocked :
    serve_signer transport codec
      (codes "solana-signer")
      (codes "dev")
      (some open_it)
      (some (solana_policy, unbound))
      (unlock_turn ∷ [])
      false
      tt
    ≡ ok served
unfolding serve_signer serve dispatch dispatch_request dispatch_method call_result lookup equal
    signer_server register put unlock bind_key
run_unlocked = refl

signature : Bytes
signature = length (encode (mint_message 1)) ∷ []

Signs-mint_message : Signs codec solana_policy (encode (mint_message 1)) unlocked signature
unfolding signature
Signs-mint_message = record {
  key = signing_key;
  held = refl;
  args = encode (mint_message 1);
  read = refl;
  payload = encode (mint_message 1);
  decoded = refl;
  some_bytes = encode-size.0;
  few_bytes = encode-size.1;
  approved = approves;
  sig = signature;
  signed = refl;
  written = refl;
}

signed : sign_payload {O = ℕ} codec solana_policy (encode (mint_message 1)) unlocked ≡ ok signature
signed =
    (sign_payload_iff codec solana_policy (encode (mint_message 1)) unlocked signature).1
      Signs-mint_message

sign_payload_iff_example :
    (sign_payload {O = ℕ} codec solana_policy (encode (mint_message 1)) unlocked ≡ ok signature)
    ↔ Signs codec solana_policy (encode (mint_message 1)) unlocked signature
sign_payload_iff_example =
    sign_payload_iff codec solana_policy (encode (mint_message 1)) unlocked signature

-- The answer to a call of the sign tool on the unlocked signer.
abbrev reply : Response (SignerError PolicyError ℕ)
reply = record { id = codes "1"; reply = result (tool_text signature) }

replies :
    (dispatch transport
      (signer_server codec open_it solana_policy (codes "solana-signer") (codes "dev"))
      (codes "sign")
      unlocked).0
    ≡ some reply
unfolding dispatch dispatch_request dispatch_method equal result_response id_or_null
replies =
    rw
      (
        call_result-sign transport codec open_it solana_policy (codes "solana-signer") (codes "dev")
            (codes "1") (codes "sign") sign_call unlocked refl refl,
        signed,
      )
      refl

is_sign_call : transport.unmarshal_call (codes "sign") ≡ some sign_call
unfolding equal
is_sign_call = refl

serve_signer-reply_example :
    (k : Key) × (payload : Bytes) × (m : Message) × (sig : Bytes) × (some signing_key ≡ some k)
    × (parse_message payload ≡ ok m)
    × MayBeSigned k.public_half m
    × (k.sign payload ≡ ok sig)
    × (some sig ≡ some signature)
serve_signer-reply_example =
    serve_signer-reply transport codec open_it (codes "solana-signer") (codes "dev") unbound
      (unlock_turn ∷ []) false tt served run_unlocked (codes "sign") (request (codes "sign"))
      sign_call refl refl is_sign_call refl reply signature replies refl
