-- ===== src/TokenCommand/Replies.antt =====
-- cmd/token/main.go: what the tools reply. A reply is a text, or a map that encoding/json prints; the
-- texts of errors and of violations are printed with it.
use flynn_extensions.Prelude.{
  Bool, true, false, not, Option, none, some, List, [], ◌∷◌, ◌++◌, Bytes, codes,
}
use flynn_extensions.Prelude.Result.{Result, ok, err, ◌>>=◌}
use flynn_extensions.Token.Mint.{MintError}
use flynn_extensions.Token.Safety.{Violation}
use flynn_extensions.Token.Verify.{MintState, supply_fixed, freezable}
use flynn_extensions.TokenCommand.{
  Texts, ToolError, not_encoded, Answer, sign_answer, fetch_answer, verified, unsafe_token_2022,
  minted,
}

-- A value of a map of type `map[string]any`: a text, a Boolean, a map with one text, the text of an
-- error, the code and the detail of each violation.
pub data Value : Type 0 where
  text : Bytes → Value
  truth : Bool → Value
  entry : Bytes → Bytes → Value
  error_text : MintError → Value
  code_and_detail : List Violation → Value

abbrev pub Fields : Type 0
Fields = List (Bytes × Value)

pub data ToolReply : Type 0 where
  plain : Bytes → ToolReply
  fields : Fields → ToolReply

-- `String` of a public key of solana-go, and `Marshal` of encoding/json.
pub record Printer : Type 0 where
  pub key_text : Bytes → Bytes
  pub marshal : Fields → Option Bytes

-- `%t`
abbrev format_bool : Bool → Bytes
format_bool true = codes "true"
format_bool false = codes "false"

abbrev sign_fields : Bytes → Bytes → Fields
sign_fields id message =
    (codes "session", text id) ∷ (codes "sign", entry (codes "message") message) ∷ []

abbrev fetch_fields : Bytes → Bytes → Fields
fetch_fields id body = (codes "session", text id) ∷ (codes "fetch", entry (codes "body") body) ∷ []

abbrev with_error : Option MintError → Fields → Fields
with_error none rest = rest
with_error (some e) rest = (codes "error", error_text e) ∷ rest

abbrev with_disclosures : List Violation → Fields
with_disclosures [] = []
with_disclosures (d ∷ ds) = (codes "disclosures", code_and_detail (d ∷ ds)) ∷ []

module _ (texts : Texts) (p : Printer) where
  abbrev verified_text : MintState → Bytes
  verified_text st =
      codes "mint "
      ++ p.key_text st.mint
      ++ codes ": supply="
      ++ texts.format_uint st.supply
      ++ codes " decimals="
      ++ texts.format_uint st.decimals
      ++ codes " mintAuthorityRevoked="
      ++ format_bool (supply_fixed st)
      ++ codes " freezeAbsent="
      ++ format_bool (not (freezable st))

  abbrev unsafe_text : Bytes → Bytes
  unsafe_text key =
      codes "mint "
      ++ p.key_text key
      ++ codes ": UNSAFE - Token-2022 mint that may carry transfer hooks, transfer fees, "
      ++ codes "or a permanent delegate; not a plain fixed-supply SPL mint"

  abbrev mint_fields : Bytes → Option MintError → List Violation → Fields
  mint_fields key error disclosures =
      (codes "done", truth true)
      ∷ (codes "mint", text (p.key_text key))
      ∷ with_error error (with_disclosures disclosures)

  -- The end of `pendingReply`, and of `render` of both services.
  unfoldable pub reply : Answer → ToolReply
  reply (sign_answer id message) = fields (sign_fields id message)
  reply (fetch_answer id body) = fields (fetch_fields id body)
  reply (verified st) = plain (verified_text st)
  reply (unsafe_token_2022 key) = plain (unsafe_text key)
  reply (minted key error disclosures) = fields (mint_fields key error disclosures)

  abbrev print_reply : ToolReply → Result ToolError Bytes
  print_reply (plain b) = ok b
  print_reply (fields f) = elim (p.marshal f) [ none ↦ err not_encoded | some b ↦ ok b ]

  abbrev pub printed : Result ToolError Answer → Result ToolError Bytes
  printed out = out >>= λ a. print_reply (reply a)
