-- ===== src/TokenCommand/Told.antt =====
-- cmd/token/main.go, the replies of `token_mint`: what a host reads in them.
use flynn_extensions.Prelude.{
  ◌≡◌, refl, Option, none, some, Option-cases, inl, inr, if◌then◌else◌, List, [], ◌∷◌, Bytes, codes,
  equal,
}
use flynn_extensions.Prelude.Result.{ok}
use flynn_extensions.Token.Host.{HostCall}
use flynn_extensions.Token.Mint.{MintError, MintResult}
use flynn_extensions.Token.Safety.{Violation}
use flynn_extensions.Token.Session.{Session}
use flynn_extensions.TokenCommand.{
  Texts, Answer, sign_answer, fetch_answer, minted, Registry, find, pending_reply, render,
}
use flynn_extensions.TokenCommand.Replies.{
  Value, text, entry, error_text, code_and_detail, Fields, ToolReply, plain, fields, Printer, reply,
}
use flynn_extensions.TokenCommand.Tools.{mint_report}

-- What a reply tells a host: to sign or to send bytes for the session with an id, or how a mint ended.
pub data Told : Type 0 where
  to_sign to_send : Bytes → Bytes → Told
  ended : Bytes → Option MintError → List Violation → Told

-- A host's reading of a reply, by the names of its fields.
abbrev told : (Bytes → Told) → Option Bytes → Option Told
told t none = none
told t (some b) = some (t b)

abbrev read_error : Option Value → Option MintError
read_error (some (error_text e)) = some e
read_error _ = none

abbrev read_disclosures : Option Value → List Violation
read_disclosures (some (code_and_detail ds)) = ds
read_disclosures _ = []

abbrev read_end : Fields → Option Value → Option Told
read_end f (some (text key)) = some (
    ended key (read_error (find (codes "error") f))
      (read_disclosures (find (codes "disclosures") f)))
read_end f _ = none

module _ (texts : Texts) where
  abbrev read_entry : Bytes → (Bytes → Bytes → Told) → Option Value → Value → Option Told
  read_entry name t (some (text id)) (entry k v) =
      if equal k name then told (t id) (texts.decode_base64 v) else none
  read_entry name t _ _ = none

  abbrev read_send : Fields → Option Value → Option Told
  read_send f none = none
  read_send f (some v) = read_entry (codes "body") to_send (find (codes "session") f) v

  abbrev read_call : Fields → Option Value → Option Told
  read_call f none = read_send f (find (codes "fetch") f)
  read_call f (some v) = read_entry (codes "message") to_sign (find (codes "session") f) v

  abbrev read_fields : Fields → Option Value → Option Told
  read_fields f none = read_call f (find (codes "sign") f)
  read_fields f (some v) = read_end f (find (codes "mint") f)

  abbrev pub read_reply : ToolReply → Option Told
  read_reply (plain b) = none
  read_reply (fields f) = read_fields f (find (codes "done") f)

-- Where a session stands.
abbrev pub call_told : Bytes → HostCall → Option Told
call_told id req = elim req.sign_request [
  | some s ↦ some (to_sign id s.message)
  | none ↦ elim req.fetch_request [ some f ↦ some (to_send id f.request_body) | none ↦ none ]
]

module _ (texts : Texts) (p : Printer) where
  abbrev result_told : MintResult → Told
  result_told (key, disclosures, error) = ended (p.key_text key) error disclosures

  abbrev pub stands : Bytes → Session MintResult → Option Told
  stands id s = elim s.outcome [
    | some out ↦ some (result_told out)
    | none ↦ elim s.pending [ some req ↦ call_told id req | none ↦ none ]
  ]

  pub minted-told :
      (out : MintResult) (a : Answer)
      → mint_report out ≡ ok a
      → read_reply texts (reply texts p a) ≡ some (result_told out)
  unfolding reply find equal
  minted-told (key, [], none) a e = (let same : minted key none [] ≡ a = cc in rw⁻¹ same refl)
  minted-told (key, d ∷ ds, none) a e =
      let same : minted key none (d ∷ ds) ≡ a = cc in rw⁻¹ same refl
  minted-told (key, [], some x) a e = let same : minted key (some x) [] ≡ a = cc in rw⁻¹ same refl
  minted-told (key, d ∷ ds, some x) a e =
      let same : minted key (some x) (d ∷ ds) ≡ a = cc in rw⁻¹ same refl

  -- What encoding/base64 documents.
  abbrev pub DecodesEncoded : Type 0
  DecodesEncoded = (b : Bytes) → texts.decode_base64 (texts.encode_base64 b) ≡ some b

  pub call-told :
      DecodesEncoded
      → (id : Bytes) (req : HostCall) (a : Answer) → pending_reply texts id req ≡ ok a
      → read_reply texts (reply texts p a) ≡ call_told id req
  unfolding reply find equal pending_reply
  call-told decodes id req a e = elim (Option-cases req.sign_request) [
    | inr (s, signs) ↦
        let now = rw (pending_reply, signs) at e in
        let same : sign_answer id (texts.encode_base64 s.message) ≡ a = cc in
        rw⁻¹ same (rw (signs, decodes s.message) refl)
    | inl unsigned ↦ elim (Option-cases req.fetch_request) [
      | inr (f, sends) ↦
          let now = rw (pending_reply, unsigned, sends) at e in
          let same : fetch_answer id (texts.encode_base64 f.request_body) ≡ a = cc in
          rw⁻¹ same (rw (unsigned, sends, decodes f.request_body) refl)
      | inl neither ↦ (let now = rw (pending_reply, unsigned, neither) at e in cc)
    ]
  ]

  -- A reply of `token_mint` tells the host where its session stands: which bytes it is to sign or to
  -- send for which session, or with which address, error and disclosures the mint ended; base64 decodes
  -- what it encoded.
  pub render-told :
      DecodesEncoded
      → (id : Bytes) (s : Session MintResult) (r : Registry (Session MintResult)) (a : Answer)
      → (render texts mint_report id s r).0 ≡ ok a
      → read_reply texts (reply texts p a) ≡ stands id s
  unfolding render
  render-told decodes id s r a e = elim (Option-cases s.outcome) [
    | inr (out, done) ↦ (let now = rw (render, done) at e in rw done (minted-told out a now))
    | inl open_end ↦ elim (Option-cases s.pending) [
      | inr (req, waits) ↦
          let now = rw (render, open_end, waits) at e in
          rw (open_end, waits) (call-told decodes id req a now)
      | inl idle ↦ (let now = rw (render, open_end, idle) at e in cc)
    ]
  ]
