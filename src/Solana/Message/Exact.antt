-- ===== src/Solana/Message/Exact.antt =====
-- `parseMessage` of solana/message.go as a whole against the wire form, in both directions.
use flynn_extensions.Prelude.{
  ℕ, ◌<◌, ◌≡◌, ◌↔◌, refl, sym, ap, ◌∙◌, [], ◌∷◌, ◌++◌, append-nil, arith, ◌==◌, Bool-cases, inl,
  inr, length, length-append, All, Bytes, IsByte, bit_and,
}
use flynn_extensions.Prelude.Bits.{high_bit}
use flynn_extensions.Prelude.Result.{Result, ok, err}
use flynn_extensions.Solana.Reader.{Reader, ◌>>=◌, remaining}
use flynn_extensions.Solana.Reader.Rules.{reader_at, remaining-reader_at, >>=-Gives, Parses}
use flynn_extensions.Solana.Message.{
  MessageError, Message, parse_message, read_body, read_message, no_trailing, message_of,
}
use flynn_extensions.Solana.Message.Wire.{WireMessage, FitsMessage, encode, view}
use flynn_extensions.Solana.Message.Body.{IsMessage, Parses-read_body, Consumes-read_body}

read_message-Parses :
    (b : Bytes) {m : Message}
    → Parses read_body m b
    → message_of (read_message (reader_at [] b)) ≡ ok m
unfolding read_message no_trailing ◌>>=◌ remaining
read_message-Parses b p = rw (rw append-nil at (p.at [] [])) (ground (arith, length-append b []))

message_of-eq-ok :
    (x : Result MessageError (Message × Reader)) {m : Message}
    → message_of x ≡ ok m
    → (r : Reader) × (x ≡ ok (m, r))
message_of-eq-ok (ok (n, r)) e = (r, cc)
message_of-eq-ok (err f) e = cc

no_trailing-eq-ok :
    (n : Message) (r : Reader) {m : Message} {s : Reader}
    → no_trailing n r ≡ ok (m, s)
    → (n ≡ m) × (remaining r ≡ 0)
unfolding no_trailing
no_trailing-eq-ok n r e = ground arith

nothing_left : (l : Bytes) → length l ≡ 0 → l ≡ []
nothing_left [] h = refl
nothing_left (x ∷ l) h = absurd (omega arith)

-- What `read_message` accepts, `read_body` read to the end.
read_message-inv :
    (b : Bytes) {m : Message}
    → All IsByte b
    → message_of (read_message (reader_at [] b)) ≡ ok m
    → IsMessage m b
unfolding read_message
read_message-inv b {m} bytes e =
    let (s, accepted) = message_of-eq-ok (read_message (reader_at [] b)) e in
    let (n, r, got, last) = >>=-Gives read_body no_trailing (reader_at [] b) accepted in
    let (same, done) = no_trailing-eq-ok n r last in
    let x = Consumes-read_body.at [] b n r bytes got in
    let empty : x.after ≡ [] =
      nothing_left x.after
        (sym (remaining-reader_at x.front x.after) ∙ ap remaining (sym x.reader) ∙ done) in
    let whole : b ≡ x.front = x.splits ∙ ap (◌++◌ x.front) empty ∙ append-nil x.front in
    rw (whole, ← same) x.holds

parse_message-legacy :
    (x : ℕ) (xs : Bytes)
    → x < 128
    → parse_message (x ∷ xs) ≡ message_of (read_message (reader_at [] (x ∷ xs)))
unfolding parse_message
parse_message-legacy x xs h = ground (arith, high_bit x)

-- Every message in wire form is read, and read as what it says.
pub parse_message-encode :
    (w : WireMessage) → FitsMessage w → parse_message (encode w) ≡ ok (view w)
unfolding encode
parse_message-encode w h =
    parse_message-legacy _ _ h.legacy ∙ read_message-Parses (encode w) (Parses-read_body w h)

-- A payload that is read is a message in wire form, whole, and what was read is what it says.
pub parse_message-inv :
    (b : Bytes) {m : Message}
    → All IsByte b
    → parse_message b ≡ ok m
    → (w : WireMessage) × FitsMessage w × (m ≡ view w) × (b ≡ encode w)
unfolding parse_message
parse_message-inv [] bytes e = cc
parse_message-inv (x ∷ xs) bytes e = elim (Bool-cases (bit_and x 0x80 == 0)) [
  | inl legacy ↦
      read_message-inv (x ∷ xs) bytes (rw legacy at e) x xs refl (ground (arith, high_bit x))
  | inr set ↦ let refused = rw set at e in cc
]

-- A payload of bytes is read exactly when it is the whole of a legacy message in wire form that keeps the
-- limits of the format, and what was read is then what that message says.
pub parse_message_iff :
    (b : Bytes) (m : Message)
    → All IsByte b
    → (parse_message b ≡ ok m) ↔ ((w : WireMessage) × FitsMessage w × (m ≡ view w) × (b ≡ encode w))
parse_message_iff b m bytes =
    (parse_message-inv b bytes, λ (w, fits, e, whole). rw (whole, e) (parse_message-encode w fits))
