-- ===== src/Solana/Message/Body.antt =====
-- The body of `parseMessage` in solana/message.go against the wire form of a message.
use flynn_extensions.Prelude.{
  ℕ, ◌≡◌, refl, ◌∙◌, [], ◌∷◌, ◌++◌, length, ◌<◌, append-nil, Bytes, arith,
}
use mathlib.Core.List.{map-id}
use flynn_extensions.Solana.Reader.Length.{
  Parses-byte, Consumes-byte, Parses-compact_u16, Consumes-compact_u16,
}
use flynn_extensions.Solana.Reader.Each.{Parses-each, Consumes-each, IsItem}
use flynn_extensions.Solana.Reader.Rules.{
  Parses, Parses-pure, Parses-bind, Parses-then, Parses-within, Parses-take,
}
use flynn_extensions.Solana.Reader.Consumed.{
  Consumes, Consumes-pure, Consumes-bind, Consumes-weaken, Consumes-within, Consumes-take,
}
use flynn_extensions.Solana.Message.{Message, read_account, read_instruction, read_body}
use flynn_extensions.Solana.Message.Wire.{
  WireInstruction, WireMessage, FitsInstruction, FitsMessage, IsAddress, view_instruction,
  encode_instruction, encode, view,
}

Parses-read_account : (i : ℕ) (a : Bytes) → IsAddress a → Parses (read_account i) a a
unfolding read_account
Parses-read_account i a h = Parses-within _ (Parses-take 32 a h)

Parses-read_instruction :
    (i : ℕ) (w : WireInstruction)
    → FitsInstruction w
    → Parses (read_instruction i) (view_instruction w) (encode_instruction w)
unfolding read_instruction encode_instruction
Parses-read_instruction i w h = Parses-bind _ (Parses-within _ (Parses-byte w.program_index)) (
    Parses-bind _ (Parses-within _ (Parses-compact_u16 _ h.index_fits)) (
      Parses-bind _ (Parses-within _ (Parses-take _ w.account_indexes refl)) (
        Parses-bind _ (Parses-within _ (Parses-compact_u16 _ h.data_fits))
          (Parses-then _ (Parses-within _ (Parses-take _ w.ix_data refl)) (Parses-pure _)))))

Consumes-read_account : (i : ℕ) → Consumes (IsItem (λ a. a) (λ a. a) IsAddress) (read_account i)
unfolding read_account
Consumes-read_account i =
    Consumes-within _
      (Consumes-weaken (λ v f (e, count, bytes). (f, count, e, refl)) (Consumes-take 32))

Consumes-read_instruction :
    (i : ℕ)
    → Consumes (IsItem view_instruction encode_instruction FitsInstruction) (read_instruction i)
unfolding read_instruction encode_instruction
Consumes-read_instruction i = Consumes-bind (Consumes-within _ Consumes-byte) λ prog f0 (e0, b0).
    Consumes-bind (Consumes-within _ Consumes-compact_u16) λ n f1 (h1, e1).
      Consumes-bind (Consumes-within _ (Consumes-take n)) λ idx f2 (e2, c2, b2).
        Consumes-bind (Consumes-within _ Consumes-compact_u16) λ k f3 (h3, e3).
          Consumes-bind (Consumes-within _ (Consumes-take k)) λ bytes f4 (e4, c4, b4).
            Consumes-pure _ (
              record { program_index = prog; account_indexes = idx; ix_data = bytes },
              record { index_fits = rw (e2, c2) h1; data_fits = rw (e4, c4) h3 },
              refl,
              rw e0 (cc (append-nil f4)),
            )

pub Parses-read_body : (w : WireMessage) → FitsMessage w → Parses read_body (view w) (encode w)
unfolding read_body encode
Parses-read_body w h =
    Parses-bind _
      (Parses-within _ (
        Parses-take 3
          (w.num_required_signatures ∷ w.num_readonly_signed ∷ w.num_readonly_unsigned ∷ []) refl))
      (Parses-bind _ (Parses-within _ (Parses-compact_u16 _ h.accounts_fit)) (
        Parses-bind _
          (Parses-each _ _ _ read_account Parses-read_account w.accounts 0 [] h.addresses)
          (Parses-bind _ (Parses-within _ (Parses-take 32 w.recent_blockhash h.hash_fits)) (
            Parses-bind _ (Parses-within _ (Parses-compact_u16 _ h.instructions_fit)) (
              Parses-then _
                (Parses-each _ _ _ read_instruction Parses-read_instruction w.instructions 0 []
                  h.each_fits)
                (rw map-id (Parses-pure (view w))))))))

-- A message that was read, and the bytes that it was read from, if they start as a legacy message.
abbrev pub IsMessage : Message → Bytes → Type 0
IsMessage m f =
    (x : ℕ) (t : Bytes)
    → f ≡ x ∷ t
    → x < 128
    → (w : WireMessage) × FitsMessage w × (m ≡ view w) × (f ≡ encode w)

three_bytes : (f : Bytes) → length f ≡ 3 → (a : ℕ) × (b : ℕ) × (c : ℕ) × (f ≡ a ∷ b ∷ c ∷ [])
three_bytes [] h = absurd (omega arith)
three_bytes (a ∷ []) h = absurd (omega arith)
three_bytes (a ∷ b ∷ []) h = absurd (omega arith)
three_bytes (a ∷ b ∷ c ∷ []) h = (a, b, c, refl)
three_bytes (a ∷ b ∷ c ∷ d ∷ f) h = absurd (omega arith)

first_is : (a x : ℕ) {b f t : Bytes} (r : Bytes) → f ≡ a ∷ b → f ++ r ≡ x ∷ t → x < 128 → a < 128
first_is a x r e start legacy = let same = rw e at start in ground arith

pub Consumes-read_body : Consumes IsMessage read_body
unfolding read_body encode
Consumes-read_body = Consumes-bind (Consumes-within _ (Consumes-take 3)) λ hd f0 (e0, c0, b0).
    Consumes-bind (Consumes-within _ Consumes-compact_u16) λ n f1 (h1, e1).
      Consumes-bind (Consumes-each _ _ _ read_account Consumes-read_account n 0 [])
        λ keys f2 (keys', fit2, c2, e2, g2).
          Consumes-bind (Consumes-within _ (Consumes-take 32)) λ hash f3 (e3, c3, b3).
            Consumes-bind (Consumes-within _ Consumes-compact_u16) λ k f4 (h4, e4).
              Consumes-bind (Consumes-each _ _ _ read_instruction Consumes-read_instruction k 0 [])
                λ ixs f5 (ws, fit5, c5, e5, g5). Consumes-pure _ λ x t start legacy.
                  let (a, b, c, header) = three_bytes f0 c0 in
                  (
                    record {
                      num_required_signatures = a;
                      num_readonly_signed = b;
                      num_readonly_unsigned = c;
                      accounts = keys';
                      recent_blockhash = f3;
                      instructions = ws;
                    },
                    record {
                      legacy = first_is a x _ header start legacy;
                      accounts_fit = rw c2 h1;
                      addresses = fit2;
                      hash_fits = c3;
                      instructions_fit = rw c5 h4;
                      each_fits = fit5;
                    },
                    λ i. record { accounts = (e2 ∙ map-id keys') i; instructions = e5 i },
                    rw header (unfold encode in cc (append-nil f5)),
                  )
