-- ===== src/Solana/Policy/Exact.antt =====
-- `Approve` of solana/solana.go as a whole against the uses that the key is granted for.
use flynn_extensions.Prelude.{
  ◌<◌, ◌≡◌, ◌≢◌, ◌↔◌, refl, sym, ap, ◌∙◌, List, [], ◌∷◌, length, All, arith, Bytes, IsByte,
  equal_iff, equal_self,
}
use flynn_extensions.Prelude.Result.{ok, >>=-Gives, wrap->>=-Gives}
use flynn_extensions.Solana.Message.{Message, parse_message}
use flynn_extensions.Solana.Message.Exact.{parse_message-inv}
use flynn_extensions.Solana.Policy.{
  Solana, approve_each, check_revoked, no_counts, approve_payer, approve_message, approve,
}
use flynn_extensions.Solana.Policy.Uses.{
  Use, mints, revokes_mint, revokes_freeze, uses, MayBeSigned,
}
use flynn_extensions.Solana.Policy.Steps.{tally_all, approve_each_iff, tally_all-counts}

approve_payer-ok :
    (payer : Bytes) (accounts : List Bytes)
    → approve_payer payer accounts ≡ ok tt
    → (others : List Bytes) × (accounts ≡ payer ∷ others)
unfolding approve_payer
approve_payer-ok payer [] e = cc
approve_payer-ok payer (a ∷ others) e = (others, ground (arith, equal_iff a payer))

-- The revocations that `Approve` asks for, on the uses of the message.
abbrev Revoked : List Use → Type 0
Revoked us = 0 < uses mints us → (0 < uses revokes_mint us) × (0 < uses revokes_freeze us)

check_revoked-ok : (us : List Use) → (check_revoked (tally_all us no_counts) ≡ ok tt) ↔ Revoked us
unfolding check_revoked
check_revoked-ok us = (
  λ e h. ground (arith, tally_all-counts us no_counts),
  λ h. ground (arith, tally_all-counts us no_counts),
)

module _ (p : Solana) (m : Message) where
  approve_message_iff : (approve_message p m ≡ ok tt) ↔ MayBeSigned p.payer m
  unfolding approve_message
  approve_message_iff = (
    λ e.
        let (t, paid, rest) = >>=-Gives (approve_payer p.payer m.accounts) _ e in
        let (c, each, last) = >>=-Gives (approve_each m 0 m.instructions no_counts) _ rest in
        let (us, used, same) = (approve_each_iff m 0 m.instructions no_counts c).0 each in
        let (others, head) = approve_payer-ok p.payer m.accounts paid in
        record {
          others = others;
          paid = head;
          us = us;
          used = used;
          revoked = (check_revoked-ok us).0 (rw same at last);
        },
    λ s.
        let each = (approve_each_iff m 0 m.instructions no_counts _).1 (s.us, s.used, refl) in
        let paid : approve_payer p.payer m.accounts ≡ ok tt =
          rw s.paid (unfold approve_payer in rw equal_self refl) in
        rw (paid, each) ((check_revoked-ok s.us).1 s.revoked),
  )

-- `Approve` returns nil exactly when the payload is read as a message that may be signed.
pub approve_iff :
    (p : Solana) (payload : Bytes)
    → (approve p payload ≡ ok tt)
      ↔ ((m : Message) × (parse_message payload ≡ ok m) × MayBeSigned p.payer m)
unfolding approve
approve_iff p payload = (
  λ e.
      let (m, read, rest) = wrap->>=-Gives _ (parse_message payload) _ e in
      (m, read, (approve_message_iff p m).0 rest),
  λ (m, read, may). rw read ((approve_message_iff p m).1 may),
)

-- A policy that no key of 32 bytes was bound to refuses every payload of bytes.
pub approve_unbound :
    (p : Solana) (payload : Bytes)
    → All IsByte payload
    → length p.payer ≢ 32
    → approve p payload ≢ ok tt
approve_unbound p payload bytes short e =
    let (m, read, may) = (approve_iff p payload).0 e in
    let (w, fits, same, whole) = parse_message-inv payload bytes read in
    let first_account : w.accounts ≡ p.payer ∷ may.others =
      ap (λ x. x.accounts) (sym same) ∙ may.paid in
    short (rw first_account at fits.addresses).0
