-- ===== src/TokenCommand/Held.antt =====
-- cmd/token/main.go, `sessionRegistry` and `handle`: a condition on sessions that a call keeps of all
-- sessions in a registry.
use flynn_extensions.Prelude.{
  ◌+◌, ◌%◌, ◌^◌, ◌≡◌, inl, inr, refl, subst, Bool-cases, Option-cases, Option, none, some, [],
  Bytes, equal, equal_iff,
}
use flynn_extensions.Prelude.Result.{Result, ok, err}
use flynn_extensions.Token.Host.{HostReply}
use flynn_extensions.Token.Session.{Session, SessionError, advance_session}
use flynn_extensions.TokenCommand.{
  ResumeArgs, Texts, ToolError, Answer, Registry, new_registry, find, get, assign, discard, next_id,
  reply_of, render, after_advance, after_reply, continue_session, opened, handle,
}
use flynn_extensions.TokenCommand.Entries.{find-delete, find-assign}

-- Every session in the registry has the property.
abbrev pub AllHold : {S : Type 0} → (S → Type 0) → Registry S → Type 0
AllHold P r = (id : Bytes) (s : _) → get id r ≡ some s → P s

pub new-AllHold : {S : Type 0} (P : S → Type 0) (prefix : Bytes) → AllHold P (new_registry prefix)
unfolding find
new-AllHold P prefix id s h = cc

module _ {T : Type 0} (P : Session T → Type 0) where
  -- A reply keeps the property of the session that it advances.
  abbrev pub Advances : Type 0
  Advances = (r : HostReply) (s n : Session T) → P s → advance_session r s ≡ ok n → P n

  discard-AllHold : (id : Bytes) (r : Registry (Session T)) → AllHold P r → AllHold P (discard id r)
  discard-AllHold id r h k s found = h k s (find-delete k id r.sessions s found).0

  assign-AllHold :
      (id : Bytes) (s : Session T) (r : Registry (Session T))
      → P s
      → AllHold P r
      → AllHold P (assign id s r)
  assign-AllHold id s r p h k t found = elim (find-assign k id s t r.sessions found) [
    | inl (same, e) ↦ subst P e p
    | inr old ↦ h k t old
  ]

  module _ (texts : Texts) (report : T → Result ToolError Answer) where
    render-AllHold :
        (id : Bytes) (s : Session T) (r : Registry (Session T))
        → AllHold P r
        → AllHold P (render texts report id s r).1
    unfolding render
    render-AllHold id s r h = elim (Option-cases s.outcome) [
      | inr (out, done) ↦ rw (render, done) (discard-AllHold id r h)
      | inl open_end ↦ elim (Option-cases s.pending) [
        | inr (req, waits) ↦ rw (render, open_end, waits) h
        | inl idle ↦ rw (render, open_end, idle) h
      ]
    ]

    opened-AllHold :
        (fresh : Result ToolError (Session T)) (r : Registry (Session T))
        → ((s : Session T) → fresh ≡ ok s → P s)
        → AllHold P r
        → AllHold P (opened texts report fresh r).1
    opened-AllHold (err e) r starts h = h
    opened-AllHold (ok s) r starts h =
        let next = record r { seq = (r.seq + 1) % 2 ^ 64 } in
        render-AllHold (next_id texts r) s (assign (next_id texts r) s next)
          (assign-AllHold (next_id texts r) s next (starts s refl) h)

    after_advance-AllHold :
        (id : Bytes) (result : Result SessionError (Session T)) (r : Registry (Session T))
        → ((n : Session T) → result ≡ ok n → P n)
        → AllHold P r
        → AllHold P (after_advance texts report id result r).1
    after_advance-AllHold id (err e) r keeps h = discard-AllHold id r h
    after_advance-AllHold id (ok n) r keeps h =
        render-AllHold id n (assign id n r) (assign-AllHold id n r (keeps n refl) h)

    after_reply-AllHold :
        Advances
        → (id : Bytes) (s : Session T) (reply : Result ToolError HostReply)
          (r : Registry (Session T))
        → P s
        → AllHold P r
        → AllHold P (after_reply texts report id s reply r).1
    after_reply-AllHold advances id s (err e) r p h = h
    after_reply-AllHold advances id s (ok reply) r p h =
        after_advance-AllHold id (advance_session reply s) r (λ n e. advances reply s n p e) h

    continue_session-AllHold :
        Advances
        → (a : ResumeArgs) (s : Option (Session T)) (r : Registry (Session T)) → get a.session r ≡ s
        → AllHold P r
        → AllHold P (continue_session texts report a s r).1
    continue_session-AllHold advances a none r found h = h
    continue_session-AllHold advances a (some s) r found h =
        after_reply-AllHold advances a.session s (reply_of texts a) r (h a.session s found) h

    pub handle-AllHold :
        Advances
        → (a : ResumeArgs) (fresh : Result ToolError (Session T)) (r : Registry (Session T))
        → (a.session ≡ [] → (s : Session T) → fresh ≡ ok s → P s)
        → AllHold P r
        → AllHold P (handle texts report a fresh r).1
    unfolding handle
    handle-AllHold advances a fresh r starts h = elim (Bool-cases (equal a.session [])) [
      | inl new ↦ rw new (opened-AllHold fresh r (starts ((equal_iff a.session []).0 new)) h)
      | inr old ↦ rw old (continue_session-AllHold advances a (get a.session r) r refl h)
    ]
