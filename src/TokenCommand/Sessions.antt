-- ===== src/TokenCommand/Sessions.antt =====
-- cmd/token/main.go, `sessionRegistry` and `handle`: what the registry holds between two calls.
use flynn_extensions.Prelude.{
  ℕ, ◌+◌, ◌%◌, ◌^◌, ◌≤◌, ◌<◌, ◌≡◌, ◌⊎◌, inl, inr, refl, sym, ◌∙◌, subst, Bool-cases, Option, none,
  some, [], ◌∷◌, ◌++◌, Bytes, equal, equal_self, arith,
}
use flynn_extensions.Prelude.Result.{Result, ok, err}
use flynn_extensions.Token.Host.{HostCall, HostReply}
use flynn_extensions.Token.Session.{Life, finished, awaits, Session, start}
use flynn_extensions.Token.Session.Parked.{parked, start-parked, advance-parked}
use flynn_extensions.TokenCommand.{
  ResumeArgs, Texts, ToolError, unknown_session, Answer, Registry, find, delete, get, assign,
  discard, next_id, reply_of, pending_reply, render, open_session, after_advance, after_reply,
  continue_session, opened, handle,
}
use flynn_extensions.TokenCommand.Entries.{find-delete_self, find-delete, find-assign, other_id}

module _ {T : Type 0} where
  -- The session waits for a reply of the host.
  abbrev pub Waits : Session T → Type 0
  Waits s = (req : HostCall) × (k : HostReply → Life T) × (s ≡ parked (awaits req k))

module _ (texts : Texts) where
  -- The id was given out, as the prefix with a number so far.
  abbrev pub IsGiven : Bytes → Bytes → ℕ → Type 0
  IsGiven prefix id seq = (n : ℕ) × (n ≤ seq) × (id ≡ prefix ++ texts.format_uint n)

-- A condition on a prefix, an id and the number of ids so far, for the ids of a registry.
abbrev pub Given : Type 1
Given = Bytes → Bytes → ℕ → Type 0

-- Every session in the registry waits, under an id with the condition.
abbrev pub KeptBy : Given → {T : Type 0} → Registry (Session T) → Type 0
KeptBy G r = (id : Bytes) (s : _) → get id r ≡ some s → Waits s × G r.prefix id r.seq

-- Every session in the registry waits, under an id that was given out.
abbrev pub IsKept : Texts → {T : Type 0} → Registry (Session T) → Type 0
IsKept texts r = KeptBy (IsGiven texts) r

-- The next id has the condition, and those that have it keep it.
abbrev pub Grows : Texts → Given → {S : Type 0} → Registry S → Type 0
Grows texts G r =
    ((id : Bytes) → G r.prefix id r.seq → G r.prefix id ((r.seq + 1) % 2 ^ 64))
    × G r.prefix (next_id texts r) ((r.seq + 1) % 2 ^ 64)

pub IsGiven-Grows :
    {S : Type 0} (texts : Texts) (r : Registry S)
    → r.seq + 1 < 2 ^ 64
    → Grows texts (IsGiven texts) r
IsGiven-Grows texts r small =
    let counted : (r.seq + 1) % 2 ^ 64 ≡ r.seq + 1 = ground (arith, small) in
    (
      (λ id (n, old, same). (n, rw counted (omega (arith, old)), same)),
      ((r.seq + 1) % 2 ^ 64, omega arith, refl),
    )

module _ (texts : Texts) where
  module _ {T : Type 0} (report : T → Result ToolError Answer) where
    -- A reply is the report of an outcome, whose session is gone, or the call that the session waits for
    -- which the registry holds under the reply's id.
    abbrev pub Offers : Answer → Registry (Session T) → Type 0
    Offers a r =
        ((id : Bytes) × (out : T) × (report out ≡ ok a) × (get id r ≡ none))
        ⊎ ((id : Bytes) × (s : Session T) × (req : HostCall) × (get id r ≡ some s)
            × (s.pending ≡ some req)
            × (pending_reply texts id req ≡ ok a))

    abbrev pub Answered : Result ToolError Answer → Registry (Session T) → Type 0
    Answered (err e) r = Unit
    Answered (ok a) r = Offers a r

    ok-Answered :
        (result : Result ToolError Answer) (r : Registry (Session T))
        → ((a : Answer) → result ≡ ok a → Offers a r)
        → Answered result r
    ok-Answered (err e) r h = tt
    ok-Answered (ok a) r h = h a refl

    -- What a call starts is a session that was just started.
    abbrev pub Starts : Result ToolError (Session T) → Type 0
    Starts (err e) = Unit
    Starts (ok s) = (life : Life T) × (s ≡ start life)

module _ (texts : Texts) (G : Given) where
  module _ {T : Type 0} (report : T → Result ToolError Answer) where
    abbrev pub Resumable : Result ToolError Answer × Registry (Session T) → Type 0
    Resumable (result, r) = KeptBy G r × Answered texts report result r

    discard-KeptBy : (id : Bytes) (r : Registry (Session T)) → KeptBy G r → KeptBy G (discard id r)
    discard-KeptBy id r h k s found = h k s (find-delete k id r.sessions s found).0

    render-Resumable :
        (id : Bytes) (life : Life T) (r : Registry (Session T))
        → KeptBy G r
        → G r.prefix id r.seq
        → Resumable (render texts report id (parked life) (assign id (parked life) r))
    unfolding render find
    render-Resumable id (finished out) r h given =
        let done = parked (finished out) in
        (
          (λ k s found.
              let (there, apart) = find-delete k id ((id, done) ∷ delete id r.sessions) s found in
              elim (find-assign k id done s r.sessions there) [
                | inl (same, e) ↦ absurd (other_id id k apart same)
                | inr old ↦ h k s old
              ]),
          ok-Answered texts report (report out) _
              (λ a e. inl (id, out, e, find-delete_self id ((id, done) ∷ delete id r.sessions))),
        )
    render-Resumable id (awaits req k) r h given =
        let waiting = parked (awaits req k) in
        (
          (λ j s found. elim (find-assign j id waiting s r.sessions found) [
            | inl (same, e) ↦ ((req, k, sym e), subst (λ j. G r.prefix j r.seq) same given)
            | inr old ↦ h j s old
          ]),
          ok-Answered texts report (pending_reply texts id req) _
              (λ a e. inr (id, waiting, req, rw (equal_self id) refl, refl, e)),
        )

    pub Resumable-err :
        (e : ToolError) (r : Registry (Session T)) → KeptBy G r → Resumable (err e, r)
    Resumable-err e r h = (h, tt)

    open_session-Resumable :
        (life : Life T) (r : Registry (Session T))
        → Grows texts G r
        → KeptBy G r
        → Resumable (open_session texts report (parked life) r)
    open_session-Resumable life r (kept, new) h =
        let next = record r { seq = (r.seq + 1) % 2 ^ 64 } in
        let more : KeptBy G next =
          λ id s found. (let (waits, given) = h id s found in (waits, kept id given)) in
        render-Resumable (next_id texts r) life next more new

    after_reply-Resumable :
        (id : Bytes) (req : HostCall) (k : HostReply → Life T) (reply : Result ToolError HostReply)
        (r : Registry (Session T))
        → KeptBy G r
        → G r.prefix id r.seq
        → Resumable (after_reply texts report id (parked (awaits req k)) reply r)
    after_reply-Resumable id req k (err e) r h given = Resumable-err e r h
    after_reply-Resumable id req k (ok reply) r h given =
        subst (λ next. Resumable (after_advance texts report id next r))
          (sym (advance-parked req k reply)) (render-Resumable id (k reply) r h given)

    continue_session-Resumable :
        (a : ResumeArgs) (r : Registry (Session T)) (s : Option (Session T))
        → KeptBy G r
        → get a.session r ≡ s
        → Resumable (continue_session texts report a s r)
    continue_session-Resumable a r none h found = Resumable-err (unknown_session a.session) r h
    continue_session-Resumable a r (some s) h found =
        let ((req, k, same), given) = h a.session s found in
        subst (λ s. Resumable (after_reply texts report a.session s (reply_of texts a) r))
          (sym same) (after_reply-Resumable a.session req k (reply_of texts a) r h given)

    opened-Resumable :
        (fresh : Result ToolError (Session T)) (r : Registry (Session T))
        → Starts texts report fresh
        → Grows texts G r
        → KeptBy G r
        → Resumable (opened texts report fresh r)
    opened-Resumable (err e) r starts grows h = Resumable-err e r h
    opened-Resumable (ok s) r (life, same) grows h =
        subst (λ s. Resumable (open_session texts report s r)) (sym (same ∙ start-parked life))
          (open_session-Resumable life r grows h)

    pub handle-Resumable :
        (a : ResumeArgs) (fresh : Result ToolError (Session T)) (r : Registry (Session T))
        → Starts texts report fresh
        → Grows texts G r
        → KeptBy G r
        → Resumable (handle texts report a fresh r)
    unfolding handle
    handle-Resumable a fresh r starts grows h = elim (Bool-cases (equal a.session [])) [
      | inl new ↦ rw new (opened-Resumable fresh r starts grows h)
      | inr old ↦ rw old (continue_session-Resumable a r (get a.session r) h refl)
    ]
