-- ===== src/Token/Session/Parked.antt =====
-- token/session.go: the states that a session can be in.
use flynn_extensions.Prelude.{◌≡◌, ◌≢◌, ◌⊎◌, inl, inr, refl, sym, ap, ◌∙◌, subst, none, some}
use flynn_extensions.Prelude.Result.{ok, err}
use flynn_extensions.Token.Host.{HostCall, HostReply}
use flynn_extensions.Token.Session.{
  Life, finished, awaits, Session, session_done, park, start, advance_session,
}

module _ {T : Type 0} where
  -- The session of a goroutine that has sent its outcome, or waits for a reply.
  abbrev pub parked : Life T → Session T
  parked (finished out) = record { pending = none; outcome = some out; life = finished out }
  parked (awaits req k) = record { pending = some req; outcome = none; life = awaits req k }

  pub start-parked : (life : Life T) → start life ≡ parked life
  start-parked (finished out) = refl
  start-parked (awaits req k) = refl

  park-parked :
      (life old : Life T)
      → park life (record { pending = none; outcome = none; life = old }) ≡ parked life
  park-parked (finished out) old = refl
  park-parked (awaits req k) old = refl

  pub advance-parked :
      (req : HostCall) (k : HostReply → Life T) (r : HostReply)
      → advance_session r (parked (awaits req k)) ≡ ok (parked (k r))
  unfolding advance_session
  advance-parked req k r = ap ok (park-parked (k r) (awaits req k))

  -- The sessions that a start and the replies to it lead to.
  pub data Reach (life : Life T) : Session T → Type 0 where
    begins : Reach life (start life)
    goes :
        {s n : Session T} (r : HostReply) → Reach life s → advance_session r s ≡ ok n → Reach life n

  -- Either it is done, with an outcome and no call, and refuses every reply as done; or it waits, with a
  -- call and no outcome, and takes every reply.
  abbrev pub IsTurn : Session T → Type 0
  IsTurn s =
      ((s.pending ≡ none)
        × (s.outcome ≢ none)
        × ((r : HostReply) → advance_session r s ≡ err session_done))
      ⊎ ((s.pending ≢ none)
          × (s.outcome ≡ none)
          × ((r : HostReply) → (n : Session T) × (advance_session r s ≡ ok n)))

  parked-IsTurn : (life : Life T) → IsTurn (parked life)
  unfolding advance_session
  parked-IsTurn (finished out) = inl (refl, (λ e. cc), λ r. refl)
  parked-IsTurn (awaits req k) = inr ((λ e. cc), refl, λ r. (parked (k r), advance-parked req k r))

  next-parked :
      (life : Life T) (r : HostReply) (n : Session T)
      → advance_session r (parked life) ≡ ok n
      → (next : Life T) × (n ≡ parked next)
  unfolding advance_session
  next-parked (finished out) r n h = cc
  next-parked (awaits req k) r n h =
      let same : ok (parked (k r)) ≡ ok n = sym (advance-parked req k r) ∙ h in (k r, cc)

  pub Reach-parked :
      (start_ : Life T) {s : Session T} → Reach start_ s → (life : Life T) × (s ≡ parked life)
  Reach-parked start_ begins = (start_, start-parked start_)
  Reach-parked start_ (goes {s} {n} r before h) =
      let (life, same) = Reach-parked start_ before in
      next-parked life r n (subst (λ s. advance_session r s ≡ ok n) same h)

-- A session that was started, and given any replies, either has completed, with no call outstanding, and
-- refuses further replies as done, or has one call outstanding, without an outcome, and takes any reply.
pub Reach-IsTurn : {T : Type 0} (life : Life T) (s : Session T) → Reach life s → IsTurn s
Reach-IsTurn life s reached =
    let (now, same) = Reach-parked life reached in subst IsTurn (sym same) (parked-IsTurn now)
