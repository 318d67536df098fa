-- ===== src/Token/Engine/Confirm.antt =====
-- token/engine.go, `confirmOrExpire`: what the node said last, for each of the loop's ends.
use flynn_extensions.Prelude.{
  ℕ, zero, suc, ◌<◌, ◌≡◌, ◌≢◌, ◌⊎◌, inl, inr, refl, true, false, leb, Option, none, some, List, [],
  ◌∷◌, ◌++◌, append-nil, Bytes, Bool-cases, Option-cases, arith,
}
use flynn_extensions.Token.Ledger.{
  Commitment, processed, confirmed, finalized, other_level, SignatureStatus, Statuses, unread,
  listed, get_block_height, get_signature_statuses, ◌>>=◌, Event, World, run,
}
use flynn_extensions.Token.Ledger.Leads.{Leads, Leads-run, Leads-weaken, Leads->>=}
use flynn_extensions.Token.Engine.{
  Fate, landed, expired, failed_on_chain, context_ended, first_status, is_finalized, judge_level,
  judge, recheck, check_height, check_status, poll, confirm_or_expire,
}

-- The status is at the level that was asked for, or beyond.
abbrev pub Reaches : Commitment → Commitment → Type 0
Reaches level status = (status ≡ finalized) ⊎ ((status ≡ confirmed) × (level ≢ finalized))

-- The answers that end the loop, at the end of the events.
pub data Shows (signature : Bytes) (last_valid : ℕ) (level : Commitment)
    : List Event → Fate → Type 0 where
  shows_landed :
      (s : SignatureStatus) (sts : List (Option SignatureStatus))
      → first_status sts ≡ some s
      → s.failed ≡ false
      → Reaches level s.confirmation_status
      → Shows signature last_valid level
          ((get_signature_statuses signature, listed sts) ∷ [])
          landed
  shows_failed :
      (s : SignatureStatus) (sts : List (Option SignatureStatus))
      → first_status sts ≡ some s
      → s.failed ≡ true
      → Shows signature last_valid level
          ((get_signature_statuses signature, listed sts) ∷ [])
          failed_on_chain
  shows_expired :
      (sts again : List (Option SignatureStatus)) (height : ℕ)
      → first_status sts ≡ none
      → last_valid < height
      → first_status again ≡ none
      → Shows signature last_valid level
          ((get_signature_statuses signature, listed sts)
            ∷ (get_block_height confirmed, some height)
            ∷ (get_signature_statuses signature, listed again)
            ∷ [])
          expired
  shows_end : Shows signature last_valid level [] context_ended
  later :
      (e : Event) {es : List Event} {fate : Fate}
      → Shows signature last_valid level es fate
      → Shows signature last_valid level (e ∷ es) fate

module _ (signature : Bytes) (last_valid : ℕ) (level : Commitment) where
  -- A turn that goes on has shown nothing.
  abbrev Turn : List Event → Option Fate → Type 0
  Turn es none = Unit
  Turn es (some fate) = Shows signature last_valid level es fate

  Shows-append :
      {fate : Fate} (es more : List Event)
      → Shows signature last_valid level more fate
      → Shows signature last_valid level (es ++ more) fate
  Shows-append [] more h = h
  Shows-append (e ∷ es) more h = later e (Shows-append es more h)

  not_finalized : (c : Commitment) → is_finalized c ≡ false → c ≢ finalized
  not_finalized c h = λ e. (let now = rw e at h in cc)

  Turn-judge_level :
      (s : SignatureStatus) (sts : List (Option SignatureStatus)) (c : Commitment)
      → first_status sts ≡ some s
      → s.failed ≡ false
      → s.confirmation_status ≡ c
      → Turn ((get_signature_statuses signature, listed sts) ∷ []) (judge_level level c)
  unfolding judge_level
  Turn-judge_level s sts finalized seen fine at_level = shows_landed s sts seen fine (inl at_level)
  Turn-judge_level s sts confirmed seen fine at_level = elim (Bool-cases (is_finalized level)) [
    | inl strict ↦ rw (Turn, strict) tt
    | inr loose ↦
        rw (Turn, loose) (shows_landed s sts seen fine (inr (at_level, not_finalized level loose)))
  ]
  Turn-judge_level s sts processed seen fine at_level = tt
  Turn-judge_level s sts other_level seen fine at_level = tt

  Turn-judge :
      (s : SignatureStatus) (sts : List (Option SignatureStatus))
      → first_status sts ≡ some s
      → Turn ((get_signature_statuses signature, listed sts) ∷ []) (judge level s)
  unfolding judge
  Turn-judge s sts seen = elim (Bool-cases s.failed) [
    | inl failed ↦ rw failed (shows_failed s sts seen failed)
    | inr fine ↦ rw fine (Turn-judge_level s sts s.confirmation_status seen fine refl)
  ]

  Turn-recheck :
      (sts : List (Option SignatureStatus)) (height : ℕ) (st : Statuses)
      → first_status sts ≡ none
      → last_valid < height
      → Turn
          ((get_signature_statuses signature, listed sts)
            ∷ (get_block_height confirmed, some height)
            ∷ (get_signature_statuses signature, st)
            ∷ [])
          (recheck st)
  Turn-recheck sts height unread seen past = tt
  Turn-recheck sts height (listed again) seen past = elim (Option-cases (first_status again)) [
    | inl gone ↦ rw (Turn, recheck, gone) (shows_expired sts again height seen past gone)
    | inr (s, there) ↦ rw (Turn, recheck, there) tt
  ]

  Leads-check_height :
      (sts : List (Option SignatureStatus)) (height : Option ℕ)
      → first_status sts ≡ none
      → Leads (check_height signature last_valid height) (λ es. Turn (
          (get_signature_statuses signature, listed sts)
          ∷ (get_block_height confirmed, height)
          ∷ es))
  unfolding check_height ◌>>=◌
  Leads-check_height sts none seen = tt
  Leads-check_height sts (some height) seen = elim (Bool-cases (leb height last_valid)) [
    | inl valid ↦ rw (Leads, valid) tt
    | inr past ↦ rw (Leads, past) (λ st. Turn-recheck sts height st seen (ground (arith, past)))
  ]

  Leads-check_status :
      (st : Statuses)
      → Leads
          (check_status signature last_valid level st)
          (λ es. Turn ((get_signature_statuses signature, st) ∷ es))
  unfolding check_status ◌>>=◌
  Leads-check_status unread = tt
  Leads-check_status (listed sts) = elim (Option-cases (first_status sts)) [
    | inl gone ↦ rw (Leads, gone) (λ height. Leads-check_height sts height gone)
    | inr (s, there) ↦ rw (Leads, there) (Turn-judge s sts there)
  ]

  Leads-poll : Leads (poll signature last_valid level) Turn
  unfolding poll ◌>>=◌
  Leads-poll = Leads-check_status

  pub Leads-confirm_or_expire :
      (polls : ℕ)
      → Leads
          (confirm_or_expire signature last_valid level polls)
          (Shows signature last_valid level)
  unfolding confirm_or_expire
  Leads-confirm_or_expire zero = shows_end
  Leads-confirm_or_expire (suc polls) =
      Leads->>= (poll signature last_valid level) _ Turn (Shows signature last_valid level)
        Leads-poll
        λ es fate h. elim (Option-cases fate) [
          | inl open_ ↦ rw open_ (
              Leads-weaken (confirm_or_expire signature last_valid level polls)
                (Shows signature last_valid level)
                (λ more. Shows signature last_valid level (es ++ more))
                (λ more f. Shows-append es more) (Leads-confirm_or_expire polls))
          | inr (f, settled) ↦ rw settled (
              let shown : Shows signature last_valid level es f = rw (Turn, settled) at h in
              rw (append-nil es) shown)
        ]

-- Whatever the node answers, the loop returns nil only when the last answer was a status of the
-- signature without a failure, finalized, or confirmed where the caller did not ask for finality; a
-- failure on the chain only when the last answer was a status with that failure; and errTxExpired
-- only when the last three answers were that the signature is unknown, a height above the last valid
-- one, and again that the signature is unknown.
pub confirm_or_expire-Shows :
    (signature : Bytes) (last_valid : ℕ) (level : Commitment) (polls : ℕ) (w : World)
    (past : List Event)
    → (let (events, fate) = run w past (confirm_or_expire signature last_valid level polls) in
        Shows signature last_valid level events fate)
confirm_or_expire-Shows signature last_valid level polls =
    Leads-run (confirm_or_expire signature last_valid level polls)
      (Shows signature last_valid level) (Leads-confirm_or_expire signature last_valid level polls)
