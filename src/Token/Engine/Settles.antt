-- ===== src/Token/Engine/Settles.antt =====
-- token/engine.go, `confirmOrExpire`: the loop ends once the node knows the end.
use flynn_extensions.Prelude.{
  ℕ, zero, suc, ◌-◌, ◌<◌, ◌≤◌, ◌≡◌, ◌≢◌, inl, inr, refl, ap, ◌∙◌, false, leb, Option, none, some,
  List, [], ◌∷◌, ◌++◌, append-nil, length, Bytes, Bool-cases, Option-cases, arith,
}
use flynn_extensions.Token.Ledger.{
  Commitment, processed, confirmed, finalized, other_level, SignatureStatus, Statuses, unread,
  listed, get_signature_statuses, ◌>>=◌, Event, World, run,
}
use flynn_extensions.Token.Ledger.Leads.{Leads, Leads-run, Leads-weaken, Leads->>=}
use flynn_extensions.Token.Ledger.Seen.{Seen, onto, length-onto, Seen-append, run-Seen}
use flynn_extensions.Token.Engine.{
  Fate, landed, context_ended, first_status, is_finalized, judge_level, judge, recheck,
  check_height, check_status, poll, confirm_or_expire,
}

-- From an answer on, the node says that the signature is finalized, without a failure.
abbrev pub Reports : World → Bytes → ℕ → Type 0
Reports w signature n =
    (past : List Event)
    → n ≤ length past
    → (sts : List (Option SignatureStatus)) × (s : SignatureStatus) × (w past
          (get_signature_statuses signature)
        ≡ listed sts)
      × (first_status sts ≡ some s)
      × (s.failed ≡ false)
      × (s.confirmation_status ≡ finalized)

module _ (signature : Bytes) (last_valid : ℕ) (level : Commitment) where
  abbrev Open : Option Fate → Type 0
  Open v = v ≢ some context_ended

  judge_level-Open : (c : Commitment) → Open (judge_level level c)
  unfolding judge_level
  judge_level-Open finalized = λ e. cc
  judge_level-Open confirmed = elim (Bool-cases (is_finalized level)) [
    | inl strict ↦ rw strict (λ e. cc)
    | inr loose ↦ rw loose (λ e. cc)
  ]
  judge_level-Open processed = λ e. cc
  judge_level-Open other_level = λ e. cc

  judge-Open : (s : SignatureStatus) → Open (judge level s)
  unfolding judge
  judge-Open s = elim (Bool-cases s.failed) [
    | inl failed ↦ rw failed (λ e. cc)
    | inr fine ↦ rw fine (judge_level-Open s.confirmation_status)
  ]

  recheck-Open : (st : Statuses) → Open (recheck st)
  recheck-Open unread = λ e. cc
  recheck-Open (listed sts) = elim (Option-cases (first_status sts)) [
    | inl gone ↦ rw (recheck, gone) (λ e. cc)
    | inr (s, there) ↦ rw (recheck, there) (λ e. cc)
  ]

  abbrev Opens : List Event → Option Fate → Type 0
  Opens es v = Open v

  check_height-Open : (height : Option ℕ) → Leads (check_height signature last_valid height) Opens
  unfolding check_height ◌>>=◌
  check_height-Open none = λ e. cc
  check_height-Open (some height) = elim (Bool-cases (leb height last_valid)) [
    | inl valid ↦ rw (Leads, valid) (λ e. cc)
    | inr past ↦ rw (Leads, past) recheck-Open
  ]

  check_status-Open : (st : Statuses) → Leads (check_status signature last_valid level st) Opens
  unfolding check_status ◌>>=◌
  check_status-Open unread = λ e. cc
  check_status-Open (listed sts) = elim (Option-cases (first_status sts)) [
    | inl gone ↦ rw (Leads, gone) check_height-Open
    | inr (s, there) ↦ rw (Leads, there) (judge-Open s)
  ]

  judge-finalized :
      (s : SignatureStatus)
      → s.failed ≡ false
      → s.confirmation_status ≡ finalized
      → judge level s ≡ some landed
  unfolding judge judge_level
  judge-finalized s fine final = rw (fine, final) refl

  module _ (w : World) (n : ℕ) (reports : Reports w signature n) where
    -- A turn asks at least once, goes on as long as nothing ends it, and is the last one once the
    -- node reports.
    abbrev Turn : List Event → List Event → Option Fate → Type 0
    Turn past es v = Seen w past es → (1 ≤ length es) × Open v × (n ≤ length past → v ≡ some landed)

    -- What a turn knows of its value from its first answer.
    abbrev Known : List Event → Statuses → Option Fate → Type 0
    Known past st v =
        Open v
        × (n ≤ length past → st ≡ w past (get_signature_statuses signature) → v ≡ some landed)

    Known-absurd :
        (past : List Event) (st : Statuses)
        → ((sts : List (Option SignatureStatus)) (s : SignatureStatus)
            → first_status sts ≡ some s
            → st ≢ listed sts)
        → Leads (check_status signature last_valid level st) (λ es. Known past st)
    Known-absurd past st differs =
        Leads-weaken (check_status signature last_valid level st) (λ es v. Open v)
          (λ es. Known past st)
          (λ es v opens. (
            opens,
            λ long e.
                let (sts, s, told, seen, fine, final) = reports past long in
                absurd (differs sts s seen (e ∙ told)),
          ))
          (check_status-Open st)

    check_status-Known :
        (past : List Event) (st : Statuses)
        → Leads (check_status signature last_valid level st) (λ es. Known past st)
    unfolding check_status
    check_status-Known past unread = Known-absurd past unread (λ sts s seen e. cc)
    check_status-Known past (listed sts) = elim (Option-cases (first_status sts)) [
      | inl gone ↦ Known-absurd past (listed sts) (λ others s seen e. cc)
      | inr (s, there) ↦
          rw (Leads, check_status, there)
            (
              judge-Open s,
              λ long e.
                  let (others, s', told, seen, fine, final) = reports past long in
                  let same : s ≡ s' = cc in rw same (judge-finalized s' fine final),
            )
    ]

    Leads-poll : (past : List Event) → Leads (poll signature last_valid level) (Turn past)
    unfolding poll ◌>>=◌
    Leads-poll past = λ st.
        Leads-weaken (check_status signature last_valid level st) (λ es. Known past st)
          (λ es. Turn past ((get_signature_statuses signature, st) ∷ es))
          (λ es v known seen. (omega arith, known.0, λ long. known.1 long seen.0))
          (check_status-Known past st)

    later_few :
        (past es : List Event) (polls : ℕ)
        → 1 ≤ length es
        → length past < n
        → n - length past < suc polls
        → n - length (onto past es) < polls
    later_few past es polls one short few = omega (arith, length-onto past es, one, short, few)

    confirm_or_expire-waits :
        (polls : ℕ) (past : List Event)
        → Leads
            (confirm_or_expire signature last_valid level polls)
            (λ es fate. Seen w past es → n - length past < polls → fate ≢ context_ended)
    unfolding confirm_or_expire
    confirm_or_expire-waits zero past = λ seen few. absurd (omega (arith, few))
    confirm_or_expire-waits (suc polls) past =
        Leads->>= (poll signature last_valid level) _ (Turn past)
          (λ es fate. Seen w past es → n - length past < suc polls → fate ≢ context_ended)
          (Leads-poll past)
          λ es v turn. elim (Option-cases v) [
            | inl open_ ↦ rw open_ (
                Leads-weaken (confirm_or_expire signature last_valid level polls)
                  (λ more fate.
                    Seen w (onto past es) more
                    → n - length (onto past es) < polls
                    → fate ≢ context_ended)
                  (λ more fate.
                    Seen w past (es ++ more) → n - length past < suc polls → fate ≢ context_ended)
                  (λ more fate h seen few.
                    let (here, rest) = Seen-append w past es more seen in
                    let (one, opens, lands) = turn here in
                    elim (Bool-cases (leb n (length past))) [
                      | inl long ↦ (let now : v ≡ some landed = lands (ground (arith, long)) in cc)
                      | inr short ↦ h rest (later_few past es polls one (ground (arith, short)) few)
                    ])
                  (confirm_or_expire-waits polls (onto past es)))
            | inr (f, settled) ↦
                rw settled
                  (λ seen few e. (turn (rw (append-nil es) at seen)).1 (settled ∙ ap some e))
          ]

-- The loop does not run out of turns, if from the n-th answer on the node says that the signature is
-- finalized without a failure, and the timer comes more than n times before the end of the context.
pub confirm_or_expire-settles :
    (signature : Bytes) (last_valid : ℕ) (level : Commitment) (w : World) (n polls : ℕ)
    → Reports w signature n
    → n < polls
    → (run w [] (confirm_or_expire signature last_valid level polls)).1 ≢ context_ended
confirm_or_expire-settles signature last_valid level w n polls reports enough =
    let m = confirm_or_expire signature last_valid level polls in
    Leads-run m (λ es fate. Seen w [] es → n - 0 < polls → fate ≢ context_ended)
      (confirm_or_expire-waits signature last_valid level w n reports polls []) w []
      (run-Seen m w []) (omega (arith, enough))
