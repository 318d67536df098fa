-- ===== src/Token/Engine/Expired.antt =====
-- token/engine.go, `confirmOrExpire`, above a chain that grows while the engine looks: errTxExpired is
-- a proof that the transaction never lands.
use flynn_extensions.Prelude.{
  ℕ, ◌+◌, ◌≤◌, ◌<◌, ◌≡◌, refl, Bool, true, false, none, some, List, [], ◌∷◌, Bytes, arith,
}
use flynn_extensions.Token.Ledger.{
  Commitment, listed, get_block_height, get_signature_statuses, Event, World, run,
}
use flynn_extensions.Token.Engine.{Fate, expired, first_status, confirm_or_expire}
use flynn_extensions.Token.Engine.Confirm.{
  Shows, shows_landed, shows_failed, shows_expired, shows_end, later, confirm_or_expire-Shows,
}

-- The chain: its height, and whether one of its blocks holds the transaction.
pub record Chain : Type 0 where
  pub height : ℕ
  pub included : Bool

module _ (last_valid : ℕ) where
  -- A block may hold the transaction only while its blockhash is valid.
  pub data Step : Chain → Chain → Type 0 where
    grow : (c : Chain) (n : ℕ) → Step c (record c { height = c.height + n })
    hold : (c : Chain) → c.height ≤ last_valid → Step c (record c { included = true })

  pub data Reach (c : Chain) : Chain → Type 0 where
    here : Reach c c
    next : {d e : Chain} → Reach c d → Step d e → Reach c e

  abbrev Past : Chain → Type 0
  Past c = last_valid < c.height

  abbrev Dead : Chain → Type 0
  Dead c = Past c × (c.included ≡ false)

  Step-Past : {c d : Chain} → Step c d → Past c → Past d
  Step-Past (grow c n) h = omega (arith, h)
  Step-Past (hold c valid) h = h

  Step-Dead : {c d : Chain} → Step c d → Dead c → Dead d
  Step-Dead (grow c n) h = (omega (arith, h.0), h.1)
  Step-Dead (hold c valid) h = absurd (omega (arith, h.0, valid))

  Reach-Past : {c d : Chain} → Reach c d → Past c → Past d
  Reach-Past here h = h
  Reach-Past (next r s) h = Step-Past s (Reach-Past r h)

  Reach-Dead : {c d : Chain} → Reach c d → Dead c → Dead d
  Reach-Dead here h = h
  Reach-Dead (next r s) h = Step-Dead s (Reach-Dead r h)

  -- What an answer says of the chain at its time: the height is not above the chain's, and a signature
  -- that the search through the history does not find is in no block.
  abbrev pub Agrees : Bytes → Chain → Event → Type 0
  Agrees signature c (get_block_height level, some height) = height ≤ c.height
  Agrees signature c (get_signature_statuses asked, listed sts) =
      asked ≡ signature → first_status sts ≡ none → c.included ≡ false
  Agrees signature c _ = Unit

  -- The answers come in the course of a run of the chain, which goes on between them.
  abbrev pub Honest : Bytes → Chain → List Event → Chain → Type 0
  Honest signature c [] end = Reach c end
  Honest signature c (e ∷ es) end =
      (d : Chain) × Reach c d × Agrees signature d e × Honest signature d es end

  Shows-Dead :
      (signature : Bytes) (level : Commitment) {es : List Event} {fate : Fate}
      → Shows signature last_valid level es fate
      → (c end : Chain) → fate ≡ expired
      → Honest signature c es end
      → Dead end
  Shows-Dead signature level (shows_landed s sts seen fine reached) c end e h = cc
  Shows-Dead signature level (shows_failed s sts seen bad) c end e h = cc
  Shows-Dead signature level shows_end c end e h = cc
  Shows-Dead signature level (later ev shown) c end e (d, r, a, h) =
      Shows-Dead signature level shown d end e h
  Shows-Dead signature level (shows_expired sts again height gone past still) c end e
        (d₁, r₁, a₁, (d₂, r₂, tall, (d₃, r₃, unknown, r₄))) =
      Reach-Dead r₄ (Reach-Past r₃ (omega (arith, past, tall)), unknown refl still)

-- When the loop returns errTxExpired, the chain holds the transaction at no later time, if the
-- node's answers were true of the chain when they were given, and a block may hold the transaction
-- only up to its last valid height.
pub confirm_or_expire-never_lands :
    (signature : Bytes) (last_valid : ℕ) (level : Commitment) (polls : ℕ) (w : World)
    (past : List Event) (before after later_on : Chain)
    → (run w past (confirm_or_expire signature last_valid level polls)).1 ≡ expired
    → Honest last_valid signature before
        (run w past (confirm_or_expire signature last_valid level polls)).0
        after
    → Reach last_valid after later_on
    → later_on.included ≡ false
confirm_or_expire-never_lands signature last_valid level polls w past before after later_on e h r =
    let shown = confirm_or_expire-Shows signature last_valid level polls w past in
    (Reach-Dead last_valid r (Shows-Dead last_valid signature level shown before after e h)).1
