-- ===== src/Token/Ledger/Seen.antt =====
-- The events of a run are the answers of its world.
use flynn_extensions.Prelude.{◌+◌, ◌≡◌, refl, List, [], ◌∷◌, ◌++◌, length, arith}
use flynn_extensions.Token.Ledger.{Proc, done, ask, Event, World, run}
use flynn_extensions.Token.Ledger.Leads.{Leads}

abbrev pub Seen : World → List Event → List Event → Type 0
Seen w past [] = Unit
Seen w past ((c, r) ∷ es) = (r ≡ w past c) × Seen w ((c, r) ∷ past) es

-- The past of what follows.
abbrev pub onto : List Event → List Event → List Event
onto past [] = past
onto past (e ∷ es) = onto (e ∷ past) es

pub length-onto : (past es : List Event) → length (onto past es) ≡ length past + length es
length-onto past [] = omega arith
length-onto past (e ∷ es) = omega (arith, length-onto (e ∷ past) es)

pub Seen-append :
    (w : World) (past es more : List Event)
    → Seen w past (es ++ more)
    → Seen w past es × Seen w (onto past es) more
Seen-append w past [] more h = (tt, h)
Seen-append w past ((c, r) ∷ es) more h =
    let (a, b) = Seen-append w ((c, r) ∷ past) es more h.1 in ((h.0, a), b)

pub run-Seen {ℓ} :
    {A : Type ℓ} (m : Proc A) (w : World) (past : List Event) → Seen w past (run w past m).0
unfolding run
run-Seen (done a) w past = tt
run-Seen (ask c k) w past = (refl, run-Seen (k (w past c)) w ((c, w past c) ∷ past))

-- What holds of all events and values, code leads to.
pub Leads-any {ℓ κ} :
    {A : Type ℓ} (m : Proc A) (Q : List Event → A → Type κ)
    → ((es : List Event) (a : A) → Q es a)
    → Leads m Q
Leads-any (done a) Q h = h [] a
Leads-any (ask c k) Q h =
    λ r. Leads-any (k r) (λ es a. Q ((c, r) ∷ es) a) (λ es a. h ((c, r) ∷ es) a)
