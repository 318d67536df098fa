-- ===== src/Token/Ledger/Leads.antt =====
-- What a `Proc` guarantees of its events and of its value, whatever it is answered.
use flynn_extensions.Prelude.{List, [], ◌∷◌, ◌++◌}
use flynn_extensions.Token.Ledger.{Proc, done, ask, ◌>>=◌, Event, World, run}

abbrev pub Leads {ℓ κ} : {A : Type ℓ} → Proc A → (List Event → A → Type κ) → Type κ
Leads (done a) Q = Q [] a
Leads (ask c k) Q = (r : _) → Leads (k r) (λ es a. Q ((c, r) ∷ es) a)

-- Every run in every world ends as the code leads it.
pub Leads-run {ℓ κ} :
    {A : Type ℓ} (m : Proc A) (Q : List Event → A → Type κ)
    → Leads m Q
    → (w : World) (past : List Event) → Q (run w past m).0 (run w past m).1
unfolding run
Leads-run (done a) Q h w past = h
Leads-run (ask c k) Q h w past =
    Leads-run (k (w past c)) (λ es a. Q ((c, w past c) ∷ es) a) (h (w past c)) w
      ((c, w past c) ∷ past)

pub Leads-weaken {ℓ κ ρ} :
    {A : Type ℓ} (m : Proc A) (P : List Event → A → Type κ) (Q : List Event → A → Type ρ)
    → ((es : List Event) (a : A) → P es a → Q es a)
    → Leads m P
    → Leads m Q
Leads-weaken (done a) P Q f h = f [] a h
Leads-weaken (ask c k) P Q f h = λ r.
    Leads-weaken (k r) (λ es a. P ((c, r) ∷ es) a) (λ es a. Q ((c, r) ∷ es) a)
      (λ es a. f ((c, r) ∷ es) a) (h r)

-- A chain leads where its rest leads from all the ends of its start.
pub Leads->>= {ℓ κ ρ σ} :
    {A : Type ℓ} {B : Type κ} (m : Proc A) (f : A → Proc B) (P : List Event → A → Type ρ)
    (Q : List Event → B → Type σ)
    → Leads m P
    → ((es : List Event) (a : A) → P es a → Leads (f a) (λ more b. Q (es ++ more) b))
    → Leads (m >>= f) Q
unfolding ◌>>=◌
Leads->>= (done a) f P Q h rest = rest [] a h
Leads->>= (ask c k) f P Q h rest = λ r.
    Leads->>= (k r) f (λ es a. P ((c, r) ∷ es) a) (λ es b. Q ((c, r) ∷ es) b) (h r)
      (λ es a. rest ((c, r) ∷ es) a)
