-- ===== src/Token/Ledger/Asks.antt =====
-- What a `Proc` asks for, whatever it is answered.
use flynn_extensions.Prelude.{Bytes}
use flynn_extensions.Prelude.Result.{Result, ok, err, either}
use flynn_extensions.Token.Ledger.{Call, sign, Reply, Proc, done, ask, ◌>>=◌}

module _ (P : Call → Type 0) where
  -- Each call of the code has the property.
  abbrev pub Asks {ℓ} : {A : Type ℓ} → Proc A → Type 0
  Asks (done a) = Unit
  Asks (ask c k) = P c × ((r : Reply c) → Asks (k r))

  pub Asks->>= {ℓ κ} :
      {A : Type ℓ} {B : Type κ} (m : Proc A) (f : A → Proc B)
      → Asks m
      → ((a : A) → Asks (f a))
      → Asks (m >>= f)
  unfolding ◌>>=◌
  Asks->>= (done a) f h rest = rest a
  Asks->>= (ask c k) f h rest = (h.0, λ r. Asks->>= (k r) f (h.1 r) rest)

  -- A call that may fail, with what follows in either case.
  pub Asks-either {ℓ κ ρ} :
      {E : Type ℓ} {A : Type κ} {B : Type ρ} (m : Proc (Result E A)) (g : E → Proc B)
      (f : A → Proc B)
      → Asks m
      → ((e : E) → Asks (g e))
      → ((a : A) → Asks (f a))
      → Asks (m >>= either g f)
  Asks-either m g f h failing going = Asks->>= m (either g f) h (λ r. rest r)
    where
      rest : (r : Result _ _) → Asks (either g f r)
      rest (ok a) = going a
      rest (err e) = failing e

-- A property of the messages that are to be signed; the other calls are free.
abbrev pub Signs : (Bytes → Type 0) → Call → Type 0
Signs Q (sign message) = Q message
Signs Q _ = Unit
