-- ===== src/Solana/Reader/Rules.antt =====
-- A judgement about a read of solana/message.go, with a rule for every way to build one: `Parses` runs
-- the read over bytes that are known.
use flynn_extensions.Prelude.{
  ℕ, ◌+◌, ◌-◌, ◌≡◌, refl, ap, subst, ◌∙◌, false, [], ◌++◌, append-nil, append_assoc, arith, ltb,
  le→ltb, length, length-append, take-append_self, drop-append_self, Bytes,
}
use flynn_extensions.Prelude.{take as first}
use flynn_extensions.Prelude.Result.{Result, ok, err, wrap}
use flynn_extensions.Solana.Reader.{Reader, Read, continue, pure, ◌>>=◌, within, remaining, take}

-- The reader that has gone over `pre` and has `rest` before it.
abbrev pub reader_at : Bytes → Bytes → Reader
reader_at pre rest = record { b = pre ++ rest; off = length pre }

pub remaining-reader_at : (pre rest : Bytes) → remaining (reader_at pre rest) ≡ length rest
unfolding remaining
remaining-reader_at pre rest = omega (arith, length-append pre rest)

continue-eq-ok :
    {E A B : Type 0} (x : Result E (A × Reader)) (k : A → Read E B) {w : B} {s : Reader}
    → continue x k ≡ ok (w, s)
    → (v : A) × (r : Reader) × (x ≡ ok (v, r)) × (k v r ≡ ok (w, s))
continue-eq-ok (ok (v, r)) k h = (v, r, refl, h)
continue-eq-ok (err e) k h = cc

-- A read that succeeds has two parts that do.
pub >>=-Gives :
    {E A B : Type 0} (m : Read E A) (k : A → Read E B) (q : Reader) {w : B} {s : Reader}
    → (m >>= k) q ≡ ok (w, s)
    → (v : A) × (r : Reader) × (m q ≡ ok (v, r)) × (k v r ≡ ok (w, s))
unfolding ◌>>=◌
>>=-Gives m k q h = continue-eq-ok (m q) k h

pub record Parses {E A : Type 0} (m : Read E A) (v : A) (front : Bytes) : Type 0 where
  pub at :
      (pre rest : Bytes) → m (reader_at pre (front ++ rest)) ≡ ok (v, reader_at (pre ++ front) rest)

pub Parses-pure : {E A : Type 0} (v : A) → Parses (pure {E = E} v) v []
Parses-pure v = record { at = λ pre rest. rw append-nil }

pub Parses-bind :
    {E A B : Type 0} {m : Read E A} (k : A → Read E B) {v : A} {w : B} {f g : Bytes}
    → Parses m v f
    → Parses (k v) w g
    → Parses (m >>= k) w (f ++ g)
unfolding ◌>>=◌
Parses-bind {m} k {v} {w} {f} {g} p q = record {
  at = λ pre rest.
      ap (λ x. continue (m (reader_at pre x)) k) (append_assoc f g rest)
      ∙ ap (λ x. continue x k) (p.at pre (g ++ rest))
      ∙ q.at (pre ++ f) rest
      ∙ ap (λ x. ok (w, reader_at x rest)) (append_assoc pre f g);
}

-- The value may be written another way.
pub Parses-eq :
    {E A : Type 0} {m : Read E A} {v w : A} {f : Bytes} → v ≡ w → Parses m v f → Parses m w f
Parses-eq {m} {f} e p = subst (λ x. Parses m x f) e p

-- A last step that reads nothing.
pub Parses-then :
    {E A B : Type 0} {m : Read E A} (k : A → Read E B) {v : A} {w : B} {f : Bytes}
    → Parses m v f
    → Parses (k v) w []
    → Parses (m >>= k) w f
Parses-then {m} k {w} {f} p q = subst (Parses (m >>= k) w) (append-nil f) (Parses-bind k p q)

pub Parses-within :
    {E F A : Type 0} {m : Read E A} {v : A} {f : Bytes} (tag : E → F)
    → Parses m v f
    → Parses (within tag m) v f
unfolding within
Parses-within tag p = record { at = λ pre rest. ap (wrap tag) (p.at pre rest) }

pub Parses-take : (n : ℕ) (front : Bytes) → length front ≡ n → Parses (take n) front front
unfolding take remaining
Parses-take n front e = record {
  at = λ pre rest.
      let enough : length (pre ++ (front ++ rest)) - length pre ≡ n + length rest =
        omega (arith, length-append pre (front ++ rest), length-append front rest) in
      let fits : ltb (n + length rest) n ≡ false = le→ltb (n + length rest) n (omega arith) in
      let found : first n (front ++ rest) ≡ front = rw (← e) (take-append_self front rest) in
      let moved : length pre + n ≡ length (pre ++ front) = omega (arith, length-append pre front) in
      rw (enough, fits, drop-append_self, found, moved, append_assoc);
}
