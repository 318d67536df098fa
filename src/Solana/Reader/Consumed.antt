-- ===== src/Solana/Reader/Consumed.antt =====
-- A judgement about a read of solana/message.go, with a rule for every way to build one: `Consumes` says
-- what bytes a successful read went over.
use flynn_extensions.Prelude.{
  ℕ, ◌+◌, ◌-◌, ◌≤◌, ◌≡◌, refl, sym, ap, subst, ◌∙◌, [], ◌++◌, append-nil, append_assoc, arith,
  Bool-cases, inl, inr, ltb, ltb→le, if◌then◌else◌, length, length-append, length-take,
  take-append-drop, drop-append_self, All, All-append, Bytes, IsByte,
}
use flynn_extensions.Prelude.{take as first, drop as behind}
use flynn_extensions.Prelude.Result.{ok, err, wrap-Gives}
use flynn_extensions.Solana.Reader.{
  truncated, Reader, Read, pure, raise, ◌>>=◌, within, remaining, take,
}
use flynn_extensions.Solana.Reader.Rules.{>>=-Gives, reader_at}

-- A successful read went over `front`, of which `Q` holds, and left `after` unread.
pub record Went {A : Type 0} (Q : A → Bytes → Type 0) (pre rest : Bytes) (v : A) (r : Reader)
    : Type 0 where
  pub front : Bytes
  pub after : Bytes
  pub splits : rest ≡ front ++ after
  pub reader : r ≡ reader_at (pre ++ front) after
  pub holds : Q v front

pub record Consumes {E A : Type 0} (Q : A → Bytes → Type 0) (m : Read E A) : Type 0 where
  pub at :
      (pre rest : Bytes) (v : A) (r : Reader)
      → All IsByte rest
      → m (reader_at pre rest) ≡ ok (v, r)
      → Went Q pre rest v r

pub Consumes-pure :
    {E A : Type 0} {Q : A → Bytes → Type 0} (v : A) → Q v [] → Consumes {E = E} Q (pure v)
Consumes-pure {Q} v q = record {
  at = λ pre rest w r b e. record {
    front = [];
    after = rest;
    splits = refl;
    reader = rw append-nil (ground arith);
    holds = subst (λ x. Q x []) (ground arith) q;
  };
}

pub Consumes-raise : {E A : Type 0} (Q : A → Bytes → Type 0) (e : E) → Consumes Q (raise {A = A} e)
Consumes-raise Q e = record { at = λ pre rest w r b h. cc }

pub Consumes-weaken :
    {E A : Type 0} {Q R : A → Bytes → Type 0} {m : Read E A}
    → ((v : A) (f : Bytes) → Q v f → R v f)
    → Consumes Q m
    → Consumes R m
Consumes-weaken h c = record {
  at = λ pre rest v r b e.
      let x = c.at pre rest v r b e in
      record {
        front = x.front;
        after = x.after;
        splits = x.splits;
        reader = x.reader;
        holds = h v x.front x.holds;
      };
}

pub Consumes-within :
    {E F A : Type 0} {Q : A → Bytes → Type 0} {m : Read E A} (tag : E → F)
    → Consumes Q m
    → Consumes Q (within tag m)
unfolding within
Consumes-within {m} tag c = record {
  at = λ pre rest v r b e. c.at pre rest v r b (wrap-Gives tag (m (reader_at pre rest)) e);
}

-- What went over `front` and then over more bytes went over both.
Went-append :
    {A B : Type 0} {Q : A → Bytes → Type 0} {R : B → Bytes → Type 0} {pre rest : Bytes} {v : A}
    {w : B} {r s : Reader} (x : Went Q pre rest v r)
    → Went (λ u g. R u (x.front ++ g)) (pre ++ x.front) x.after w s
    → Went R pre rest w s
Went-append {pre} x y = record {
  front = x.front ++ y.front;
  after = y.after;
  splits = x.splits ∙ ap (◌++◌ x.front) y.splits ∙ sym (append_assoc x.front y.front y.after);
  reader = y.reader ∙ ap (λ t. reader_at t y.after) (append_assoc pre x.front y.front);
  holds = y.holds;
}

pub Consumes-bind :
    {E A B : Type 0} {Q : A → Bytes → Type 0} {R : B → Bytes → Type 0} {m : Read E A}
    {k : A → Read E B}
    → Consumes Q m
    → ((v : A) (f : Bytes) → Q v f → Consumes (λ w g. R w (f ++ g)) (k v))
    → Consumes R (m >>= k)
Consumes-bind {m} {k} c d = record {
  at = λ pre rest w s b h.
      let (v, r, e, h') = >>=-Gives m k (reader_at pre rest) h in
      let x = c.at pre rest v r b e in
      let left : All IsByte x.after = (All-append IsByte x.front x.after (rw x.splits at b)).1 in
      Went-append x
        ((d v x.front x.holds).at (pre ++ x.front) x.after w s left (ap (k v) (sym x.reader) ∙ h'));
}

-- `take` looks at what is before the reader alone.
take-reader_at :
    (n : ℕ) (pre rest : Bytes)
    → take n (reader_at pre rest) ≡ (
        if ltb (length rest) n
        then err truncated
        else ok (first n rest, record { b = pre ++ rest; off = length pre + n }))
unfolding take remaining
take-reader_at n pre rest =
    let left : length (pre ++ rest) - length pre ≡ length rest =
      omega (arith, length-append pre rest) in
    rw (left, drop-append_self)

taken_at :
    (n : ℕ) (pre rest : Bytes)
    → n ≤ length rest
    → ◌≡◌ {A = Reader}
        (record { b = pre ++ rest; off = length pre + n })
        (reader_at (pre ++ first n rest) (behind n rest))
taken_at n pre rest h =
    let moved : length pre + n ≡ length (pre ++ first n rest) =
      omega (arith, length-append pre (first n rest), length-take n rest) in
    let same : pre ++ rest ≡ (pre ++ first n rest) ++ behind n rest =
      ap (◌++◌ pre) (sym (take-append-drop n rest))
      ∙ sym (append_assoc pre (first n rest) (behind n rest)) in
    λ i. record { b = same i; off = moved i }

pub Consumes-take : (n : ℕ) → Consumes (λ v f. (v ≡ f) × (length f ≡ n) × All IsByte f) (take n)
Consumes-take n = record {
  at = λ pre rest v r b h. elim (Bool-cases (ltb (length rest) n)) [
    | inl short ↦ let failed = rw (take-reader_at n pre rest, short) at h in cc
    | inr enough ↦
        let got = rw (take-reader_at n pre rest, enough) at h in
        let fits : n ≤ length rest = ltb→le (length rest) n enough in
        record {
          front = first n rest;
          after = behind n rest;
          splits = sym (take-append-drop n rest);
          reader = ground (arith, got, taken_at n pre rest fits);
          holds = (
            ground (arith, got),
            omega (arith, length-take n rest),
            (All-append IsByte (first n rest) (behind n rest) (rw (take-append-drop n rest) b)).0,
          );
        }
  ];
}
