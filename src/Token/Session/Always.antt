-- ===== src/Token/Session/Always.antt =====
-- What holds at each call of a lifecycle, whatever it is replied.
use flynn_extensions.Prelude.{◌≡◌, refl, sym, ap, ◌∙◌, subst}
use flynn_extensions.Prelude.Result.{ok}
use flynn_extensions.Token.Host.{HostCall, HostReply, Crossing, at_once, crosses}
use flynn_extensions.Token.Ledger.{Call, Reply}
use flynn_extensions.Token.Session.{Life, finished, awaits, Session, cross_over, advance_session}
use flynn_extensions.Token.Session.Parked.{
  parked, start-parked, advance-parked, Reach, begins, goes,
}

module _ {T : Type 0} (P : HostCall → (HostReply → Life T) → Type 0) where
  abbrev pub Always : Life T → Type 0
  Always (finished out) = Unit
  Always (awaits req k) = P req k × ((r : HostReply) → Always (k r))

  -- A call that crosses, with what follows it.
  abbrev pub Crosses : {c : Call} → Crossing c → (Reply c → Life T) → Type 0
  Crosses (at_once r) rest = Unit
  Crosses (crosses req f) rest = P req (λ r. rest (f r))

  pub cross_over-Always :
      {c : Call} (x : Crossing c) (rest : Reply c → Life T)
      → Crosses x rest
      → ((r : Reply c) → Always (rest r))
      → Always (cross_over x rest)
  cross_over-Always (at_once r) rest h k = k r
  cross_over-Always (crosses req f) rest h k = (h, λ r. k (f r))

  -- It holds at the calls of each session that a start and replies lead to.
  pub Reach-Always :
      (life : Life T) {s : Session T}
      → Always life
      → Reach life s
      → (now : Life T) × (s ≡ parked now) × Always now
  unfolding advance_session
  Reach-Always life h begins = (life, start-parked life, h)
  Reach-Always life h (goes {s} {n} r before went) =
      let (now, same, held) = Reach-Always life h before in
      next now held (subst (λ s. advance_session r s ≡ ok n) same went)
    where
      next :
          (now : Life T)
          → Always now
          → advance_session r (parked now) ≡ ok n
          → (after : Life T) × (n ≡ parked after) × Always after
      next (finished out) held went = cc
      next (awaits req k) held went =
          let same : ok (parked (k r)) ≡ ok n = sym (advance-parked req k r) ∙ went in
          (k r, cc, held.1 r)

  parked_life : (life : Life T) → (parked life).life ≡ life
  parked_life (finished out) = refl
  parked_life (awaits req k) = refl

  pub Reach-Always-now : (life now : Life T) → Always life → Reach life (parked now) → Always now
  Reach-Always-now life now h reached =
      let (other, same, held) = Reach-Always life h reached in
      subst Always (sym (ap (λ s. s.life) same ∙ parked_life other) ∙ parked_life now) held
