-- ===== src/Token/Safety/Verdict.antt =====
-- token/safety/safety.go: what the policy refuses, and the order of what it finds.
use flynn_extensions.Prelude.{
  ◌≡◌, ◌↔◌, refl, sym, ap, ◌∙◌, Bool, true, false, not, ◌&&◌, if◌then◌else◌, Bool-cases, inl, inr,
  List, [], ◌∷◌, ◌++◌, ltb, arith, equal, equal_iff,
}
use flynn_extensions.Prelude.Result.{ok}
use flynn_extensions.Token.Safety.{
  Severity, block, warn, Rule, Violation, TokenPlan, trim_space, is_block, less, insert,
  slice_stable, finds, violations, evaluate, blocking, refuse, guard, mutable_metadata_uri,
  creator_concentration,
}

-- The violations of one severity, in their order.
pub of_severity : Severity → List Violation → List Violation
of_severity s [] = []
of_severity block (v ∷ vs) =
    if is_block v.severity then v ∷ of_severity block vs else of_severity block vs
of_severity warn (v ∷ vs) =
    if is_block v.severity then of_severity warn vs else v ∷ of_severity warn vs

insert-block :
    (v : Violation) (ws : List Violation) → is_block v.severity ≡ true → insert v ws ≡ v ∷ ws
unfolding insert less
insert-block v [] h = refl
insert-block v (w ∷ ws) h = ground arith

-- A warning goes in front of the other warnings, and behind everything that blocks.
insert-warn_first :
    (v : Violation) (us : List Violation)
    → is_block v.severity ≡ false
    → insert v (of_severity warn us) ≡ v ∷ of_severity warn us
unfolding of_severity insert less
insert-warn_first v [] h = refl
insert-warn_first v (u ∷ us) h = elim (Bool-cases (is_block u.severity)) [
  | inl blocks ↦ rw blocks (insert-warn_first v us h)
  | inr warns ↦ rw (warns, warns) refl
]

insert-warn :
    (v : Violation) (vs us : List Violation)
    → is_block v.severity ≡ false
    → insert v (of_severity block vs ++ of_severity warn us)
      ≡ of_severity block vs ++ v ∷ of_severity warn us
unfolding of_severity insert less
insert-warn v [] us h = insert-warn_first v us h
insert-warn v (w ∷ vs) us h = elim (Bool-cases (is_block w.severity)) [
  | inl blocks ↦ rw (blocks, blocks, h) (ap (◌∷◌ w) (insert-warn v vs us h))
  | inr warns ↦ rw warns (insert-warn v vs us h)
]

slice_stable-of_severity :
    (vs : List Violation) → slice_stable vs ≡ of_severity block vs ++ of_severity warn vs
unfolding slice_stable of_severity
slice_stable-of_severity [] = refl
slice_stable-of_severity (v ∷ vs) = elim (Bool-cases (is_block v.severity)) [
  | inl blocks ↦ rw (blocks, slice_stable-of_severity vs) (insert-block v _ blocks)
  | inr warns ↦ rw (warns, slice_stable-of_severity vs) (insert-warn v vs vs warns)
]

-- `Evaluate` gives the violations that the tests find, those that block before those that warn, and
-- each of the two kinds in the order of the tests.
pub evaluate-order :
    (p : TokenPlan)
    → evaluate p ≡ of_severity block (violations p) ++ of_severity warn (violations p)
unfolding evaluate
evaluate-order p = slice_stable-of_severity (violations p)

blocking-insert : (v : Violation) (ws : List Violation) → blocking (insert v ws) ≡ blocking (v ∷ ws)
unfolding blocking insert less
blocking-insert v [] = refl
blocking-insert v (w ∷ ws) = ground (arith, blocking-insert v ws)

blocking-slice_stable : (vs : List Violation) → blocking (slice_stable vs) ≡ blocking vs
unfolding blocking slice_stable
blocking-slice_stable [] = refl
blocking-slice_stable (v ∷ vs) =
    blocking-insert v (slice_stable vs) ∙ (unfold blocking in rw (blocking-slice_stable vs) refl)

finds-none :
    (r : Rule) (b : Bool) (rest : List Violation)
    → (blocking (finds block r b rest) ≡ []) ↔ ((b ≡ false) × (blocking rest ≡ []))
unfolding blocking
finds-none r true rest = (λ h. cc, λ h. cc)
finds-none r false rest = (λ h. (refl, h), λ h. h.1)

finds-warn :
    (r : Rule) (b : Bool) (rest : List Violation) → blocking (finds warn r b rest) ≡ blocking rest
unfolding blocking
finds-warn r true rest = refl
finds-warn r false rest = refl

-- A plan without any of the shapes that the policy forbids.
pub record IsClean (p : TokenPlan) : Type 0 where
  pub no_mint_authority : p.retains_mint_authority ≡ false
  pub no_freeze_authority : p.retains_freeze_authority ≡ false
  pub no_delegate : p.has_permanent_delegate ≡ false
  pub no_hook : p.has_transfer_hook ≡ false
  pub no_blacklist : p.blacklist ≡ false
  pub not_pausable : p.is_pausable ≡ false
  pub no_upgrade_authority : p.retains_upgrade_authority ≡ false
  pub no_fee : p.transfer_fee_bps ≡ 0
  pub locked_liquidity : p.seeds_liquidity ≡ true → p.lp_locked_or_burned ≡ true
  pub liquidity_stays : p.removes_liquidity ≡ true → p.liquidity_locked ≡ false
  pub no_yield : p.guarantees_yield ≡ false
  pub no_profit_claim : p.claims_issuer_profit ≡ false
  pub no_brand : trim_space p.impersonates ≡ []
  pub cold_treasury : p.live_network ≡ true → p.treasury_is_hot_signer ≡ false

refuse-ok : (rules : List Rule) → (refuse rules ≡ ok tt) ↔ (rules ≡ [])
refuse-ok [] = (λ h. refl, λ h. refl)
refuse-ok (r ∷ rules) = (λ h. ground arith, λ h. cc)

blocking-violations : (p : TokenPlan) → (blocking (violations p) ≡ []) ↔ IsClean p
unfolding violations equal
blocking-violations p = (
  λ h.
      let (mint, h₁) = (finds-none _ p.retains_mint_authority _).0 h in
      let (freeze, h₂) = (finds-none _ p.retains_freeze_authority _).0 h₁ in
      let (delegate, h₃) = (finds-none _ p.has_permanent_delegate _).0 h₂ in
      let (hook, h₄) = (finds-none _ p.has_transfer_hook _).0 h₃ in
      let (list, h₅) = (finds-none _ p.blacklist _).0 h₄ in
      let (pause, h₆) = (finds-none _ p.is_pausable _).0 h₅ in
      let (upgrade, h₇) = (finds-none _ p.retains_upgrade_authority _).0 h₆ in
      let (fee, h₈) = (finds-none _ (ltb 0 p.transfer_fee_bps) _).0 h₇ in
      let (seeds, h₉) = (finds-none _ (p.seeds_liquidity && not p.lp_locked_or_burned) _).0 h₈ in
      let (removes, h₁₀) = (finds-none _ (p.removes_liquidity && p.liquidity_locked) _).0 h₉ in
      let (yield_found, h₁₁) = (finds-none _ p.guarantees_yield _).0 h₁₀ in
      let (profit, h₁₂) = (finds-none _ p.claims_issuer_profit _).0 h₁₁ in
      let (brand, h₁₃) = (finds-none _ (not (equal (trim_space p.impersonates) [])) _).0 h₁₂ in
      let (hot, _) = (finds-none _ (p.live_network && p.treasury_is_hot_signer) _).0 h₁₃ in
      record {
        no_mint_authority = mint;
        no_freeze_authority = freeze;
        no_delegate = delegate;
        no_hook = hook;
        no_blacklist = list;
        not_pausable = pause;
        no_upgrade_authority = upgrade;
        no_fee = ground arith;
        locked_liquidity = λ on. ground arith;
        liquidity_stays = λ on. ground arith;
        no_yield = yield_found;
        no_profit_claim = profit;
        no_brand = (equal_iff (trim_space p.impersonates) []).0 (ground arith);
        cold_treasury = λ on. ground arith;
      },
  λ c.
      let fee : ltb 0 p.transfer_fee_bps ≡ false = rw c.no_fee refl in
      let seeds : (p.seeds_liquidity && not p.lp_locked_or_burned) ≡ false =
        ground (arith, c.locked_liquidity) in
      let removes : (p.removes_liquidity && p.liquidity_locked) ≡ false =
        ground (arith, c.liquidity_stays) in
      let hot : (p.live_network && p.treasury_is_hot_signer) ≡ false =
        ground (arith, c.cold_treasury) in
      rw
        (
          c.no_mint_authority, c.no_freeze_authority, c.no_delegate, c.no_hook, c.no_blacklist,
          c.not_pausable, c.no_upgrade_authority, fee, seeds, removes, c.no_yield,
          c.no_profit_claim, c.no_brand, hot,
        )
        (finds-warn mutable_metadata_uri (p.live_network && p.mutable_uri) _
          ∙ finds-warn (creator_concentration p.creator_supply_pct) (ltb 30 p.creator_supply_pct) []
          ∙ unfold blocking in refl),
)

-- `Guard` lets a plan pass exactly when the plan has none of the forbidden shapes.
pub guard_iff : (p : TokenPlan) → (guard p ≡ ok tt) ↔ IsClean p
unfolding guard evaluate
guard_iff p =
    let same = blocking-slice_stable (violations p) in
    (
      λ h. (blocking-violations p).0 (sym same ∙ (refuse-ok _).0 h),
      λ c. (refuse-ok _).1 (same ∙ (blocking-violations p).1 c),
    )
