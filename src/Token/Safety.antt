-- ===== src/Token/Safety.antt =====
-- token/safety/safety.go: the policy that judges a described token action. The texts of a violation
-- are not kept: a rule stands for its code and detail, with the values that the detail reports.
pub mod Verdict
use flynn_extensions.Prelude.{
  ℕ, Bool, true, false, not, ltb, leb, ◌==◌, ◌&&◌, ◌||◌, if◌then◌else◌, List, [], ◌∷◌, ◌++◌, map,
  length, Bytes, equal,
}
use mathlib.Core.List.{reverse}
use flynn_extensions.Prelude.Result.{Result, ok, err}

pub data Severity : Type 0 where
  block warn : Severity

pub data Rule : Type 0 where
  retained_mint_authority retained_freeze_authority permanent_delegate transfer_hook : Rule
  transfer_blacklist pausable retained_upgrade_authority : Rule
  transfer_fee : ℕ → Rule
  unlocked_lp remove_locked_liquidity guaranteed_yield issuer_profit_claim : Rule
  impersonation : Bytes → Rule
  hot_key_treasury mutable_metadata_uri : Rule
  creator_concentration : ℕ → Rule

pub record Violation : Type 0 where
  pub rule : Rule
  pub severity : Severity

-- The fields of `TokenPlan`, under names that the rules leave free.
pub record TokenPlan : Type 0 where
  pub chain : Bytes
  pub op : Bytes
  pub retains_mint_authority : Bool
  pub retains_freeze_authority : Bool
  pub has_permanent_delegate : Bool
  pub has_transfer_hook : Bool
  pub blacklist : Bool
  pub is_pausable : Bool
  pub retains_upgrade_authority : Bool
  pub transfer_fee_bps : ℕ
  pub seeds_liquidity : Bool
  pub lp_locked_or_burned : Bool
  pub removes_liquidity : Bool
  pub liquidity_locked : Bool
  pub guarantees_yield : Bool
  pub claims_issuer_profit : Bool
  pub creator_supply_pct : ℕ
  pub impersonates : Bytes
  pub live_network : Bool
  pub treasury_is_hot_signer : Bool
  pub mutable_uri : Bool

-- `unicode.IsSpace`
unfoldable pub is_space : ℕ → Bool
is_space r =
    (leb 9 r && leb r 13)
    || (r == 0x20)
    || (r == 0x85)
    || (r == 0xa0)
    || (r == 0x1680)
    || (leb 0x2000 r && leb r 0x200a)
    || (r == 0x2028)
    || (r == 0x2029)
    || (r == 0x202f)
    || (r == 0x205f)
    || (r == 0x3000)

unfoldable pub trim_left : Bytes → Bytes
trim_left [] = []
trim_left (r ∷ rs) = if is_space r then trim_left rs else r ∷ rs

-- `strings.TrimSpace`, on the runes of a text.
unfoldable pub trim_space : Bytes → Bytes
trim_space rs = reverse (trim_left (reverse (trim_left rs)))

abbrev pub is_block : Severity → Bool
is_block block = true
is_block warn = false

-- The test by which `Evaluate` sorts.
unfoldable pub less : Violation → Violation → Bool
less a b = is_block a.severity && not (is_block b.severity)

-- `sort.SliceStable` with this test: an element goes behind those that are less than it, and in front
-- of its equals, which came after it.
pub insert : Violation → List Violation → List Violation
insert v [] = v ∷ []
insert v (w ∷ ws) = if less w v then w ∷ insert v ws else v ∷ w ∷ ws

pub slice_stable : List Violation → List Violation
unfolding insert
slice_stable [] = []
slice_stable (v ∷ vs) = insert v (slice_stable vs)

-- One `if` of `Evaluate`.
abbrev pub finds : Severity → Rule → Bool → List Violation → List Violation
finds s r b rest = elim b [ true ↦ record { rule = r; severity = s } ∷ rest | false ↦ rest ]

-- The violations in the order of the source's tests.
unfoldable pub violations : TokenPlan → List Violation
violations p = finds block retained_mint_authority p.retains_mint_authority (
    finds block retained_freeze_authority p.retains_freeze_authority (
      finds block permanent_delegate p.has_permanent_delegate (
        finds block transfer_hook p.has_transfer_hook (
          finds block transfer_blacklist p.blacklist (
            finds block pausable p.is_pausable (
              finds block retained_upgrade_authority p.retains_upgrade_authority (
                finds block (transfer_fee p.transfer_fee_bps) (ltb 0 p.transfer_fee_bps) (
                  finds block unlocked_lp (p.seeds_liquidity && not p.lp_locked_or_burned) (
                    finds block remove_locked_liquidity (p.removes_liquidity && p.liquidity_locked)
                      (finds block guaranteed_yield p.guarantees_yield (
                        finds block issuer_profit_claim p.claims_issuer_profit (
                          finds block (impersonation p.impersonates)
                            (not (equal (trim_space p.impersonates) []))
                            (finds block hot_key_treasury
                              (p.live_network && p.treasury_is_hot_signer)
                              (finds warn mutable_metadata_uri (p.live_network && p.mutable_uri) (
                                finds warn (creator_concentration p.creator_supply_pct)
                                  (ltb 30 p.creator_supply_pct) [])))))))))))))))

unfoldable pub evaluate : TokenPlan → List Violation
unfolding slice_stable
evaluate p = slice_stable (violations p)

-- The rules that `Guard` names.
pub blocking : List Violation → List Rule
blocking [] = []
blocking (v ∷ vs) = if is_block v.severity then v.rule ∷ blocking vs else blocking vs

-- The error is the list of the blocking rules.
abbrev pub refuse : List Rule → Result (List Rule) (Unit {0})
refuse rules = if length rules == 0 then ok tt else err rules

unfoldable pub guard : TokenPlan → Result (List Rule) (Unit {0})
unfolding blocking
guard p = refuse (blocking (evaluate p))
