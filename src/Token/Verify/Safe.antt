-- ===== src/Token/Verify/Safe.antt =====
-- token/mint.go: what the chain has to say for a mint to be reported as safe.
use flynn_extensions.Prelude.{
  ℕ, ◌≡◌, ◌≢◌, ◌↔◌, refl, true, false, ◌==◌, Bool-cases, Option-cases, inl, inr, Option, none, some,
  length, arith, Bytes, equal, equal_iff, equal-cases,
}
use flynn_extensions.Prelude.Result.{ok, wrap->>=-Gives, wrap-Gives}
use flynn_extensions.Token.Amount.{scaled_amount}
use flynn_extensions.Token.Verify.{
  AccountInfo, Fetched, fetch_failed, not_found, absent, found, MintAccount, Programs, MintState,
  bad_amount, unproven, unreadable, supply_error, mint_account_size, check_supply, check_safe,
  check_landed, shown, state_of, verify, verify_safe, resolve_unconfirmed,
}

module _ (p : Programs) where
  -- The node gives an initialized classic mint account, whole.
  pub record IsMint (answer : Fetched) (account : MintAccount) : Type 0 where
    pub info : AccountInfo
    pub answered : answer ≡ found info
    pub classic : info.owner ≢ p.token_2022
    pub owned : info.owner ≡ p.spl_token
    pub sized : length info.account_data ≡ mint_account_size
    pub decoded : p.decode_mint info.account_data ≡ some account
    pub initialized : account.is_initialized ≡ true

  -- It is the account of a finished mint: nobody has an authority over it, and its supply is the one
  -- that was asked for.
  pub record IsFinished (answer : Fetched) (supply decimals : ℕ) : Type 0 where
    pub account : MintAccount
    pub is_mint : IsMint answer account
    pub fixed : account.mint_authority ≡ none
    pub unfreezable : account.freeze_authority ≡ none
    pub exact : scaled_amount supply decimals ≡ ok account.supply

check_supply_iff :
    (st : MintState) (supply decimals : ℕ)
    → (check_supply st supply decimals ≡ ok tt) ↔ (scaled_amount supply decimals ≡ ok st.supply)
unfolding check_supply
check_supply_iff st supply decimals = (
  λ h.
      let (expected, scaled, rest) =
        wrap->>=-Gives bad_amount (scaled_amount supply decimals) _ h in
      let same : st.supply ≡ expected = ground arith in rw same scaled,
  λ scaled. rw scaled (ground arith),
)

-- What is left of an account after `Verify`.
abbrev Bare : MintState → Type 0
Bare st = (st.mint_authority ≡ none) × (st.freeze_authority ≡ none)

check_safe_iff :
    (st : MintState) (supply decimals : ℕ)
    → (check_safe st supply decimals ≡ ok tt)
      ↔ (Bare st × (scaled_amount supply decimals ≡ ok st.supply))
unfolding check_supply
check_safe_iff st supply decimals = elim (Option-cases st.freeze_authority) [
  | inl unfreezable ↦ elim (Option-cases st.mint_authority) [
    | inl fixed ↦ (
      λ h. (
        (fixed, unfreezable),
        (check_supply_iff st supply decimals).0 (rw (unfreezable, fixed) at h),
      ),
      λ (bare, scaled). rw (unfreezable, fixed) ((check_supply_iff st supply decimals).1 scaled),
    )
    | inr (a, minted) ↦ (λ h. (let now = rw (unfreezable, minted) at h in cc), λ (bare, scaled). cc)
  ]
  | inr (a, frozen) ↦ (λ h. (let now = rw frozen at h in cc), λ (bare, scaled). cc)
]

check_landed_iff :
    (st : MintState) (supply decimals : ℕ)
    → (check_landed st supply decimals ≡ ok tt) ↔ (check_safe st supply decimals ≡ ok tt)
unfolding check_supply
check_landed_iff st supply decimals = elim (Option-cases st.freeze_authority) [
  | inl unfreezable ↦ elim (Option-cases st.mint_authority) [
    | inl fixed ↦ rw (unfreezable, fixed) (λ h. wrap-Gives supply_error _ h, λ h. rw h refl)
    | inr (a, minted) ↦ rw (unfreezable, minted) (λ h. cc, λ h. cc)
  ]
  | inr (a, frozen) ↦ elim (Option-cases st.mint_authority) [
    | inl fixed ↦ rw (frozen, fixed) (λ h. cc, λ h. cc)
    | inr (b, minted) ↦ rw (frozen, minted) (λ h. cc, λ h. cc)
  ]
]

state_of-Gives :
    (mint : Bytes) (o : Option MintAccount) (st : MintState)
    → state_of mint o ≡ ok st
    → (account : MintAccount) × (o ≡ some account)
      × (account.is_initialized ≡ true)
      × (st ≡ shown mint account)
state_of-Gives mint none st h = cc
state_of-Gives mint (some m) st h = elim (Bool-cases m.is_initialized) [
  | inl set ↦ (let now = rw set at h in (m, refl, set, cc))
  | inr unset ↦ (let now = rw unset at h in cc)
]

module _ (p : Programs) (mint : Bytes) where
  verify-IsMint :
      (answer : Fetched) (st : MintState)
      → verify p mint answer ≡ ok st
      → (account : MintAccount) × IsMint p answer account × (st ≡ shown mint account)
  unfolding verify
  verify-IsMint fetch_failed st h = cc
  verify-IsMint not_found st h = cc
  verify-IsMint absent st h = cc
  verify-IsMint (found info) st h = elim (equal-cases info.owner p.token_2022) [
    | inl (new, same) ↦ (let now = rw (verify, new) at h in cc)
    | inr (other, classic) ↦ elim (equal-cases info.owner p.spl_token) [
      | inr (foreign, apart) ↦ (let now = rw (verify, other, foreign) at h in cc)
      | inl (spl, owned) ↦ elim (Bool-cases (length info.account_data == mint_account_size)) [
        | inr short ↦ (let now = rw (verify, other, spl, short) at h in cc)
        | inl whole ↦
            let (account, decoded, initialized, same) =
              state_of-Gives mint (p.decode_mint info.account_data) st
                (rw (verify, other, spl, whole) at h) in
            (
              account,
              record {
                info = info;
                answered = refl;
                classic = classic;
                owned = owned;
                sized = ground arith;
                decoded = decoded;
                initialized = initialized;
              },
              same,
            )
      ]
    ]
  ]

  IsMint-verify :
      (answer : Fetched) (account : MintAccount)
      → IsMint p answer account
      → verify p mint answer ≡ ok (shown mint account)
  unfolding verify
  IsMint-verify answer account m =
      let classic : equal m.info.owner p.token_2022 ≡ false =
        ground (arith, equal_iff m.info.owner p.token_2022) in
      let owned : equal m.info.owner p.spl_token ≡ true =
        (equal_iff m.info.owner p.spl_token).1 m.owned in
      let sized : (length m.info.account_data == mint_account_size) ≡ true = ground arith in
      rw (m.answered, classic, owned, sized, m.decoded, m.initialized) refl

  finished :
      (answer : Fetched) (supply decimals : ℕ) (st : MintState)
      → verify p mint answer ≡ ok st
      → check_safe st supply decimals ≡ ok tt
      → IsFinished p answer supply decimals
  finished answer supply decimals st read safe =
      let (account, is_mint, same) = verify-IsMint answer st read in
      let (bare, exact) =
        (check_safe_iff (shown mint account) supply decimals).0 (rw same at safe) in
      record {
        account = account;
        is_mint = is_mint;
        fixed = bare.0;
        unfreezable = bare.1;
        exact = exact;
      }

  -- A mint is reported as safe exactly when the node gives the account of a finished mint, and a mint
  -- whose confirmation was lost is reported as landed exactly then as well.
  pub verify_safe_iff :
      (answer : Fetched) (supply decimals : ℕ)
      → ((verify_safe p mint answer supply decimals ≡ ok tt) ↔ IsFinished p answer supply decimals)
        × ((resolve_unconfirmed p mint answer supply decimals ≡ ok tt)
            ↔ IsFinished p answer supply decimals)
  unfolding verify_safe resolve_unconfirmed
  verify_safe_iff answer supply decimals = (
    (
      λ h.
          let (st, read, rest) = wrap->>=-Gives unproven (verify p mint answer) _ h in
          finished answer supply decimals st read rest,
      λ f. rw (IsMint-verify answer f.account f.is_mint) (
          (check_safe_iff (shown mint f.account) supply decimals).1
            ((f.fixed, f.unfreezable), f.exact)),
    ),
    (
      λ h.
          let (st, read, rest) = wrap->>=-Gives unreadable (verify p mint answer) _ h in
          finished answer supply decimals st read ((check_landed_iff st supply decimals).0 rest),
      λ f. rw (IsMint-verify answer f.account f.is_mint) (
          (check_landed_iff (shown mint f.account) supply decimals).1 (
            (check_safe_iff (shown mint f.account) supply decimals).1
              ((f.fixed, f.unfreezable), f.exact))),
    ),
  )
