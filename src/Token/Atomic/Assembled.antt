-- ===== src/Token/Atomic/Assembled.antt =====
-- token/atomic.go, `buildMint`: what the instructions are made of when none of its steps fails.
use flynn_extensions.Prelude.{ℕ, ◌≡◌, Option, none, some, List, [], ◌∷◌, Bytes}
use flynn_extensions.Prelude.Result.{ok, >>=-Gives, wrap->>=-Gives}
use flynn_extensions.Token.Amount.{scaled_amount}
use flynn_extensions.Token.Atomic.{
  Builders, freeze_account, mint_tokens, BuildError, amount_overflow, MintSpec, or_fail,
  metadata_pda, create, build_mint,
}

or_fail-Gives {ℓ} :
    {A : Type ℓ} (e : BuildError) (o : Option A) {a : A} → or_fail e o ≡ ok a → o ≡ some a
or_fail-Gives e none h = cc
or_fail-Gives e (some a) h = cc

module _ {Ix : Type 0} (b : Builders Ix) (payer mint treasury : Bytes) (s : MintSpec) where
  -- The five instructions, in their order, and what each was built from.
  pub record Assembled (ixs : List Ix) : Type 0 where
    pub metadata : Bytes
    pub dest : Bytes
    pub amount : ℕ
    pub ata : Ix
    pub minting : Ix
    pub thaw : Ix
    pub fix_supply : Ix
    pub derives : metadata_pda b mint ≡ some metadata
    pub goes_to : b.find_associated_token_address treasury mint ≡ some dest
    pub associates : b.create_idempotent payer treasury mint ≡ some ata
    pub scales : scaled_amount s.supply s.decimals ≡ ok amount
    pub mints : b.mint_to amount mint dest payer ≡ some minting
    pub unfreezes : b.set_authority freeze_account mint payer ≡ some thaw
    pub fixes : b.set_authority mint_tokens mint payer ≡ some fix_supply
    pub in_order :
        ixs ≡ create b metadata mint payer treasury s ∷ ata ∷ minting ∷ thaw ∷ fix_supply ∷ []

  pub build_mint-Assembled :
      (ixs : List Ix) → build_mint b payer mint treasury s ≡ ok ixs → Assembled ixs
  unfolding build_mint
  build_mint-Assembled ixs h =
      let (metadata, m, h₁) = >>=-Gives (or_fail _ (metadata_pda b mint)) _ h in
      let (dest, d, h₂) =
        >>=-Gives (or_fail _ (b.find_associated_token_address treasury mint)) _ h₁ in
      let (ata, a, h₃) = >>=-Gives (or_fail _ (b.create_idempotent payer treasury mint)) _ h₂ in
      let (amount, n, h₄) =
        wrap->>=-Gives amount_overflow (scaled_amount s.supply s.decimals) _ h₃ in
      let (minting, t, h₅) = >>=-Gives (or_fail _ (b.mint_to amount mint dest payer)) _ h₄ in
      let (thaw, f, h₆) = >>=-Gives (or_fail _ (b.set_authority freeze_account mint payer)) _ h₅ in
      let (fix_supply, x, h₇) =
        >>=-Gives (or_fail _ (b.set_authority mint_tokens mint payer)) _ h₆ in
      record {
        metadata = metadata;
        dest = dest;
        amount = amount;
        ata = ata;
        minting = minting;
        thaw = thaw;
        fix_supply = fix_supply;
        derives = or_fail-Gives _ _ m;
        goes_to = or_fail-Gives _ _ d;
        associates = or_fail-Gives _ _ a;
        scales = n;
        mints = or_fail-Gives _ _ t;
        unfreezes = or_fail-Gives _ _ f;
        fixes = or_fail-Gives _ _ x;
        in_order = cc;
      }
