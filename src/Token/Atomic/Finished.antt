-- ===== src/Token/Atomic/Finished.antt =====
-- token/atomic.go: what the transaction does to the chain, in the order of its instructions.
use flynn_extensions.Prelude.{
  ℕ, ◌+◌, ◌*◌, ◌^◌, ◌≤◌, ◌≡◌, ◌≢◌, refl, sym, subst, ◌∙◌, true, false, Option, none, some, List, [],
  ◌∷◌, Bytes, codes, length, equal, equal_self, equal-cases, if◌then◌else◌, inl, inr, arith,
}
use flynn_extensions.Prelude.Result.{ok}
use flynn_extensions.Token.Amount.{max_uint64, scaled_amount_iff}
use flynn_extensions.Token.Create.{validate_metadata}
use flynn_extensions.Token.Create.Read.{CreateArgs, read_create, read_create-create_v1_data}
use flynn_extensions.Token.Atomic.Assembled.{build_mint-Assembled}
use flynn_extensions.Token.Verify.{MintAccount}
use flynn_extensions.Token.Atomic.{
  Builders, AccountMeta, freeze_account, mint_tokens, MintSpec, create, build_mint,
}

-- What the transaction touches: the mint's account, before and after its creation, and what each token
-- account of the mint holds, none for an account that is not there.
pub record Chain : Type 0 where
  pub mint_account : Option MintAccount
  pub held : Bytes → Option ℕ

-- None is a failed instruction.
abbrev pub Effect : Type 0 → Type 0
Effect Ix = Ix → Chain → Option Chain

-- The runtime is atomic: a failed instruction leaves nothing of the others.
unfoldable pub run_all : {Ix : Type 0} → Effect Ix → List Ix → Chain → Option Chain
run_all effect [] c = some c
run_all effect (ix ∷ ixs) c = elim (effect ix c) [
  | none ↦ none
  | some next ↦ run_all effect ixs next
]

-- A mint as the Create leaves it, with both authorities at the one that signed for it.
abbrev pub fresh : Bytes → ℕ → MintAccount
fresh authority decimals = record {
  is_initialized = true;
  decimals = decimals;
  supply = 0;
  mint_authority = some authority;
  freeze_authority = some authority;
}

abbrev pub put : Bytes → ℕ → (Bytes → Option ℕ) → Bytes → Option ℕ
put dest n held k = if equal k dest then some n else held k

-- The accounts of a Create, with whether each is writable and a signer: the metadata, the master edition
-- (the program itself for none), the mint, its authority, the payer, the update authority, and the
-- programs that it calls.
abbrev pub needed : {Ix : Type 0} → Builders Ix → Bytes → Bytes → Bytes → Bytes → List AccountMeta
needed b metadata mint authority update =
    record { key = metadata; is_writable = true; is_signer = false }
    ∷ record { key = b.metadata_program; is_writable = false; is_signer = false }
    ∷ record { key = mint; is_writable = true; is_signer = true }
    ∷ record { key = authority; is_writable = false; is_signer = true }
    ∷ record { key = authority; is_writable = true; is_signer = true }
    ∷ record { key = update; is_writable = false; is_signer = false }
    ∷ record { key = b.system_program; is_writable = false; is_signer = false }
    ∷ record { key = b.sysvar_instructions; is_writable = false; is_signer = false }
    ∷ record { key = b.token_program; is_writable = false; is_signer = false }
    ∷ []

-- What the programs document of the instructions for this mint. A Create makes a mint that is not there,
-- as its data says, of a fungible, if its metadata account is the address that is derived for the mint and its texts are
-- within the program's limits. An associated account is opened, empty, at the wallet's derived address,
-- once the mint is there. Only the mint authority mints, to an account that is there, within 64 bits.
-- Only the holder of an authority gives it up.
pub record IsDocumented {Ix : Type 0} (b : Builders Ix) (mint : Bytes) (effect : Effect Ix)
    : Type 0 where
  pub creates :
      (metadata authority update data_ : Bytes) (x : CreateArgs) (c : Chain)
      → b.find_program_address
          (codes "metadata" ∷ b.metadata_program ∷ mint ∷ [])
          b.metadata_program
        ≡ some metadata
      → read_create data_ ≡ some x
      → length x.name ≤ 32
      → length x.symbol ≤ 10
      → length x.uri ≤ 200
      → x.token_standard ≡ 2
      → c.mint_account ≡ none
      → effect
          (b.new_instruction b.metadata_program (needed b metadata mint authority update) data_)
          c
        ≡ some (record c { mint_account = some (fresh authority x.decimals) })
  pub associates :
      (payer wallet dest : Bytes) (ix : Ix) (c : Chain) (m : MintAccount)
      → b.create_idempotent payer wallet mint ≡ some ix
      → b.find_associated_token_address wallet mint ≡ some dest
      → c.mint_account ≡ some m
      → c.held dest ≡ none
      → effect ix c ≡ some (record c { held = put dest 0 c.held })
  pub mints :
      (amount n : ℕ) (dest authority : Bytes) (ix : Ix) (c : Chain) (m : MintAccount)
      → b.mint_to amount mint dest authority ≡ some ix
      → c.mint_account ≡ some m
      → m.mint_authority ≡ some authority
      → c.held dest ≡ some n
      → m.supply + amount ≤ max_uint64
      → effect ix c
        ≡ some (record {
          mint_account = some (record m { supply = m.supply + amount });
          held = put dest (n + amount) c.held;
        })
  pub unfreezes :
      (authority : Bytes) (ix : Ix) (c : Chain) (m : MintAccount)
      → b.set_authority freeze_account mint authority ≡ some ix
      → c.mint_account ≡ some m
      → m.freeze_authority ≡ some authority
      → effect ix c ≡ some (record c { mint_account = some (record m { freeze_authority = none }) })
  pub fixes :
      (authority : Bytes) (ix : Ix) (c : Chain) (m : MintAccount)
      → b.set_authority mint_tokens mint authority ≡ some ix
      → c.mint_account ≡ some m
      → m.mint_authority ≡ some authority
      → effect ix c ≡ some (record c { mint_account = some (record m { mint_authority = none }) })

-- The mint of a finished token.
abbrev pub finished : ℕ → ℕ → MintAccount
finished amount decimals = record {
  is_initialized = true;
  decimals = decimals;
  supply = amount;
  mint_authority = none;
  freeze_authority = none;
}

-- There is no mint, and no account for its tokens.
abbrev pub IsBare : Chain → Type 0
IsBare c = (c.mint_account ≡ none) × ((k : Bytes) → c.held k ≡ none)

-- The instructions succeed, and leave a finished mint of this amount, which the treasury's derived
-- account holds whole; no other account of the mint is there.
pub record Finishes {Ix : Type 0} (b : Builders Ix) (effect : Effect Ix) (mint treasury : Bytes)
    (amount decimals : ℕ) (ixs : List Ix) (c : Chain) : Type 0 where
  pub dest : Bytes
  pub derived : b.find_associated_token_address treasury mint ≡ some dest
  pub final : Chain
  pub runs : run_all effect ixs c ≡ some final
  pub minted : final.mint_account ≡ some (finished amount decimals)
  pub whole : final.held dest ≡ some amount
  pub only : (k : Bytes) → k ≢ dest → final.held k ≡ none

validate_metadata-fits :
    (name symbol uri : Bytes)
    → validate_metadata name symbol uri ≡ ok tt
    → (length name ≤ 32) × (length symbol ≤ 10) × (length uri ≤ 200)
unfolding validate_metadata
validate_metadata-fits name symbol uri h = ground arith

put_self : (dest : Bytes) (n : ℕ) (held : Bytes → Option ℕ) → put dest n held dest ≡ some n
put_self dest n held = rw (equal_self dest) refl

put_other :
    (dest k : Bytes) (n : ℕ) (held : Bytes → Option ℕ) → k ≢ dest → put dest n held k ≡ held k
put_other dest k n held apart = elim (equal-cases k dest) [
  | inl (test, same) ↦ absurd (apart same)
  | inr (test, differ) ↦ rw test refl
]

module _ {Ix : Type 0} (b : Builders Ix) (effect : Effect Ix) (payer mint treasury : Bytes) where
  step :
      (ix : Ix) (ixs : List Ix) {c next : Chain}
      → effect ix c ≡ some next
      → run_all effect (ix ∷ ixs) c ≡ run_all effect ixs next
  unfolding run_all
  step ix ixs e = rw (run_all, e) refl

  abbrev completed : MintSpec → Bytes → ℕ → Chain → Chain
  completed s dest amount c = record {
    mint_account = some (finished amount s.decimals);
    held = put dest amount (put dest 0 c.held);
  }

  build_mint-Runs :
      (s : MintSpec) (p : IsDocumented b mint effect) (metadata dest : Bytes) (amount : ℕ)
      (ata minting thaw fix_supply : Ix) (c : Chain)
      → IsBare c
      → validate_metadata s.name s.symbol s.metadata_uri ≡ ok tt
      → amount ≤ max_uint64
      → b.find_program_address
          (codes "metadata" ∷ b.metadata_program ∷ mint ∷ [])
          b.metadata_program
        ≡ some metadata
      → b.find_associated_token_address treasury mint ≡ some dest
      → b.create_idempotent payer treasury mint ≡ some ata
      → b.mint_to amount mint dest payer ≡ some minting
      → b.set_authority freeze_account mint payer ≡ some thaw
      → b.set_authority mint_tokens mint payer ≡ some fix_supply
      → run_all effect
          (create b metadata mint payer treasury s ∷ ata ∷ minting ∷ thaw ∷ fix_supply ∷ [])
          c
        ≡ some (completed s dest amount c)
  unfolding run_all
  build_mint-Runs s p metadata dest amount ata minting thaw fix_supply c (gone, empty) valid bound d
        w a t f x =
      let (name_fits, symbol_fits, uri_fits) =
        validate_metadata-fits s.name s.symbol s.metadata_uri valid in
      let none_yet : 0 + amount ≡ amount = omega arith in
      let start = fresh payer s.decimals in
      let full = record start { supply = amount } in
      let thawed = record full { freeze_authority = none } in
      let open_ = put dest 0 c.held in
      let paid = put dest amount open_ in
      step (create b metadata mint payer treasury s) (ata ∷ minting ∷ thaw ∷ fix_supply ∷ []) (
        p.creates metadata payer treasury _ _ c d
          (read_create-create_v1_data s.name s.symbol s.metadata_uri s.decimals valid) name_fits
          symbol_fits uri_fits refl gone)
      ∙ step ata (minting ∷ thaw ∷ fix_supply ∷ []) (
          p.associates payer treasury dest ata (record { mint_account = some start; held = c.held })
            start a w refl (empty dest))
      ∙ step minting (thaw ∷ fix_supply ∷ []) (
          subst
            (λ x.
              effect minting (record { mint_account = some start; held = open_ })
              ≡ some (record {
                mint_account = some (record start { supply = x });
                held = put dest x open_;
              }))
            none_yet
            (p.mints amount 0 dest payer minting
              (record { mint_account = some start; held = open_ }) start t refl refl
              (put_self dest 0 c.held) (rw none_yet bound)))
      ∙ step thaw (fix_supply ∷ []) (
          p.unfreezes payer thaw (record { mint_account = some full; held = paid }) full f refl
            refl)
      ∙ step fix_supply [] (
          p.fixes payer fix_supply (record { mint_account = some thawed; held = paid }) thawed x
            refl refl)

-- The instructions that `buildMint` assembles for a specification with valid texts, run on a chain where
-- the mint is not there yet, all succeed: the mint then has the supply scaled by its decimals and neither
-- a mint authority nor a freeze authority, and the treasury's associated account holds all of it. The
-- programs do what they document.
pub build_mint-finished :
    {Ix : Type 0} (b : Builders Ix) (effect : Effect Ix) (payer mint treasury : Bytes)
    (s : MintSpec) (ixs : List Ix) (c : Chain)
    → IsDocumented b mint effect
    → IsBare c
    → validate_metadata s.name s.symbol s.metadata_uri ≡ ok tt
    → s.supply ≤ max_uint64
    → build_mint b payer mint treasury s ≡ ok ixs
    → Finishes b effect mint treasury (s.supply * 10 ^ s.decimals) s.decimals ixs c
build_mint-finished b effect payer mint treasury s ixs c p bare valid fits h =
    let a = build_mint-Assembled b payer mint treasury s ixs h in
    let (value, bound) = (scaled_amount_iff s.supply s.decimals a.amount fits).0 a.scales in
    let ran =
      build_mint-Runs b effect payer mint treasury s p a.metadata a.dest a.amount a.ata a.minting
        a.thaw a.fix_supply c bare valid (rw value bound) a.derives a.goes_to a.associates a.mints
        a.unfreezes a.fixes in
    let final = completed b effect payer mint treasury s a.dest a.amount c in
    rw⁻¹ value (record {
      dest = a.dest;
      derived = a.goes_to;
      final = final;
      runs = subst (λ l. run_all effect l c ≡ some final) (sym a.in_order) ran;
      minted = refl;
      whole = put_self a.dest a.amount (put a.dest 0 c.held);
      only = λ k apart.
          put_other a.dest k a.amount (put a.dest 0 c.held) apart
          ∙ put_other a.dest k 0 c.held apart
          ∙ bare.1 k;
    })
