-- ===== src/Token/Atomic/Runs.antt =====
-- A run of the built instructions on a chain with concrete programs.
use flynn_extensions.Prelude.{
  ℕ, ◌+◌, ◌*◌, ◌^◌, ◌≡◌, refl, subst, Option, none, some, List, [], ◌∷◌, ◌++◌, Bytes, arith, equal,
  equal_self, if◌then◌else◌, codes,
}
use flynn_extensions.Prelude.Result.{ok}
use flynn_extensions.Token.Amount.{scaled_amount, scale}
use flynn_extensions.Token.Create.{validate_metadata}
use flynn_extensions.Token.Create.Read.{read_create}
use flynn_extensions.Token.Verify.{MintAccount}
use flynn_extensions.Token.Atomic.{
  AccountMeta, Authority, freeze_account, mint_tokens, Builders, MintSpec, create, build_mint,
}
use flynn_extensions.Token.Atomic.Finished.{
  Chain, Effect, fresh, put, needed, IsDocumented, Finishes, build_mint-finished,
}

data TestIx : Type 0 where
  creating : List AccountMeta → Bytes → TestIx
  associating : Bytes → TestIx
  minting : ℕ → Bytes → Bytes → TestIx
  clearing : Authority → Bytes → TestIx

-- An address is derived by putting the seeds together.
abbrev join : List Bytes → Bytes
join [] = []
join (s ∷ seeds) = s ++ join seeds

abbrev builders : Builders TestIx
builders = record {
  metadata_program = 1 ∷ [];
  system_program = 2 ∷ [];
  sysvar_instructions = 3 ∷ [];
  token_program = 4 ∷ [];
  find_program_address = λ seeds program. some (program ++ join seeds);
  find_associated_token_address = λ wallet mint. some (wallet ++ mint);
  new_instruction = λ program accounts data_. creating accounts data_;
  create_idempotent = λ payer wallet mint. some (associating (wallet ++ mint));
  mint_to = λ amount mint dest authority. some (minting amount dest authority);
  set_authority = λ kind mint authority. some (clearing kind authority);
}

-- The mint that is made, and the address of its metadata.
abbrev the_mint : Bytes
the_mint = 3 ∷ []

abbrev its_metadata : Bytes
its_metadata = 1 ∷ join (codes "metadata" ∷ (1 ∷ []) ∷ the_mint ∷ [])

-- The keys of the metadata and of the authority stand first and fourth.
abbrev creates_at : List AccountMeta → ℕ → Chain → Option Chain
creates_at (m ∷ e ∷ k ∷ a ∷ rest) decimals c =
    if equal m.key its_metadata
    then some (record c { mint_account = some (fresh a.key decimals) })
    else none
creates_at _ decimals c = none

-- Only the holder of an authority acts by it.
abbrev held_by : Bytes → Option Bytes → Chain → Option Chain
held_by authority none next = none
held_by authority (some holder) next = if equal holder authority then some next else none

abbrev tokens_of : Option ℕ → ℕ
tokens_of none = 0
tokens_of (some n) = n

abbrev on_mint : TestIx → MintAccount → Chain → Option Chain
on_mint (creating accounts data_) m c = none
on_mint (associating dest) m c = some (record c { held = put dest 0 c.held })
on_mint (minting amount dest authority) m c = held_by authority m.mint_authority (record {
  mint_account = some (record m { supply = m.supply + amount });
  held = put dest (tokens_of (c.held dest) + amount) c.held;
})
on_mint (clearing freeze_account authority) m c =
    held_by authority m.freeze_authority
      (record c { mint_account = some (record m { freeze_authority = none }) })
on_mint (clearing mint_tokens authority) m c =
    held_by authority m.mint_authority
      (record c { mint_account = some (record m { mint_authority = none }) })

-- The decimals of the data of a Create.
abbrev decimals_in : Bytes → ℕ
decimals_in data_ = elim (read_create data_) [ none ↦ 0 | some x ↦ x.decimals ]

abbrev effect : Effect TestIx
effect (creating accounts data_) c = elim c.mint_account [
  | none ↦ creates_at accounts (decimals_in data_) c
  | some m ↦ none
]
effect ix c = elim c.mint_account [ none ↦ none | some m ↦ on_mint ix m c ]

abbrev spec : MintSpec
spec = record {
  name = codes "Acme";
  symbol = codes "ACM";
  metadata_uri = codes "ipfs://x";
  decimals = 2;
  supply = 5;
  treasury = 8 ∷ [];
}

held_by-holder :
    (authority : Bytes) (holder : Option Bytes) (next : Chain)
    → holder ≡ some authority
    → held_by authority holder next ≡ some next
held_by-holder authority none next h = cc
held_by-holder authority (some holder) next h =
    (let same : holder ≡ authority = cc in rw (same, held_by, equal_self authority) refl)

effect-IsDocumented : IsDocumented builders the_mint effect
effect-IsDocumented = record {
  creates =
      λ metadata authority update data_ x c derived read name_fits symbol_fits uri_fits fungible
          gone.
        (let same : its_metadata ≡ metadata = cc in
          subst
            (λ k.
              effect (creating (needed builders k the_mint authority update) data_) c
              ≡ some (record c { mint_account = some (fresh authority x.decimals) }))
            same (rw (gone, effect, equal_self its_metadata, creates_at, decimals_in, read) refl));
  associates = λ payer wallet dest ix c m h derived there empty.
      (let same : associating (wallet ++ the_mint) ≡ ix = cc in
        let at : wallet ++ the_mint ≡ dest = cc in rw⁻¹ same (rw (there, at) refl));
  mints = λ amount n dest authority ix c m h there holds has bound.
      (let same : minting amount dest authority ≡ ix = cc in
        rw⁻¹ same (rw (there, has) (held_by-holder authority m.mint_authority _ holds)));
  unfreezes = λ authority ix c m h there holds.
      (let same : clearing freeze_account authority ≡ ix = cc in
        rw⁻¹ same (rw there (held_by-holder authority m.freeze_authority _ holds)));
  fixes = λ authority ix c m h there holds.
      (let same : clearing mint_tokens authority ≡ ix = cc in
        rw⁻¹ same (rw there (held_by-holder authority m.mint_authority _ holds)));
}

abbrev instructions : List TestIx
instructions =
    create builders its_metadata the_mint (7 ∷ []) (8 ∷ []) spec
    ∷ associating (8 ∷ 3 ∷ [])
    ∷ minting 500 (8 ∷ 3 ∷ []) (7 ∷ [])
    ∷ clearing freeze_account (7 ∷ [])
    ∷ clearing mint_tokens (7 ∷ [])
    ∷ []

valid : validate_metadata (codes "Acme") (codes "ACM") (codes "ipfs://x") ≡ ok tt
unfolding validate_metadata
valid = refl

built : build_mint builders (7 ∷ []) the_mint (8 ∷ []) spec ≡ ok instructions
unfolding build_mint scaled_amount scale
built = refl

abbrev bare : Chain
bare = record { mint_account = none; held = λ k. none }

build_mint-finished_example :
    Finishes builders effect the_mint (8 ∷ []) (5 * 10 ^ 2) 2 instructions bare
build_mint-finished_example =
    build_mint-finished builders effect (7 ∷ []) the_mint (8 ∷ []) spec instructions bare
      effect-IsDocumented (refl, λ k. refl) valid (omega arith) built
