-- ===== src/Token/Mint/Granted.antt =====
-- token/atomic.go against solana/solana.go: the transaction of a mint is one that the signing policy
-- grants to the payer's key. solana-go, which builds and serialises it, is known by what it documents.
use flynn_extensions.Prelude.{
  ℕ, ◌^◌, ◌≤◌, ◌<◌, ◌≡◌, sym, ap, subst, ◌∙◌, Option, some, List, [], ◌∷◌, length, map, All, Bytes,
  get_elem?, arith,
}
use flynn_extensions.Prelude.Result.{ok}
use flynn_extensions.Solana.Message.{Instruction, Message, parse_message}
use flynn_extensions.Solana.Message.Exact.{parse_message-encode}
use flynn_extensions.Solana.Message.Wire.{WireMessage, FitsMessage, encode, view, view_instruction}
use flynn_extensions.Solana.Policy.{token_program, ata_program, metadata_program, approve}
use flynn_extensions.Solana.Policy.Exact.{approve_iff}
use flynn_extensions.Solana.Policy.Uses.{
  Use, mints, revokes_mint, revokes_freeze, writes_account, Grants, AllUsedAs, uses, MayBeSigned,
  mint_to, revoke_mint, revoke_freeze, token_account, metadata, metadata_program-length,
}
use flynn_extensions.Token.Atomic.{
  AccountMeta, Authority, freeze_account, mint_tokens, Builders, MintSpec, create_accounts, create,
  build_mint,
}
use flynn_extensions.Token.Atomic.Assembled.{Assembled, build_mint-Assembled}
use flynn_extensions.Token.Create.{validate_metadata, create_v1_data}
use flynn_extensions.Token.Create.Read.{create_v1_data-short}
use flynn_extensions.Token.Engine.{Built}

-- `solana.Instruction`: its `ProgramID`, `Accounts` and `Data`.
pub record Methods (Ix : Type 0) : Type 0 where
  pub program_id : Ix → Bytes
  pub accounts_of : Ix → List AccountMeta
  pub data_of : Ix → Bytes

-- The byte of an authority's type.
abbrev pub authority_byte : Authority → ℕ
authority_byte mint_tokens = 0
authority_byte freeze_account = 1

module _ {Ix : Type 0} (i : Methods Ix) where
  -- Far within the limits of a message.
  pub record IsSmall (ix : Ix) : Type 0 where
    pub addressed : length (i.program_id ix) ≡ 32
    pub few_accounts : length (i.accounts_of ix) ≤ 16
    pub short_data : length (i.data_of ix) < 2 ^ 16

  -- The message calls the programs of the instructions with their data, in their order.
  abbrev pub Carries : Message → List Ix → List Instruction → Type 0
  Carries m [] [] = Unit
  Carries m (ix ∷ ixs) (c ∷ cs) =
      (get_elem? m.accounts c.program_index ≡ some (i.program_id ix))
      × (c.ix_data ≡ i.data_of ix)
      × Carries m ixs cs
  Carries m _ _ = ⊥

  -- A legacy message with the payer as its first account, as `NewTransaction` compiles it and
  -- `MarshalBinary` writes it.
  pub record Compiled (ixs : List Ix) (payer msg : Bytes) : Type 0 where
    pub wire_message : WireMessage
    pub fits : FitsMessage wire_message
    pub written : msg ≡ encode wire_message
    pub others : List Bytes
    pub paid : wire_message.accounts ≡ payer ∷ others
    pub carried : Carries (view wire_message) ixs (map view_instruction wire_message.instructions)

  pub record IsLibrary (b : Builders Ix) (new_transaction : List Ix → Bytes → Bytes → Option Built)
      : Type 0 where
    pub metadata_address : b.metadata_program ≡ metadata_program
    pub instructs :
        (program : Bytes) (accounts : List AccountMeta) (d : Bytes)
        → (i.program_id (b.new_instruction program accounts d) ≡ program)
          × (i.accounts_of (b.new_instruction program accounts d) ≡ accounts)
          × (i.data_of (b.new_instruction program accounts d) ≡ d)
    pub associates :
        (payer wallet mint : Bytes) (ix : Ix)
        → b.create_idempotent payer wallet mint ≡ some ix
        → (i.program_id ix ≡ ata_program) × IsSmall ix
    pub mints_to :
        (amount : ℕ) (mint dest authority : Bytes) (ix : Ix)
        → b.mint_to amount mint dest authority ≡ some ix
        → (rest : Bytes) × (i.program_id ix ≡ token_program)
          × (i.data_of ix ≡ 7 ∷ rest)
          × IsSmall ix
    pub revokes :
        (kind : Authority) (account authority : Bytes) (ix : Ix)
        → b.set_authority kind account authority ≡ some ix
        → (rest : Bytes) × (i.program_id ix ≡ token_program)
          × (i.data_of ix ≡ 6 ∷ authority_byte kind ∷ 0 ∷ rest)
          × IsSmall ix
    pub compiles :
        (ixs : List Ix) (hash payer msg : Bytes) (tx : Built)
        → length ixs ≤ 8
        → All IsSmall ixs
        → new_transaction ixs hash payer ≡ some tx
        → tx.marshalled ≡ some msg
        → Compiled ixs payer msg

  -- What the instructions of a message are, so are those of its list.
  abbrev Uses : List Ix → List Use → Type 0
  Uses [] [] = Unit
  Uses (ix ∷ ixs) (u ∷ us) = Grants (i.program_id ix) (i.data_of ix) u × Uses ixs us
  Uses _ _ = ⊥

  Carries-AllUsedAs :
      (m : Message) (ixs : List Ix) (us : List Use) (cs : List Instruction)
      → Carries m ixs cs
      → Uses ixs us
      → AllUsedAs m cs us
  Carries-AllUsedAs m [] [] [] c u = tt
  Carries-AllUsedAs m [] [] (x ∷ cs) c u = elim c [ ]
  Carries-AllUsedAs m [] (k ∷ us) cs c u = elim u [ ]
  Carries-AllUsedAs m (ix ∷ ixs) [] cs c u = elim u [ ]
  Carries-AllUsedAs m (ix ∷ ixs) (k ∷ us) [] c u = elim c [ ]
  Carries-AllUsedAs m (ix ∷ ixs) (k ∷ us) (x ∷ cs) (named, same, c) (g, u) = (
    record {
      prog = i.program_id ix;
      named = named;
      grants = subst (λ d. Grants (i.program_id ix) d k) (sym same) g;
    },
    Carries-AllUsedAs m ixs us cs c u,
  )

  module _ (b : Builders Ix) (new_transaction : List Ix → Bytes → Bytes → Option Built)
      (lib : IsLibrary b new_transaction) (payer mint treasury : Bytes) (s : MintSpec)
      (described : validate_metadata s.name s.symbol s.metadata_uri ≡ ok tt) where
    create-IsSmall : (pda : Bytes) → IsSmall (create b pda mint payer treasury s)
    create-IsSmall pda =
        let (program, accounts, d) =
          lib.instructs b.metadata_program (create_accounts b pda mint payer treasury)
            (create_v1_data s.name s.symbol s.metadata_uri s.decimals) in
        record {
          addressed = ap length (program ∙ lib.metadata_address) ∙ metadata_program-length;
          few_accounts = rw accounts (omega arith);
          short_data =
              rw d (create_v1_data-short s.name s.symbol s.metadata_uri s.decimals described);
        }

    abbrev granted : List Use
    granted = writes_account ∷ writes_account ∷ mints ∷ revokes_freeze ∷ revokes_mint ∷ []

    Assembled-Uses : (ixs : List Ix) → Assembled b payer mint treasury s ixs → Uses ixs granted
    Assembled-Uses ixs a =
        let (program, accounts, d) =
          lib.instructs b.metadata_program (create_accounts b a.metadata mint payer treasury)
            (create_v1_data s.name s.symbol s.metadata_uri s.decimals) in
        let (rest, minter, minted, m) = lib.mints_to a.amount mint a.dest payer a.minting a.mints in
        let (more, thawer, thawed, f) = lib.revokes freeze_account mint payer a.thaw a.unfreezes in
        let (last, fixer, fixed, x) = lib.revokes mint_tokens mint payer a.fix_supply a.fixes in
        subst (λ ixs. Uses ixs granted) (sym a.in_order)
          (
            metadata (program ∙ lib.metadata_address),
            (
              token_account (lib.associates payer treasury mint a.ata a.associates).0,
              (
                mint_to rest minter minted,
                (revoke_freeze more thawer thawed, (revoke_mint last fixer fixed, tt)),
              ),
            ),
          )

    Assembled-IsSmall :
        (ixs : List Ix) → Assembled b payer mint treasury s ixs → (length ixs ≤ 8) × All IsSmall ixs
    Assembled-IsSmall ixs a =
        let small = λ (xs : List Ix). (length xs ≤ 8) × All IsSmall xs in
        subst small (sym a.in_order) (
          omega arith,
          (
            create-IsSmall a.metadata,
            (
              (lib.associates payer treasury mint a.ata a.associates).1,
              (
                (lib.mints_to a.amount mint a.dest payer a.minting a.mints).3,
                (
                  (lib.revokes freeze_account mint payer a.thaw a.unfreezes).3,
                  ((lib.revokes mint_tokens mint payer a.fix_supply a.fixes).3, tt),
                ),
              ),
            ),
          ),
        )

    Compiled-MayBeSigned :
        (ixs : List Ix) (msg : Bytes)
        → Uses ixs granted
        → (c : Compiled ixs payer msg) → MayBeSigned payer (view c.wire_message)
    unfolding uses
    Compiled-MayBeSigned ixs msg u c = record {
      others = c.others;
      paid = c.paid;
      us = granted;
      used = Carries-AllUsedAs _ ixs granted _ c.carried u;
      revoked = λ h. (omega arith, omega arith);
    }

    -- Each message that is marshalled of the mint's transaction is approved by the policy that is bound
    -- to its payer.
    pub build_mint-approved :
        (ixs : List Ix) (hash msg : Bytes) (tx : Built)
        → build_mint b payer mint treasury s ≡ ok ixs
        → new_transaction ixs hash payer ≡ some tx
        → tx.marshalled ≡ some msg
        → approve (record { payer = payer }) msg ≡ ok tt
    build_mint-approved ixs hash msg tx built made marshalled =
        let a = build_mint-Assembled b payer mint treasury s ixs built in
        let (few, small) = Assembled-IsSmall ixs a in
        let c = lib.compiles ixs hash payer msg tx few small made marshalled in
        (approve_iff (record { payer = payer }) msg).1 (
          view c.wire_message,
          ap parse_message c.written ∙ parse_message-encode c.wire_message c.fits,
          Compiled-MayBeSigned ixs msg (Assembled-Uses ixs a) c,
        )
