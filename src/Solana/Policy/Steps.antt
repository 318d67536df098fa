-- ===== src/Solana/Policy/Steps.antt =====
-- The steps of `Approve` in solana/solana.go, each against the uses that the key is granted for.
use flynn_extensions.Prelude.{
  ℕ, ◌+◌, ◌≡◌, ◌↔◌, refl, ap, ◌∙◌, false, Bool-cases, inl, inr, some, Option-cases, List, [], ◌∷◌,
  arith, Bytes, get_elem?, equal, equal_iff, equal_self,
}
use flynn_extensions.Prelude.Result.{Result, ok, >>=-Gives, wrap->>=-Gives}
use flynn_extensions.Solana.Message.{Instruction, Message, program_of}
use flynn_extensions.Solana.Base58.{must_addr, base58_decode, index_from, multiply, flush}
use flynn_extensions.Solana.Policy.{
  PolicyError, TokenKind, Counts, instruction, mint_to, revoke_mint, revoke_freeze, count_kind,
  system_program, token_program, ata_program, metadata_program, little_u32, approve_system,
  approve_token, set_authority, approve_program, approve_instruction, approve_each,
}
use flynn_extensions.Solana.Policy.Uses
use flynn_extensions.Solana.Policy.Uses.{
  Use, creates_account, mints, revokes_mint, revokes_freeze, writes_account, Grants, UsedAs,
  AllUsedAs, uses, MayBeSigned,
}

-- The four programs are different.
programs_differ :
    (equal token_program system_program ≡ false)
    × (equal ata_program system_program ≡ false)
    × (equal ata_program token_program ≡ false)
    × (equal metadata_program system_program ≡ false)
    × (equal metadata_program token_program ≡ false)
unfolding token_program system_program ata_program metadata_program must_addr base58_decode
    index_from multiply flush equal
programs_differ = (refl, refl, refl, refl, refl)

-- What a use adds to the counts.
tally : Use → Counts → Counts
tally creates_account c = c
tally mints c = count_kind mint_to c
tally revokes_mint c = count_kind revoke_mint c
tally revokes_freeze c = count_kind revoke_freeze c
tally writes_account c = c

approve_system-ok :
    (d : Bytes) → approve_system d ≡ ok tt → (rest : Bytes) × (d ≡ 0 ∷ 0 ∷ 0 ∷ 0 ∷ rest)
unfolding approve_system little_u32
approve_system-ok [] e = cc
approve_system-ok (a ∷ []) e = ground arith
approve_system-ok (a ∷ b ∷ []) e = ground arith
approve_system-ok (a ∷ b ∷ c ∷ []) e = ground arith
approve_system-ok (a ∷ b ∷ c ∷ d ∷ rest) e = (rest, ground arith)

approve_token-ok :
    (prog d : Bytes) (k : TokenKind) (c : Counts)
    → prog ≡ token_program
    → approve_token d ≡ ok k
    → (u : Use) × Grants prog d u × (count_kind k c ≡ tally u c)
unfolding approve_token set_authority tally
approve_token-ok prog (x ∷ rest) mint_to c p e = (mints, Uses.mint_to rest p (ground arith), refl)
approve_token-ok prog (x ∷ kind ∷ key ∷ rest) revoke_mint c p e =
    (revokes_mint, Uses.revoke_mint rest p (ground arith), refl)
approve_token-ok prog (x ∷ kind ∷ key ∷ rest) revoke_freeze c p e =
    (revokes_freeze, Uses.revoke_freeze rest p (ground arith), refl)
approve_token-ok prog d k c p e = absurd (ground arith)

approve_program-ok :
    (i : ℕ) (prog d : Bytes) (c : Counts) {c' : Counts}
    → approve_program i prog d c ≡ ok c'
    → (u : Use) × Grants prog d u × (c' ≡ tally u c)
unfolding approve_program tally
approve_program-ok i prog d c e = elim (Bool-cases (equal prog system_program)) [
  | inl sys ↦
      let (t, got, last) = wrap->>=-Gives (instruction i) (approve_system d) _ (rw sys at e) in
      let (rest, starts) = approve_system-ok d got in
      (creates_account, Uses.create_account rest ((equal_iff _ _).0 sys) starts, cc)
  | inr not_sys ↦ elim (Bool-cases (equal prog token_program)) [
    | inl tok ↦
        let (k, got, last) =
          wrap->>=-Gives (instruction i) (approve_token d) _ (rw (not_sys, tok) at e) in
        let (u, grants, same) = approve_token-ok prog d k c ((equal_iff _ _).0 tok) got in
        (u, grants, cc)
    | inr not_tok ↦ elim (Bool-cases (equal prog ata_program)) [
      | inl ata ↦ (
        writes_account,
        Uses.token_account ((equal_iff _ _).0 ata),
        let left = rw (not_sys, not_tok, ata) at e in cc,
      )
      | inr not_ata ↦ elim (Bool-cases (equal prog metadata_program)) [
        | inl meta ↦ (
          writes_account,
          Uses.metadata ((equal_iff _ _).0 meta),
          let left = rw (not_sys, not_tok, not_ata, meta) at e in cc,
        )
        | inr not_meta ↦ let refused = rw (not_sys, not_tok, not_ata, not_meta) at e in cc
      ]
    ]
  ]
]

approve_program-Grants :
    (i : ℕ) (prog d : Bytes) (c : Counts) (u : Use)
    → Grants prog d u
    → approve_program i prog d c ≡ ok (tally u c)
unfolding approve_program tally approve_system approve_token little_u32 set_authority
approve_program-Grants i prog d c u (Uses.create_account rest p e) =
    rw (p, e, equal_self) (ground arith)
approve_program-Grants i prog d c u (Uses.mint_to rest p e) =
    rw (p, e, equal_self token_program, programs_differ.0) (ground arith)
approve_program-Grants i prog d c u (Uses.revoke_mint rest p e) =
    rw (p, e, equal_self token_program, programs_differ.0) (ground arith)
approve_program-Grants i prog d c u (Uses.revoke_freeze rest p e) =
    rw (p, e, equal_self token_program, programs_differ.0) (ground arith)
approve_program-Grants i prog d c u (Uses.token_account p) =
    rw (p, equal_self ata_program, programs_differ.1, programs_differ.2) refl
approve_program-Grants i prog d c u (Uses.metadata p) =
    rw (p, equal_self metadata_program, programs_differ.3, programs_differ.4) (ground arith)

program_of-eq-ok :
    (m : Message) (ix : Instruction) {prog : Bytes}
    → (program_of m ix ≡ ok prog) ↔ (get_elem? m.accounts ix.program_index ≡ some prog)
unfolding program_of
program_of-eq-ok m ix = elim (Option-cases (get_elem? m.accounts ix.program_index)) [
  | inl missing ↦ rw missing (λ h. cc, λ h. cc)
  | inr (a, found) ↦ rw found (λ h. cc, λ h. cc)
]

approve_instruction_iff :
    (m : Message) (i : ℕ) (ix : Instruction) (c c' : Counts)
    → (approve_instruction m i ix c ≡ ok c') ↔ ((u : Use) × UsedAs m ix u × (c' ≡ tally u c))
unfolding approve_instruction
approve_instruction_iff m i ix c c' = (
  λ e.
      let (prog, named, rest) = wrap->>=-Gives _ (program_of m ix) _ e in
      let (u, grants, same) = approve_program-ok i prog ix.ix_data c rest in
      (u, record { prog = prog; named = (program_of-eq-ok m ix).0 named; grants = grants }, same),
  λ (u, used, same).
      rw ((program_of-eq-ok m ix).1 used.named, same)
        (approve_program-Grants i used.prog ix.ix_data c u used.grants),
)

pub tally_all : List Use → Counts → Counts
tally_all [] c = c
tally_all (u ∷ us) c = tally_all us (tally u c)

each_nil :
    (m : Message) (us : List Use) (c c' : Counts)
    → AllUsedAs m [] us
    → c' ≡ tally_all us c
    → ◌≡◌ {A = Result PolicyError Counts} (ok c) (ok c')
unfolding tally_all
each_nil m [] c c' used same = cc
each_nil m (u ∷ us) c c' used same = elim used [ ]

each_cons :
    (m : Message) (i : ℕ) (ix : Instruction) (ixs : List Instruction) (us : List Use)
    (c c' : Counts)
    → ((d : Counts) (vs : List Use)
        → AllUsedAs m ixs vs
        → c' ≡ tally_all vs d
        → approve_each m (i + 1) ixs d ≡ ok c')
    → AllUsedAs m (ix ∷ ixs) us
    → c' ≡ tally_all us c
    → approve_each m i (ix ∷ ixs) c ≡ ok c'
unfolding approve_each tally_all
each_cons m i ix ixs [] c c' later used same = elim used [ ]
each_cons m i ix ixs (u ∷ us) c c' later used same =
    rw ((approve_instruction_iff m i ix c (tally u c)).1 (u, used.0, refl))
      (later (tally u c) us used.1 same)

pub approve_each_iff :
    (m : Message) (i : ℕ) (ixs : List Instruction) (c c' : Counts)
    → (approve_each m i ixs c ≡ ok c')
      ↔ ((us : List Use) × AllUsedAs m ixs us × (c' ≡ tally_all us c))
unfolding approve_each tally_all
approve_each_iff m i [] c c' = (λ e. ([], tt, cc), λ (us, used, same). each_nil m us c c' used same)
approve_each_iff m i (ix ∷ ixs) c c' = (
  λ e.
      let (c1, first, rest) = >>=-Gives (approve_instruction m i ix c) _ e in
      let (u, used, same) = (approve_instruction_iff m i ix c c1).0 first in
      let (us, all, same') = (approve_each_iff m (i + 1) ixs c1 c').0 rest in
      (u ∷ us, (used, all), same' ∙ ap (tally_all us) same),
  λ (us, used, same).
      each_cons m i ix ixs us c c'
        (λ d vs all e. (approve_each_iff m (i + 1) ixs d c').1 (vs, all, e)) used same,
)

pub tally_all-counts :
    (us : List Use) (c : Counts)
    → ((tally_all us c).mints ≡ c.mints + uses mints us)
      × ((tally_all us c).revoked_mint ≡ c.revoked_mint + uses revokes_mint us)
      × ((tally_all us c).revoked_freeze ≡ c.revoked_freeze + uses revokes_freeze us)
unfolding tally_all uses tally
tally_all-counts [] c = omega arith
tally_all-counts (creates_account ∷ us) c = omega (arith, tally_all-counts us c)
tally_all-counts (mints ∷ us) c = omega (arith, tally_all-counts us (tally mints c))
tally_all-counts (revokes_mint ∷ us) c = omega (arith, tally_all-counts us (tally revokes_mint c))
tally_all-counts (revokes_freeze ∷ us) c =
    omega (arith, tally_all-counts us (tally revokes_freeze c))
tally_all-counts (writes_account ∷ us) c = omega (arith, tally_all-counts us c)
