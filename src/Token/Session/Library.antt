-- ===== src/Token/Session/Library.antt =====
-- A library that documents itself: instructions that hold what they are, and messages in wire form.
use flynn_extensions.Prelude.{
  ℕ, suc, ◌≤◌, ◌≡◌, refl, sym, ap, subst, ◌∙◌, Bool-cases, inl, inr, true, ◌==◌, ◌&&◌, Option, none,
  some, if◌then◌else◌, List, [], ◌∷◌, ◌++◌, append_assoc, length, length-append, map, All, Bytes,
  get_elem?, arith,
}
use flynn_extensions.Solana.Message.{Message}
use flynn_extensions.Solana.Message.Wire.{
  WireInstruction, WireMessage, IsAddress, FitsInstruction, encode, view, view_instruction,
}
use flynn_extensions.Solana.Policy.{token_program, ata_program, metadata_program}
use flynn_extensions.Solana.Policy.Uses.{token_program-length, ata_program-length}
use flynn_extensions.Token.Atomic.{AccountMeta, Builders}
use flynn_extensions.Token.Engine.{Built}
use flynn_extensions.Token.Mint.Granted.{
  Methods, authority_byte, IsSmall, Carries, Compiled, IsLibrary,
}

pub record SampleIx : Type 0 where
  pub program : Bytes
  pub metas : List AccountMeta
  pub bytes : Bytes

abbrev pub methods : Methods SampleIx
methods = record {
  program_id = λ ix. ix.program;
  accounts_of = λ ix. ix.metas;
  data_of = λ ix. ix.bytes;
}

abbrev bare : Bytes → Bytes → SampleIx
bare program bytes = record { program = program; metas = []; bytes = bytes }

abbrev pub builders : Builders SampleIx
builders = record {
  metadata_program = metadata_program;
  system_program = 2 ∷ [];
  sysvar_instructions = 3 ∷ [];
  token_program = token_program;
  find_program_address = λ seeds program. some (11 ∷ []);
  find_associated_token_address = λ wallet mint. some (12 ∷ []);
  new_instruction = λ program accounts d. record { program = program; metas = accounts; bytes = d };
  create_idempotent = λ payer wallet mint. some (bare ata_program (1 ∷ []));
  mint_to = λ amount mint dest authority. some (bare token_program (7 ∷ []));
  set_authority =
      λ kind mint authority. some (bare token_program (6 ∷ authority_byte kind ∷ 0 ∷ []));
}

-- Each instruction has an account of its own for its program, from this index on.
abbrev calls : ℕ → List SampleIx → List WireInstruction
calls n [] = []
calls n (ix ∷ ixs) =
    record { program_index = n; account_indexes = []; ix_data = ix.bytes } ∷ calls (suc n) ixs

abbrev pub compiled : List SampleIx → Bytes → Bytes → WireMessage
compiled ixs hash payer = record {
  num_required_signatures = 1;
  num_readonly_signed = 0;
  num_readonly_unsigned = 0;
  accounts = payer ∷ map (λ ix. ix.program) ixs;
  recent_blockhash = hash;
  instructions = calls 1 ixs;
}

abbrev pub new_transaction : List SampleIx → Bytes → Bytes → Option Built
new_transaction ixs hash payer =
    if (length hash == 32) && (length payer == 32)
    then some (record {
      fee_payer = payer;
      more_signers = [];
      marshalled = some (encode (compiled ixs hash payer));
    })
    else none

get_elem?-append_self :
    (front rest : List Bytes) (x : Bytes) → get_elem? (front ++ x ∷ rest) (length front) ≡ some x
get_elem?-append_self [] rest x = refl
get_elem?-append_self (y ∷ front) rest x = get_elem?-append_self front rest x

calls-Carries :
    (m : Message) (front : List Bytes) (n : ℕ) (ixs : List SampleIx)
    → n ≡ length front
    → m.accounts ≡ front ++ map (λ ix. ix.program) ixs
    → Carries methods m ixs (map view_instruction (calls n ixs))
calls-Carries m front n [] e h = tt
calls-Carries m front n (ix ∷ ixs) e h = (
  rw (e, h) (get_elem?-append_self front (map (λ ix. ix.program) ixs) ix.program),
  refl,
  calls-Carries m (front ++ ix.program ∷ []) (suc n) ixs
      (omega (arith, e, length-append front (ix.program ∷ [])))
      (h ∙ sym (append_assoc front (ix.program ∷ []) (map (λ ix. ix.program) ixs))),
)

length-calls : (n : ℕ) (ixs : List SampleIx) → length (calls n ixs) ≡ length ixs
length-calls n [] = refl
length-calls n (ix ∷ ixs) = ap suc (length-calls (suc n) ixs)

length-programs : (ixs : List SampleIx) → length (map (λ ix. ix.program) ixs) ≡ length ixs
length-programs [] = refl
length-programs (ix ∷ ixs) = ap suc (length-programs ixs)

programs-IsAddress :
    (ixs : List SampleIx) → All (IsSmall methods) ixs → All IsAddress (map (λ ix. ix.program) ixs)
programs-IsAddress [] h = tt
programs-IsAddress (ix ∷ ixs) (h, hs) = (h.addressed, programs-IsAddress ixs hs)

calls-Fits :
    (n : ℕ) (ixs : List SampleIx) → All (IsSmall methods) ixs → All FitsInstruction (calls n ixs)
calls-Fits n [] h = tt
calls-Fits n (ix ∷ ixs) (h, hs) =
    (record { index_fits = omega arith; data_fits = h.short_data }, calls-Fits (suc n) ixs hs)

pub compiled-Compiled :
    (ixs : List SampleIx) (hash payer : Bytes)
    → length ixs ≤ 8
    → All (IsSmall methods) ixs
    → (length hash == 32) && (length payer == 32) ≡ true
    → Compiled methods ixs payer (encode (compiled ixs hash payer))
compiled-Compiled ixs hash payer few small sized = record {
  wire_message = compiled ixs hash payer;
  fits = record {
    legacy = omega arith;
    accounts_fit = omega (arith, length-programs ixs, few);
    addresses = (ground (arith, sized), programs-IsAddress ixs small);
    hash_fits = ground (arith, sized);
    instructions_fit = omega (arith, length-calls 1 ixs, few);
    each_fits = calls-Fits 1 ixs small;
  };
  written = refl;
  others = map (λ ix. ix.program) ixs;
  paid = refl;
  carried = calls-Carries (view (compiled ixs hash payer)) (payer ∷ []) 1 ixs refl refl;
}

bare-IsSmall :
    (program bytes : Bytes)
    → length program ≡ 32
    → length bytes ≤ 3
    → IsSmall methods (bare program bytes)
bare-IsSmall program bytes h k = record {
  addressed = h;
  few_accounts = omega arith;
  short_data = omega (arith, k);
}

some-same : {A : Type 0} (x y : A) → some x ≡ some y → x ≡ y
some-same x y h = cc

new_transaction-Compiled :
    (ixs : List SampleIx) (hash payer msg : Bytes) (tx : Built)
    → length ixs ≤ 8
    → All (IsSmall methods) ixs
    → new_transaction ixs hash payer ≡ some tx
    → tx.marshalled ≡ some msg
    → Compiled methods ixs payer msg
new_transaction-Compiled ixs hash payer msg tx few small made marshalled =
    elim (Bool-cases ((length hash == 32) && (length payer == 32))) [
      | inl sized ↦
          let same : _ ≡ tx = some-same _ tx (rw sized at made) in
          let written : encode (compiled ixs hash payer) ≡ msg =
            some-same _ msg (ap (λ t. t.marshalled) same ∙ marshalled) in
          subst (Compiled methods ixs payer) written
            (compiled-Compiled ixs hash payer few small sized)
      | inr misfit ↦ (let never : none ≡ some tx = rw misfit at made in cc)
    ]

pub library : IsLibrary methods builders new_transaction
library = record {
  metadata_address = refl;
  instructs = λ program accounts d. (refl, refl, refl);
  associates = λ payer wallet mint ix e.
      subst (λ (ix : SampleIx). (ix.program ≡ ata_program) × IsSmall methods ix) (some-same _ ix e)
        (refl, bare-IsSmall ata_program _ ata_program-length (omega arith));
  mints_to = λ amount mint dest authority ix e.
      subst
        (λ (ix : SampleIx).
          (rest : Bytes) × (ix.program ≡ token_program)
          × (ix.bytes ≡ 7 ∷ rest)
          × IsSmall methods ix)
        (some-same _ ix e)
        ([], refl, refl, bare-IsSmall token_program _ token_program-length (omega arith));
  revokes = λ kind account authority ix e.
      subst
        (λ (ix : SampleIx).
          (rest : Bytes) × (ix.program ≡ token_program)
          × (ix.bytes ≡ 6 ∷ authority_byte kind ∷ 0 ∷ rest)
          × IsSmall methods ix)
        (some-same _ ix e)
        ([], refl, refl, bare-IsSmall token_program _ token_program-length (omega arith));
  compiles = new_transaction-Compiled;
}
