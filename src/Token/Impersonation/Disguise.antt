-- ===== src/Token/Impersonation/Disguise.antt =====
-- token/safety/impersonation.go: texts that disguise a protected brand.
use flynn_extensions.Prelude.{
  ℕ, ◌≡◌, ◌≢◌, ◌⊎◌, ◌==◌, ◌&&◌, refl, sym, ap, ap₂, ◌∙◌, Bool, true, false, not, Bool-cases, inl,
  inr, Option, none, some, List, [], ◌∷◌, arith, Bytes, equal, equal_iff, equal-cases,
}
use flynn_extensions.Prelude.Result.{ok}
use flynn_extensions.Token.Safety.{TokenPlan, trim_left, is_space, trim_space, guard}
use flynn_extensions.Token.Safety.Verdict.{guard_iff}
use flynn_extensions.Token.Impersonation.{
  Unicode, protected_brands, imitated, is_kept, fold_rune, write_rune, normalize, normalized,
  normalized_brands, lookup_brand, brand_of, first_of, impersonation_target,
}

-- `Disguises s' s`: `s'` is `s` with format characters and separators put in, and with letters that
-- look alike or differ in their case.
pub data Disguises (u : Unicode) : Bytes → Bytes → Type 0 where
  nothing : Disguises u [] []
  hidden : (r : ℕ) {s' s : Bytes} → u.is_format r ≡ true → Disguises u s' s → Disguises u (r ∷ s') s
  separator :
      (r : ℕ) {s' s : Bytes}
      → is_kept (u.to_lower (imitated r)) ≡ false
      → Disguises u s' s
      → Disguises u (r ∷ s') s
  look_alike :
      (r a : ℕ) {s' s : Bytes}
      → u.is_format r ≡ u.is_format a
      → u.to_lower (imitated r) ≡ u.to_lower (imitated a)
      → Disguises u s' s
      → Disguises u (r ∷ s') (a ∷ s)

-- The text is a key of the table.
abbrev pub Listed : Bytes → List (Bytes × Bytes) → Type 0
Listed k [] = ⊥
Listed k ((j, v) ∷ m) = (j ≡ k) ⊎ Listed k m

-- Go's tables on what `normalize` keeps.
abbrev pub KeepsKept : Unicode → Type 0
KeepsKept u = (r : ℕ) → is_kept r ≡ true → (u.is_format r ≡ false) × (u.to_lower r ≡ r)

-- Each key starts with a letter or a digit that imitates nothing.
all_kept : List (Bytes × Bytes) → Bool
all_kept [] = true
all_kept (([], v) ∷ m) = false
all_kept ((r ∷ rs, v) ∷ m) = is_kept r && (imitated r == r) && all_kept m

protected_brands-all_kept : all_kept protected_brands ≡ true
unfolding all_kept protected_brands imitated is_kept
protected_brands-all_kept = refl

-- No brand is blank.
all_visible : List (Bytes × Bytes) → Bool
all_visible [] = true
all_visible ((k, v) ∷ m) = not (equal (trim_space v) []) && all_visible m

protected_brands-all_visible : all_visible protected_brands ≡ true
unfolding all_visible protected_brands trim_space equal trim_left is_space
protected_brands-all_visible = refl

abbrev IsVisible : Option Bytes → Type 0
IsVisible o = (b : Bytes) → o ≡ some b → trim_space b ≢ []

abbrev IsFound : Option Bytes → Type 0
IsFound o = (b : Bytes) × (o ≡ some b)

first_of-visible :
    (o o' : Option Bytes)
    → IsVisible o
    → IsVisible o'
    → IsFound o ⊎ IsFound o'
    → trim_space (first_of o o') ≢ []
first_of-visible (some b) o' v v' f = v b refl
first_of-visible none (some b) v v' f = v' b refl
first_of-visible none none v v' f = elim f [ inl (b, e) ↦ cc | inr (b, e) ↦ cc ]

module _ (u : Unicode) where
  normalize-disguise : (s' s : Bytes) → Disguises u s' s → normalize u s' ≡ normalize u s
  unfolding normalize fold_rune
  normalize-disguise _ _ nothing = refl
  normalize-disguise _ s (hidden r {s' = s'} h d) = rw h (normalize-disguise s' s d)
  normalize-disguise _ s (separator r {s' = s'} h d) = elim (Bool-cases (u.is_format r)) [
    | inl format ↦ rw format (normalize-disguise s' s d)
    | inr shown ↦ rw (shown, h) (normalize-disguise s' s d)
  ]
  normalize-disguise _ _ (look_alike r a {s' = s'} {s = s} f h d) =
      rw (f, h) (ap (write_rune u (fold_rune u a)) (normalize-disguise s' s d))

  brand_of-disguise : (s' s : Bytes) → Disguises u s' s → brand_of u s' ≡ brand_of u s
  unfolding brand_of
  brand_of-disguise s' s d = rw (normalize-disguise s' s d) refl

  -- The answer is the same for a name and a symbol as for their disguises.
  pub impersonation_target-disguise :
      (name' name symbol' symbol : Bytes)
      → Disguises u name' name
      → Disguises u symbol' symbol
      → impersonation_target u name' symbol' ≡ impersonation_target u name symbol
  unfolding impersonation_target
  impersonation_target-disguise name' name symbol' symbol d e =
      ap₂ first_of (brand_of-disguise name' name d) (brand_of-disguise symbol' symbol e)

  lookup_brand-normalized :
      (m : List (Bytes × Bytes)) (k : Bytes)
      → Listed k m
      → normalize u k ≢ []
      → (b : Bytes) × (lookup_brand u (normalize u k) (normalized u m) ≡ some b)
  unfolding lookup_brand normalized
  lookup_brand-normalized [] k listed some_text = elim listed [ ]
  lookup_brand-normalized ((j, v) ∷ m) k listed some_text = elim (equal-cases (normalize u j) []) [
    | inl (none_left, same) ↦ elim listed [
      | inl here ↦ elim (some_text (ap (normalize u) (sym here) ∙ same)) [ ]
      | inr there ↦ rw none_left (lookup_brand-normalized m k there some_text)
    ]
    | inr (left, differ) ↦ elim (equal-cases (normalize u j) (normalize u k)) [
      | inl (found, same) ↦ rw (left, found) (v, refl)
      | inr (other, apart) ↦ elim listed [
        | inl here ↦ elim (apart (ap (normalize u) here)) [ ]
        | inr there ↦ rw (left, other) (lookup_brand-normalized m k there some_text)
      ]
    ]
  ]

  -- A text that starts with a letter that is kept is compared.
  normalize-kept :
      (r : ℕ) (rs : Bytes)
      → KeepsKept u
      → is_kept r ≡ true
      → imitated r ≡ r
      → normalize u (r ∷ rs) ≢ []
  unfolding normalize fold_rune
  normalize-kept r rs law kept itself e =
      let (shown, same) = law r kept in let now = rw (shown, itself, same, kept) at e in cc

  Listed-all_kept :
      (m : List (Bytes × Bytes)) (k : Bytes)
      → KeepsKept u
      → all_kept m ≡ true
      → Listed k m
      → normalize u k ≢ []
  unfolding all_kept
  Listed-all_kept [] k law kept listed = elim listed [ ]
  Listed-all_kept (([], v) ∷ m) k law kept listed = cc
  Listed-all_kept ((r ∷ rs, v) ∷ m) k law kept listed = elim listed [
    | inl here ↦ rw⁻¹ here (normalize-kept r rs law (ground arith) (ground arith))
    | inr there ↦ Listed-all_kept m k law (ground arith) there
  ]

  -- No disguise of a protected brand passes: whatever stands before it, a brand is found.
  pub brand_of-protected :
      (s k : Bytes)
      → KeepsKept u
      → Listed k protected_brands
      → Disguises u s k
      → (b : Bytes) × (brand_of u s ≡ some b)
  unfolding brand_of normalized_brands
  brand_of-protected s k law listed d =
      let some_text = Listed-all_kept protected_brands k law protected_brands-all_kept listed in
      rw (normalize-disguise s k d) (elim (equal-cases (normalize u k) []) [
        | inl (same, none_left) ↦ elim (some_text none_left) [ ]
        | inr (differ, left) ↦
            rw differ (lookup_brand-normalized protected_brands k listed some_text)
      ])

  lookup_brand-visible :
      (m : List (Bytes × Bytes)) (n b : Bytes)
      → all_visible m ≡ true
      → lookup_brand u n (normalized u m) ≡ some b
      → trim_space b ≢ []
  unfolding lookup_brand normalized all_visible
  lookup_brand-visible [] n b visible found = cc
  lookup_brand-visible ((k, v) ∷ m) n b visible found =
      elim (Bool-cases (equal (normalize u k) [])) [
        | inl none_left ↦ lookup_brand-visible m n b (ground arith) (rw none_left at found)
        | inr left ↦ elim (Bool-cases (equal (normalize u k) n)) [
          | inl here ↦
              let same : v ≡ b = (let now = rw (left, here) at found in cc) in
              λ blank.
                (let now = rw (sym same) at blank in ground (arith, equal_iff (trim_space v) []))
          | inr there ↦ lookup_brand-visible m n b (ground arith) (rw (left, there) at found)
        ]
      ]

  brand_of-visible : (s b : Bytes) → brand_of u s ≡ some b → trim_space b ≢ []
  unfolding brand_of
  brand_of-visible s b found = elim (Bool-cases (equal (normalize u s) [])) [
    | inl none_left ↦ (let now = rw none_left at found in cc)
    | inr left ↦
        lookup_brand-visible protected_brands (normalize u s) b protected_brands-all_visible
          (unfold normalized_brands in rw left at found)
  ]

  -- Where Go's tables keep lower case letters and digits as they are, `Guard` refuses every plan whose
  -- target is that of a name or symbol of which one disguises a protected brand.
  pub guard-disguise :
      (p : TokenPlan) (name symbol k : Bytes)
      → KeepsKept u
      → Listed k protected_brands
      → (Disguises u name k) ⊎ (Disguises u symbol k)
      → p.impersonates ≡ impersonation_target u name symbol
      → guard p ≢ ok tt
  guard-disguise p name symbol k law listed d target passed =
      let blank = rw target at ((guard_iff p).0 passed).no_brand in
      first_of-visible (brand_of u name) (brand_of u symbol) (brand_of-visible name)
        (brand_of-visible symbol)
        (elim d [
          | inl by_name ↦ inl (brand_of-protected name k law listed by_name)
          | inr by_symbol ↦ inr (brand_of-protected symbol k law listed by_symbol)
        ])
        (unfold impersonation_target in blank)
