-- ===== src/TokenCommand/Supply.antt =====
-- cmd/token/main.go, `parseSupply`: a supply as a number or as a text.
use flynn_extensions.Prelude.{
  ℕ, suc, ◌+◌, ◌-◌, ◌≡◌, refl, sym, ap, ◌∙◌, true, false, leb, ◌==◌, some, [], ◌∷◌, ◌++◌, Bytes,
  codes, equal, length, length-append, get_elem?, take-append_self, arith,
}
use flynn_extensions.TokenCommand.{Texts, bad_supply_text}
use flynn_extensions.TokenCommand.Tools.{or_bad, is_quoted, unquote, parse_supply}

abbrev pub quote : Bytes → Bytes
quote s = 34 ∷ (s ++ (34 ∷ []))

get_elem?-append : (s : Bytes) (c : ℕ) → get_elem? (s ++ (c ∷ [])) (length s) ≡ some c
get_elem?-append [] c = refl
get_elem?-append (b ∷ s) c = get_elem?-append s c

length-quote : (s : Bytes) → length (quote s) ≡ length s + 2
length-quote s = omega (arith, length-append s (34 ∷ []))

get_elem?-quote : (s : Bytes) → get_elem? (quote s) (length (quote s) - 1) ≡ some 34
get_elem?-quote s =
    let last : length (quote s) - 1 ≡ suc (length s) = omega (arith, length-quote s) in
    ap (get_elem? (quote s)) last ∙ get_elem?-append s 34

unquote-quote : (s : Bytes) → unquote (quote s) ≡ s
unquote-quote s =
    let long : leb 2 (length (quote s)) ≡ true = ground (arith, length-quote s) in
    let inner : length (quote s) - 2 ≡ length s = omega (arith, length-quote s) in
    rw (unquote, long, get_elem?-quote s, inner) (take-append_self s (34 ∷ []))

parse_supply-plain :
    (texts : Texts) (s : Bytes)
    → (length s == 0) ≡ false
    → equal s (codes "null") ≡ false
    → parse_supply texts s ≡ or_bad bad_supply_text (texts.parse_uint (unquote s))
unfolding parse_supply
parse_supply-plain texts s full given = rw (full, given) refl

quote-null : (s : Bytes) → equal (quote s) (codes "null") ≡ false
unfolding equal
quote-null s = refl

-- A supply in double quotes is read as the same text without them is, if that text is not empty, not
-- null and not itself in quotes; and it is then the number that ParseUint reads, or an error.
parse_supply-quote :
    (texts : Texts) (s : Bytes)
    → (length s == 0) ≡ false
    → equal s (codes "null") ≡ false
    → is_quoted s ≡ false
    → (parse_supply texts (quote s) ≡ parse_supply texts s)
      × (parse_supply texts s ≡ or_bad bad_supply_text (texts.parse_uint s))
parse_supply-quote texts s full given plain =
    let same : parse_supply texts s ≡ or_bad bad_supply_text (texts.parse_uint s) =
      parse_supply-plain texts s full given ∙ rw (unquote, plain) refl in
    let some_ : (length (quote s) == 0) ≡ false = ground (arith, length-quote s) in
    (
      parse_supply-plain texts (quote s) some_ (quote-null s)
          ∙ ap (λ t. or_bad bad_supply_text (texts.parse_uint t)) (unquote-quote s)
          ∙ sym same,
      same,
    )
