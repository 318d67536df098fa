-- ===== src/Token/Impersonation.antt =====
-- token/safety/impersonation.go: the protected brands. A text is the list of
-- its runes; Go's tables of format characters and of lower case letters are the fields of `Unicode`.
pub mod Disguise
use flynn_extensions.Prelude.{
  ℕ, Bool, true, false, leb, ◌==◌, ◌&&◌, ◌||◌, if◌then◌else◌, Option, none, some, List, [], ◌∷◌,
  ◌++◌, map, Bytes, codes, equal,
}

pub record Unicode : Type 0 where
  pub is_format : ℕ → Bool
  pub to_lower : ℕ → ℕ

abbrev brand : Bytes → Bytes → Bytes × Bytes
brand key name = (key, name)

unfoldable pub protected_brands : List (Bytes × Bytes)
protected_brands =
    brand (codes "usdc") (codes "USDC")
    ∷ brand (codes "usd coin") (codes "USDC")
    ∷ brand (codes "usdt") (codes "USDT")
    ∷ brand (codes "tether") (codes "USDT")
    ∷ brand (codes "sol") (codes "SOL")
    ∷ brand (codes "solana") (codes "Solana")
    ∷ brand (codes "wsol") (codes "wSOL")
    ∷ brand (codes "btc") (codes "BTC")
    ∷ brand (codes "bitcoin") (codes "Bitcoin")
    ∷ brand (codes "wbtc") (codes "WBTC")
    ∷ brand (codes "eth") (codes "ETH")
    ∷ brand (codes "ethereum") (codes "Ethereum")
    ∷ brand (codes "weth") (codes "WETH")
    ∷ brand (codes "bnb") (codes "BNB")
    ∷ brand (codes "dai") (codes "DAI")
    ∷ brand (codes "usds") (codes "USDS")
    ∷ brand (codes "bonk") (codes "BONK")
    ∷ brand (codes "jup") (codes "JUP")
    ∷ brand (codes "jupiter") (codes "Jupiter")
    ∷ brand (codes "pyth") (codes "PYTH")
    ∷ brand (codes "jito") (codes "JITO")
    ∷ brand (codes "jitosol") (codes "JitoSOL")
    ∷ []

abbrev pairs : Bytes → Bytes → List (ℕ × ℕ)
pairs (x ∷ xs) (y ∷ ys) = (x, y) ∷ pairs xs ys
pairs _ _ = []

-- The look-alikes, Cyrillic and Greek, each with the letter it imitates.
pub confusables : List (ℕ × ℕ)
confusables =
    pairs (codes "аеорсухкнвтм") (codes "aeopcyxkhbtm")
    ++ pairs (codes "АЕОРСУХКНВТМ") (codes "aeopcyxkhbtm")
    ++ pairs (codes "οΟαρτυικν") (codes "ooaptyikv")

abbrev find : ℕ → List (ℕ × ℕ) → ℕ
find r [] = r
find r ((k, v) ∷ m) = if k == r then v else find r m

-- What a look-alike imitates; every other rune stands for itself.
unfoldable pub imitated : ℕ → ℕ
unfolding confusables
imitated r = find r confusables

-- `r >= 'a' && r <= 'z' || r >= '0' && r <= '9'`
unfoldable pub is_kept : ℕ → Bool
is_kept r = (leb 97 r && leb r 122) || (leb 48 r && leb r 57)

abbrev pub first_of : Option Bytes → Option Bytes → Bytes
first_of (some b) _ = b
first_of none (some b) = b
first_of none none = []

module _ (u : Unicode) where
  -- The rune that the loop of `normalize` writes for `r`, if any.
  unfoldable pub fold_rune : ℕ → Option ℕ
  fold_rune r =
      if u.is_format r
      then none
      else let c = u.to_lower (imitated r) in if is_kept c then some c else none

  abbrev pub write_rune : Option ℕ → Bytes → Bytes
  write_rune none rest = rest
  write_rune (some c) rest = c ∷ rest

  unfoldable pub normalize : Bytes → Bytes
  normalize [] = []
  normalize (r ∷ rs) = write_rune (fold_rune r) (normalize rs)

  -- `normalizedBrands`: the keys in the form that the input is compared in.
  normalized : List (Bytes × Bytes) → List (Bytes × Bytes)
  normalized [] = []
  normalized ((k, v) ∷ m) =
      if equal (normalize k) [] then normalized m else (normalize k, v) ∷ normalized m

  unfoldable pub normalized_brands : List (Bytes × Bytes)
  unfolding normalized protected_brands
  normalized_brands = normalized protected_brands

  pub lookup_brand : Bytes → List (Bytes × Bytes) → Option Bytes
  lookup_brand n [] = none
  lookup_brand n ((k, v) ∷ m) = if equal k n then some v else lookup_brand n m

  -- The body of the loop over the name and the symbol.
  unfoldable pub brand_of : Bytes → Option Bytes
  unfolding lookup_brand
  brand_of s = let n = normalize s in if equal n [] then none else lookup_brand n normalized_brands

  -- The loop returns at the first brand that it finds.
  unfoldable pub impersonation_target : Bytes → Bytes → Bytes
  impersonation_target name symbol = first_of (brand_of name) (brand_of symbol)
