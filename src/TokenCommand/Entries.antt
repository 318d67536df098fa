-- ===== src/TokenCommand/Entries.antt =====
-- cmd/token/main.go, the map of `sessionRegistry`: what it finds after an entry is removed or set.
use flynn_extensions.Prelude.{
  ◌≡◌, ◌≢◌, ◌⊎◌, inl, inr, refl, sym, ◌∙◌, false, Bool-cases, none, some, List, [], ◌∷◌, Bytes,
  equal, equal_iff, equal-cases,
}
use flynn_extensions.TokenCommand.{find, delete}

pub not_equal : (a b : Bytes) → a ≢ b → equal a b ≡ false
not_equal a b differ = elim (equal-cases a b) [
  | inl (found, same) ↦ absurd (differ same)
  | inr (other, apart) ↦ other
]

module _ {S : Type 0} where
  pub find-delete_self : (id : Bytes) (xs : List (Bytes × S)) → find id (delete id xs) ≡ none
  unfolding find delete
  find-delete_self id [] = refl
  find-delete_self id ((k, s) ∷ xs) = elim (Bool-cases (equal k id)) [
    | inl same ↦ rw same (find-delete_self id xs)
    | inr other ↦ rw (other, find, other) (find-delete_self id xs)
  ]

  pub find-delete :
      (k id : Bytes) (xs : List (Bytes × S)) (s : S)
      → find k (delete id xs) ≡ some s
      → (find k xs ≡ some s) × (equal id k ≡ false)
  unfolding find delete
  find-delete k id [] s h = cc
  find-delete k id ((j, t) ∷ xs) s h = elim (equal-cases j id) [
    | inl (gone, same) ↦
        let (there, apart) = find-delete k id xs s (rw gone at h) in
        let differ : equal j k ≡ false = rw same apart in (rw differ there, apart)
    | inr (stays, apart) ↦ elim (equal-cases j k) [
      | inl (found, same) ↦
          let now : some t ≡ some s = rw (stays, find, found) at h in
          (rw found now, not_equal id k (λ e. apart (same ∙ sym e)))
      | inr (other, differ) ↦
          let (there, far) = find-delete k id xs s (rw (stays, find, other) at h) in
          (rw other there, far)
    ]
  ]

  pub find-assign :
      (k id : Bytes) (s t : S) (xs : List (Bytes × S))
      → find k ((id, s) ∷ delete id xs) ≡ some t
      → ((id ≡ k) × (s ≡ t)) ⊎ (find k xs ≡ some t)
  unfolding find
  find-assign k id s t xs h = elim (equal-cases id k) [
    | inl (found, same) ↦ inl (same, (let now : some s ≡ some t = rw found at h in cc))
    | inr (other, differ) ↦ inr (find-delete k id xs t (rw other at h)).0
  ]

pub other_id : (a b : Bytes) → equal a b ≡ false → a ≢ b
other_id a b apart same = (let found = (equal_iff a b).1 same in cc)
