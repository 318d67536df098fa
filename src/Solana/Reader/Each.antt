-- ===== src/Solana/Reader/Each.antt =====
-- The loop that reads a counted sequence, against the encodings of its items one after another.
use flynn_extensions.Prelude.{
  ℕ, zero, suc, ◌+◌, ◌≡◌, refl, sym, ap, ap₂, ◌∙◌, List, [], ◌∷◌, ◌++◌, map, append-nil,
  append_assoc, length, All, Bytes,
}
use flynn_extensions.Solana.Reader.{Read, read_each}
use flynn_extensions.Solana.Reader.Rules.{Parses, Parses-pure, Parses-bind, Parses-eq}
use flynn_extensions.Solana.Reader.Consumed.{
  Consumes-weaken, Consumes, Consumes-pure, Consumes-bind,
}

-- An item `w` on the wire is written as `enc w`, read as `view w`, and fits the format if `Fits w`.
module _ {W A : Type 0} (view : W → A) (enc : W → Bytes) (Fits : W → Type 0) where
  abbrev pub all_bytes : List W → Bytes
  all_bytes [] = []
  all_bytes (w ∷ ws) = enc w ++ all_bytes ws

  -- The value and the bytes are those of one item.
  abbrev pub IsItem : A → Bytes → Type 0
  IsItem v f = (w : W) × Fits w × (v ≡ view w) × (f ≡ enc w)

  -- … and of `n` items, after those of `acc`.
  abbrev pub AreItems : ℕ → List A → List A → Bytes → Type 0
  AreItems n acc v f =
      (ws : List W) × All Fits ws × (length ws ≡ n) × (v ≡ acc ++ map view ws) × (f ≡ all_bytes ws)

  module _ {E : Type 0} (item : ℕ → Read E A) where
    pub Parses-each :
        ((i : ℕ) (w : W) → Fits w → Parses (item i) (view w) (enc w))
        → (ws : List W) (i : ℕ) (acc : List A) → All Fits ws
        → Parses (read_each item (length ws) i acc) (acc ++ map view ws) (all_bytes ws)
    unfolding read_each
    Parses-each one [] i acc h = rw append-nil (Parses-pure acc)
    Parses-each one (w ∷ ws) i acc h = Parses-bind _ (one i w h.0) (
        Parses-eq (append_assoc acc (view w ∷ []) (map view ws))
          (Parses-each one ws (i + 1) (acc ++ view w ∷ []) h.1))

    pub Consumes-each :
        ((i : ℕ) → Consumes IsItem (item i))
        → (n i : ℕ) (acc : List A) → Consumes (AreItems n acc) (read_each item n i acc)
    unfolding read_each
    Consumes-each one zero i acc = Consumes-pure acc ([], tt, refl, sym (append-nil acc), refl)
    Consumes-each one (suc n) i acc = Consumes-bind (one i) λ v f (w, fits, e, g).
        Consumes-weaken
          (λ u b (ws, all, count, e', g'). (
            w ∷ ws,
            (fits, all),
            ap suc count,
            e' ∙ append_assoc acc (v ∷ []) (map view ws) ∙ ap (λ x. acc ++ x ∷ map view ws) e,
            ap₂ ◌++◌ g g',
          ))
          (Consumes-each one n (i + 1) (acc ++ v ∷ []))
