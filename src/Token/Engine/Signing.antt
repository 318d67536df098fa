-- ===== src/Token/Engine/Signing.antt =====
-- token/engine.go, the loop of `send` over the signatures: whose signature stands in each place.
use mathlib.Core.List.{Memᴰ}
use flynn_extensions.Prelude.{
  ◌≡◌, ◌≢◌, inl, inr, sym, subst, Option, none, some, List, [], ◌∷◌, ◌++◌, Bytes, All, Option-cases,
  equal-cases, append-nil,
}
use flynn_extensions.Prelude.Result.{Result, ok, err, either}
use flynn_extensions.Token.Ledger.{sign, done, ◌>>=◌, Event}
use flynn_extensions.Token.Ledger.Leads.{Leads, Leads->>=}
use flynn_extensions.Token.Engine.{
  Signer, payer_signer, key_signer, public_key, sign_with, PrepareError, no_signer, sign_failed,
  find_signer, sign_for, signed_or, sign_all, add_signature,
}

-- The first signer with the key that is wanted, if there is one.
find_signer-found :
    (signers : List Signer) (want : Bytes) (s : Signer)
    → find_signer signers want ≡ some s
    → Memᴰ s signers × (public_key s ≡ want)
unfolding find_signer
find_signer-found [] want s h = cc
find_signer-found (cand ∷ signers) want s h = elim (equal-cases (public_key cand) want) [
  | inl (test, same) ↦
      let now = rw test at h in
      let it : cand ≡ s = cc in (Memᴰ.head (sym it), subst (λ s. public_key s ≡ want) it same)
  | inr (test, differ) ↦
      let now = rw test at h in
      let (there, same) = find_signer-found signers want s now in (Memᴰ.tail there, same)
]

find_signer-missing :
    (signers : List Signer) (want : Bytes)
    → find_signer signers want ≡ none
    → All (λ s. public_key s ≢ want) signers
unfolding find_signer
find_signer-missing [] want h = tt
find_signer-missing (cand ∷ signers) want h = elim (equal-cases (public_key cand) want) [
  | inl (test, same) ↦ (let now = rw test at h in cc)
  | inr (test, differ) ↦ (let now = rw test at h in (differ, find_signer-missing signers want now))
]

module _ (signers : List Signer) (msg : Bytes) where
  -- What comes of one signature: only a signer with this key gives it, over this message, and only a
  -- payer is asked for it outside the process.
  pub data Answers : Bytes → List Event → Result PrepareError Bytes → Type 0 where
    missing :
        (key : Bytes) → All (λ s. public_key s ≢ key) signers → Answers key [] (err (no_signer key))
    payer_signs :
        (key sig : Bytes)
        → Memᴰ (payer_signer key) signers
        → Answers key ((sign msg, some sig) ∷ []) (ok sig)
    payer_fails :
        (key : Bytes)
        → Memᴰ (payer_signer key) signers
        → Answers key ((sign msg, none) ∷ []) (err sign_failed)
    key_signs :
        (key sig : Bytes) (f : Bytes → Option Bytes)
        → Memᴰ (key_signer key f) signers
        → f msg ≡ some sig
        → Answers key [] (ok sig)
    key_fails :
        (key : Bytes) (f : Bytes → Option Bytes)
        → Memᴰ (key_signer key f) signers
        → f msg ≡ none
        → Answers key [] (err sign_failed)

  -- The signatures for some keys, in their order, up to the first that fails.
  pub data Signing : List Bytes → List Event → Result PrepareError (List Bytes) → Type 0 where
    all_signed : Signing [] [] (ok [])
    stops :
        (key : Bytes) (keys : List Bytes) (es : List Event) (e : PrepareError)
        → Answers key es (err e)
        → Signing (key ∷ keys) es (err e)
    signs :
        (key : Bytes) (keys : List Bytes) (es more : List Event) (sig : Bytes) (sigs : List Bytes)
        → Answers key es (ok sig)
        → Signing keys more (ok sigs)
        → Signing (key ∷ keys) (es ++ more) (ok (sig ∷ sigs))
    then_stops :
        (key : Bytes) (keys : List Bytes) (es more : List Event) (sig : Bytes) (e : PrepareError)
        → Answers key es (ok sig)
        → Signing keys more (err e)
        → Signing (key ∷ keys) (es ++ more) (err e)

  payer-Answers :
      (key : Bytes)
      → Memᴰ (payer_signer key) signers
      → (answer : Option Bytes) → Answers key ((sign msg, answer) ∷ []) (signed_or answer)
  payer-Answers key there none = payer_fails key there
  payer-Answers key there (some sig) = payer_signs key sig there

  Leads-sign_with :
      (s : Signer)
      → Memᴰ s signers
      → Leads (sign_with s msg >>= λ answer. done (signed_or answer)) (Answers (public_key s))
  unfolding ◌>>=◌
  Leads-sign_with (payer_signer key) there = payer-Answers key there
  Leads-sign_with (key_signer key f) there = elim (Option-cases (f msg)) [
    | inl failed ↦ rw failed (key_fails key f there failed)
    | inr (sig, made) ↦ rw made (key_signs key sig f there made)
  ]

  pub Leads-sign_for : (want : Bytes) → Leads (sign_for signers msg want) (Answers want)
  unfolding sign_for
  Leads-sign_for want = elim (Option-cases (find_signer signers want)) [
    | inl absent ↦ rw (Leads, absent) (missing want (find_signer-missing signers want absent))
    | inr (s, found) ↦
        let (there, same) = find_signer-found signers want s found in
        rw (Leads, found)
          (subst
            (λ key. Leads (sign_with s msg >>= λ answer. done (signed_or answer)) (Answers key))
            same (Leads-sign_with s there))
  ]

  add_signature-Signing :
      (key : Bytes) (keys : List Bytes) (es more : List Event) (sig : Bytes)
      (rest : Result PrepareError (List Bytes))
      → Answers key es (ok sig)
      → Signing keys more rest
      → Signing (key ∷ keys) (es ++ more) (add_signature sig rest)
  add_signature-Signing key keys es more sig (err e) here h =
      then_stops key keys es more sig e here h
  add_signature-Signing key keys es more sig (ok sigs) here h =
      signs key keys es more sig sigs here h

  Leads-sign_rest :
      (want : Bytes) (keys : List Bytes) (es : List Event) (first : Result PrepareError Bytes)
      → Answers want es first
      → Leads (sign_all signers msg keys) (Signing keys)
      → Leads
          (either
            (λ e. done (err e))
            (λ s. sign_all signers msg keys >>= λ rest. done (add_signature s rest))
            first)
          (λ more a. Signing (want ∷ keys) (es ++ more) a)
  Leads-sign_rest want keys es (err e) here rest = rw (append-nil es) (stops want keys es e here)
  Leads-sign_rest want keys es (ok s) here rest =
      Leads->>= (sign_all signers msg keys) (λ rest. done (add_signature s rest)) (Signing keys)
        (λ more a. Signing (want ∷ keys) (es ++ more) a) rest
        λ more a rest. rw (append-nil more) (add_signature-Signing want keys es more s a here rest)

  pub Leads-sign_all : (keys : List Bytes) → Leads (sign_all signers msg keys) (Signing keys)
  unfolding sign_all
  Leads-sign_all [] = all_signed
  Leads-sign_all (want ∷ keys) =
      Leads->>= (sign_for signers msg want) _ (Answers want) (Signing (want ∷ keys))
        (Leads-sign_for want)
        λ es first here. Leads-sign_rest want keys es first here (Leads-sign_all keys)
