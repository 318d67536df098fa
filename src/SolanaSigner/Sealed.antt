-- ===== src/SolanaSigner/Sealed.antt =====
-- cmd/solana-signer/main.go, `seal` and `serve` of one binary: from the raw key file to the unlocked key.
use flynn_extensions.Prelude.{
  ◌≡◌, refl, ap, ◌∙◌, Bool, false, arith, equal_self, Bool-cases, inl, inr, Option-cases, Option,
  none, some, List, [], ◌∷◌, map, length, drop, All, IsByte, Bytes, codes, ◌==◌, ◌||◌,
}
use flynn_extensions.Prelude.Result.{Result, ok, err}
use flynn_extensions.McpServer.{Transport}
use flynn_extensions.McpServer.Serve.{Turn}
use flynn_extensions.Solana.Policy.{Solana, PolicyError}
use flynn_extensions.Signer.{Codec, SignerError, State, UnlockArgs, unlock}
use flynn_extensions.Signer.Guard.{solana_policy}
use flynn_extensions.Signer.Custody.{Host, KeyError, ed25519_key, seal_ed25519_key}
use flynn_extensions.Signer.Custody.Seal.{HostLaws}
use flynn_extensions.SolanaSigner.{
  ℤ, pos, in_custody, CommandError, Stdin, read_passphrase, Flags, sealed, key_path, open_key,
  seal_to, seal_raw, read_raw_key, seal_key, after_seal, run_command, raw_key,
}
use flynn_extensions.SolanaSigner.RawKey.{raw_key_iff}
use flynn_extensions.SolanaSigner.Unlock.{unlock-sealed}

module _ {W B G : Type 0} (h : Host W B G) where
  read_raw_key-ok :
      (unmarshal_ints : Bytes → Option (List ℤ)) (raw : Option Bytes) (priv : Bytes)
      → read_raw_key h unmarshal_ints raw ≡ ok priv
      → (file : Bytes) × (nums : List ℤ) × (raw ≡ some file)
        × (unmarshal_ints file ≡ some nums)
        × (raw_key nums ≡ ok priv)
  read_raw_key-ok unmarshal_ints none priv h = cc
  read_raw_key-ok unmarshal_ints (some file) priv h = elim (Option-cases (unmarshal_ints file)) [
    | inl none_read ↦ (let now = rw none_read at h in cc)
    | inr (nums, read) ↦ (file, nums, refl, read, rw read at h)
  ]

  in_custody-ok :
      {A : Type 0} (r : Result KeyError A × W) (a : A) (w : W)
      → in_custody h r ≡ (ok a, w)
      → r ≡ (ok a, w)
  in_custody-ok (ok b, w') a w eq = ground arith
  in_custody-ok (err e, w') a w eq = cc

  seal_to-ok :
      (out priv passphrase : Bytes) (pass : Option Bytes) (w w' : W)
      → pass ≡ some passphrase
      → seal_to h out priv pass w ≡ (ok tt, w')
      → seal_ed25519_key h out priv passphrase w ≡ (ok tt, w')
  seal_to-ok out priv passphrase none w w' given eq = cc
  seal_to-ok out priv passphrase (some []) w w' given eq = cc
  seal_to-ok out priv passphrase (some (x ∷ xs)) w w' given eq =
      let same : x ∷ xs ≡ passphrase = cc in
      rw⁻¹ same (in_custody-ok (seal_ed25519_key h out priv (x ∷ xs) w) tt w' eq)

  seal_raw-ok :
      (out : Bytes) (raw : Result CommandError Bytes) (pass : Option Bytes) (w w' : W)
      → seal_raw h out raw pass w ≡ (ok tt, w')
      → (priv : Bytes) × (raw ≡ ok priv) × (seal_to h out priv pass w ≡ (ok tt, w'))
  seal_raw-ok out (err e) pass w w' eq = cc
  seal_raw-ok out (ok priv) pass w w' eq = (priv, refl, eq)

  seal_key-ok :
      (unmarshal_ints : Bytes → Option (List ℤ)) (input out : Bytes) (pass : Option Bytes)
      (w w' : W)
      → seal_key h unmarshal_ints input out pass w ≡ (ok tt, w')
      → ((length out == 0) ≡ false)
        × (seal_raw h out
              (read_raw_key h unmarshal_ints (h.read_file input w).0)
              pass
              (h.read_file input w).1
            ≡ (ok tt, w'))
  unfolding seal_key
  seal_key-ok unmarshal_ints input out pass w w' eq =
      elim (Bool-cases ((length input == 0) || (length out == 0))) [
        | inl missing ↦ (let now = rw (seal_key, missing) at eq in cc)
        | inr named ↦ (ground arith, rw (seal_key, named) at eq)
      ]

  after_seal-ok :
      (r : Result CommandError (Unit {0}) × W) (w : W)
      → after_seal h r ≡ (ok sealed, w)
      → r ≡ (ok tt, w)
  after_seal-ok (ok u, w') w eq = ground arith
  after_seal-ok (err e, w') w eq = cc

  -- What the file at `input` holds, and what an unlock gives.
  pub record Restores (unmarshal_ints : Bytes → Option (List ℤ)) (input : Bytes) (w : W)
      (st : State Solana W) : Type 0 where
    pub priv : Bytes
    pub file : Bytes
    pub in_file : (h.read_file input w).0 ≡ some file
    pub numbers : unmarshal_ints file ≡ some (map pos priv)
    pub sized : length priv ≡ 64
    pub bytes : All IsByte priv
    pub unlocked : st.vault ≡ some (ed25519_key h priv)
    pub bound : st.policy.payer ≡ drop 32 priv

  -- On a host that keeps its laws: after the command `seal` has run without an error, an unlock in the
  -- world that it left that names the sealed file and the passphrase that the command read holds the
  -- key whose 64 bytes the raw file lists, and binds the policy to its public half, the last 32 bytes.
  pub seal-unlock :
      HostLaws h
      → (flags : Flags) (unmarshal_ints : Bytes → Option (List ℤ))
        (t : Transport (SignerError PolicyError CommandError)) (c : Codec) (version : Bytes)
        (turns : List Turn) (failed : Bool) (stdin : Stdin) (args : List Bytes)
        (input out flag request : Bytes) (a : UnlockArgs) (w : W) (st : State Solana W)
      → flags.parse_seal args ≡ some (input, out)
      → run_command h flags unmarshal_ints t c version turns failed stdin (codes "seal" ∷ args) w
        ≡ (ok sealed, st.world)
      → c.unmarshal_unlock request ≡ some a
      → read_passphrase stdin ≡ some a.passphrase
      → key_path h flag a.key_path ≡ out
      → Restores unmarshal_ints input w (unlock c (open_key h flag) solana_policy request st).1
  unfolding run_command
  seal-unlock laws flags unmarshal_ints t c version turns failed stdin args input [] flag request a
        w st parsed ran read typed named =
      let sealing = rw (run_command, equal_self (codes "seal"), parsed) at ran in
      let keyed = after_seal-ok _ _ sealing in
      let (some_path, _) = seal_key-ok unmarshal_ints input [] _ w st.world keyed in cc
  seal-unlock laws flags unmarshal_ints t c version turns failed stdin args input (x ∷ path) flag
        request a w st parsed ran read typed named =
      let sealing = rw (run_command, equal_self (codes "seal"), parsed) at ran in
      let keyed = after_seal-ok _ _ sealing in
      let (_, raw) = seal_key-ok unmarshal_ints input (x ∷ path) _ w st.world keyed in
      let (priv, held, to_seal) = seal_raw-ok (x ∷ path) _ _ _ st.world raw in
      let (file, nums, in_file, numbers, key) = read_raw_key-ok unmarshal_ints _ priv held in
      let (same, sized, bytes) = (raw_key_iff nums priv).0 key in
      let done =
        seal_to-ok (x ∷ path) priv a.passphrase (read_passphrase stdin) (h.read_file input w).1
          st.world typed to_seal in
      let (unlocked, bound) =
        unlock-sealed h laws c flag request path priv a x _ st done read named in
      record {
        priv = priv;
        file = file;
        in_file = in_file;
        numbers = numbers ∙ ap some same;
        sized = sized;
        bytes = bytes;
        unlocked = unlocked;
        bound = bound;
      }
