-- ===== src/SolanaSigner/Unlock.antt =====
-- cmd/solana-signer/main.go over signer/: from the sealed file to the unlocked key.
use flynn_extensions.Prelude.{ℕ, ◌≡◌, refl, some, ◌∷◌, drop, Bytes}
use flynn_extensions.Prelude.Result.{ok}
use flynn_extensions.Solana.Policy.{Solana, bind_key}
use flynn_extensions.Signer.{Codec, State, UnlockArgs, unlock}
use flynn_extensions.Signer.Guard.{solana_policy}
use flynn_extensions.Signer.Custody.{Host, ed25519_key, seal_ed25519_key, open_ed25519_key}
use flynn_extensions.Signer.Custody.Seal.{HostLaws, open_ed25519_key-seal}
use flynn_extensions.SolanaSigner.{key_path, in_custody, open_key}

module _ {W B G : Type 0} (h : Host W B G) where
  -- The opener asks for the file at the flag's path, or, without the flag, at the host's.
  open_key-path :
      (flag from_host passphrase path : Bytes) (x : ℕ) (w : W)
      → key_path h flag from_host ≡ x ∷ path
      → open_key h flag passphrase from_host w
        ≡ in_custody h (open_ed25519_key h (x ∷ path) passphrase w)
  unfolding open_key
  open_key-path flag from_host passphrase path x w named = rw named refl

  -- On a host that keeps its laws: once a key has been sealed at a path, an unlock that names the path and the passphrase puts this
  -- key in the vault, and binds the policy to its public half, the last 32 bytes.
  pub unlock-sealed :
      HostLaws h
      → (c : Codec) (flag input path priv : Bytes) (args : UnlockArgs) (x : ℕ) (w : W)
        (st : State Solana W)
      → seal_ed25519_key h (x ∷ path) priv args.passphrase w ≡ (ok tt, st.world)
      → c.unmarshal_unlock input ≡ some args
      → key_path h flag args.key_path ≡ x ∷ path
      → let (r, st') = unlock c (open_key h flag) solana_policy input st in
        (st'.vault ≡ some (ed25519_key h priv)) × (st'.policy.payer ≡ drop 32 priv)
  unfolding unlock bind_key
  unlock-sealed laws c flag input path priv args x w st sealed read named =
      let opened = open_ed25519_key-seal h laws (x ∷ path) priv args.passphrase w st.world sealed in
      rw
        (
          unlock,
          read,
          open_key-path flag args.key_path args.passphrase path x st.world named,
          opened,
        )
        (refl, refl)
