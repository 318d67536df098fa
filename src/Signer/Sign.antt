-- ===== src/Signer/Sign.antt =====
-- signer/signer.go: what the two handlers of the harness do, for any policy and any custody.
use flynn_extensions.Prelude.{
  ◌≤◌, ◌<◌, ◌≡◌, ◌↔◌, ◌⊎◌, inl, inr, refl, Option, none, some, length, Bytes, arith, Option-cases,
}
use flynn_extensions.Prelude.Result.{Result, ok, err, >>=-Gives, wrap->>=-Gives}
use flynn_extensions.Signer.{
  Key, Policy, Opener, UnlockArgs, Codec, State, SignerError, unlocked_reply, bind_to, admit,
  unlock, not_opened, malformed_unlock, locked, malformed_sign, not_base64, refused, not_signed,
  max_payload_bytes, demand, bind_to, unlock, check_size, sign_payload,
}

-- What it takes to sign `input` with the reply `out`.
module _ {P R W : Type 0} (c : Codec) (policy : Policy P R) where
  pub record Signs (input : Bytes) (st : State P W) (out : Bytes) : Type 0 where
    pub key : Key
    pub held : st.vault ≡ some key
    pub args : Bytes
    pub read : c.unmarshal_sign input ≡ some args
    pub payload : Bytes
    pub decoded : c.decode_string args ≡ some payload
    pub some_bytes : 0 < length payload
    pub few_bytes : length payload ≤ max_payload_bytes
    pub approved : policy.approve st.policy payload ≡ ok tt
    pub sig : Bytes
    pub signed : key.sign payload ≡ ok sig
    pub written : c.marshal_signature (c.encode_to_string sig) ≡ some out

demand-eq-ok : {E A : Type 0} (e : E) (o : Option A) {a : A} → demand e o ≡ ok a → o ≡ some a
demand-eq-ok e none h = cc
demand-eq-ok e (some b) h = cc

abbrev FitsPayload : Bytes → Type 0
FitsPayload payload = (0 < length payload) × (length payload ≤ max_payload_bytes)

check_size_iff :
    {R O : Type 0} (payload : Bytes)
    → (check_size {R = R} {O = O} payload ≡ ok tt) ↔ FitsPayload payload
unfolding check_size
check_size_iff payload = (λ e. ground arith, λ h. ground arith)

module _ {P R W O : Type 0} (c : Codec) (policy : Policy P R) where
  -- A signature is given exactly when the key is held, the request decodes to a payload of at least
  -- one and at most 65536 bytes, the policy approves of it, and the key signs it.
  pub sign_payload_iff :
      (input : Bytes) (st : State P W) (out : Bytes)
      → (sign_payload {O = O} c policy input st ≡ ok out) ↔ Signs c policy input st out
  unfolding sign_payload
  sign_payload_iff input st out = (
    λ e.
        let (key, held, e₁) = >>=-Gives (demand locked st.vault) _ e in
        let (args, read, e₂) = >>=-Gives (demand malformed_sign (c.unmarshal_sign input)) _ e₁ in
        let (payload, decoded, e₃) = >>=-Gives (demand not_base64 (c.decode_string args)) _ e₂ in
        let (t, sized, e₄) = >>=-Gives (check_size payload) _ e₃ in
        let (u, approved, e₅) = wrap->>=-Gives refused (policy.approve st.policy payload) _ e₄ in
        let (sig, signed, e₆) = wrap->>=-Gives not_signed (key.sign payload) _ e₅ in
        record {
          key = key;
          held = demand-eq-ok _ _ held;
          args = args;
          read = demand-eq-ok _ _ read;
          payload = payload;
          decoded = demand-eq-ok _ _ decoded;
          some_bytes = ((check_size_iff payload).0 sized).0;
          few_bytes = ((check_size_iff payload).0 sized).1;
          approved = approved;
          sig = sig;
          signed = signed;
          written = demand-eq-ok _ _ e₆;
        },
    λ s.
        let sized = (check_size_iff {R = R} {O = O} s.payload).1 (s.some_bytes, s.few_bytes) in
        rw (s.held, s.read, s.decoded, sized, s.approved, s.signed, s.written) refl,
  )

module _ {P R W O : Type 0} (c : Codec) (open_key : Opener W O) (policy : Policy P R) where
  -- An unlock with the opener's answer `o`, which turns `st` into `st'` with the reply `r`.
  abbrev pub Opened :
      Result O Key → State P W → State P W → Result (SignerError R O) Bytes → Key → Type 0
  Opened o st st' r key =
      (o ≡ ok key)
      × (st'.vault ≡ some key)
      × (st'.policy ≡ bind_to policy key st.policy)
      × (r ≡ unlocked_reply c key)

  -- Why there is no key: the arguments do not decode, or the opener answers them with an error.
  abbrev pub HasNoKey : Bytes → State P W → Type 0
  HasNoKey input st =
      (c.unmarshal_unlock input ≡ none)
      ⊎ ((args : UnlockArgs) × (c.unmarshal_unlock input ≡ some args)
          × (e : O) × ((open_key args.passphrase args.key_path st.world).0 ≡ err e))

  abbrev pub Unopened : Bytes → State P W → State P W → Result (SignerError R O) Bytes → Type 0
  Unopened input st st' r =
      HasNoKey input st
      × (st'.vault ≡ st.vault)
      × (st'.policy ≡ st.policy)
      × ((e : SignerError R O) × (r ≡ err e))

  abbrev Admits : Result O Key → State P W → State P W → Result (SignerError R O) Bytes → Type 0
  Admits o st st' r =
      ((key : Key) × Opened o st st' r key)
      ⊎ ((e : O) × (o ≡ err e)
          × (st'.vault ≡ st.vault)
          × (st'.policy ≡ st.policy)
          × (f : SignerError R O) × (r ≡ err f))

  admit-state :
      (o : Result O Key × W) (st : State P W)
      → let (r, st') = admit c open_key policy o st in Admits o.0 st st' r
  admit-state (ok key, w) st = inl (key, (refl, refl, refl, refl))
  admit-state (err e, w) st = inr (e, refl, refl, refl, not_opened e, refl)

  -- An unlock whose arguments decode and that the opener answers with a key puts this key in the vault,
  -- binds the policy to it and replies, unless the reply cannot be encoded. Otherwise the arguments do
  -- not decode or the opener answers with an error, and the unlock is an error that leaves the vault and
  -- the policy as they were.
  pub unlock-state :
      (input : Bytes) (st : State P W)
      → let (r, st') = unlock c open_key policy input st in
        ((args : UnlockArgs) × (c.unmarshal_unlock input ≡ some args)
          × (key : Key) × Opened (open_key args.passphrase args.key_path st.world).0 st st' r key)
        ⊎ Unopened input st st' r
  unfolding unlock
  unlock-state input st = elim (Option-cases (c.unmarshal_unlock input)) [
    | inl malformed ↦ rw (unlock, malformed) (inr (inl refl, refl, refl, (malformed_unlock, refl)))
    | inr (args, read) ↦ elim (admit-state (open_key args.passphrase args.key_path st.world) st) [
      | inl (key, h) ↦ rw (unlock, read) (inl (args, refl, key, h))
      | inr (e, failed, vault, policy, f, error) ↦
          rw (unlock, read) (inr (inr (args, refl, e, failed), vault, policy, (f, error)))
    ]
  ]
