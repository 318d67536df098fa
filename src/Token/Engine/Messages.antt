-- ===== src/Token/Engine/Messages.antt =====
-- token/engine.go, `send`: which messages the payer is asked to sign.
use flynn_extensions.Prelude.{
  ℕ, zero, suc, ◌≡◌, leb, Bool-cases, Option-cases, inl, inr, Option, none, some, List, [], ◌∷◌,
  Bytes,
}
use flynn_extensions.Token.Ledger.{
  Commitment, confirmed, Statuses, unread, listed, Latest, blockhash_failed, blockhash_empty,
  latest, Call, sign, get_latest_blockhash, send_transaction, get_signature_statuses, ◌>>=◌, call,
}
use flynn_extensions.Token.Ledger.Asks.{Asks, Asks->>=, Asks-either, Signs}
use flynn_extensions.Token.Engine.{
  first_status, check_height, check_status, poll, confirm_or_expire, Signer, payer_signer,
  key_signer, public_key, sign_with, Built, find_signer, sign_for, sign_all, submit,
  authorize_message, authorize, with_blockhash, send,
}

-- Signing asks the payer for signatures of the message, and for nothing else.
module _ (P : Call → Type 0) (msg : Bytes) (h : P (sign msg)) where
  sign_with-Asks : (s : Signer) → Asks P (sign_with s msg)
  sign_with-Asks (payer_signer key) = (h, λ r. tt)
  sign_with-Asks (key_signer key f) = tt

  pub sign_for-Asks : (signers : List Signer) (want : Bytes) → Asks P (sign_for signers msg want)
  unfolding sign_for
  sign_for-Asks signers want = elim (Option-cases (find_signer signers want)) [
    | inl missing ↦ rw (Asks, missing) tt
    | inr (s, found) ↦
        rw (Asks, found) (Asks->>= P (sign_with s msg) _ (sign_with-Asks s) (λ answer. tt))
  ]

  pub sign_all-Asks :
      (signers : List Signer) (keys : List Bytes) → Asks P (sign_all signers msg keys)
  unfolding sign_all
  sign_all-Asks signers [] = tt
  sign_all-Asks signers (want ∷ keys) =
      Asks-either P (sign_for signers msg want) _ _ (sign_for-Asks signers want) (λ e. tt)
        (λ sig. Asks->>= P (sign_all signers msg keys) _ (sign_all-Asks signers keys) (λ rest. tt))

module _ (Q : Bytes → Type 0) where
  check_height-Asks :
      (signature : Bytes) (last_valid : ℕ) (height : Option ℕ)
      → Asks (Signs Q) (check_height signature last_valid height)
  unfolding check_height ◌>>=◌
  check_height-Asks signature last_valid none = tt
  check_height-Asks signature last_valid (some height) = elim (Bool-cases (leb height last_valid)) [
    | inl valid ↦ rw (Asks, valid) tt
    | inr past ↦ rw (Asks, past) (tt, λ r. tt)
  ]

  check_status-Asks :
      (signature : Bytes) (last_valid : ℕ) (level : Commitment) (st : Statuses)
      → Asks (Signs Q) (check_status signature last_valid level st)
  unfolding check_status ◌>>=◌
  check_status-Asks signature last_valid level unread = tt
  check_status-Asks signature last_valid level (listed sts) =
      elim (Option-cases (first_status sts)) [
        | inl unknown ↦
            rw (Asks, unknown) (tt, λ height. check_height-Asks signature last_valid height)
        | inr (s, known) ↦ rw (Asks, known) tt
      ]

  confirm_or_expire-Asks :
      (signature : Bytes) (last_valid : ℕ) (level : Commitment) (polls : ℕ)
      → Asks (Signs Q) (confirm_or_expire signature last_valid level polls)
  unfolding confirm_or_expire poll
  confirm_or_expire-Asks signature last_valid level zero = tt
  confirm_or_expire-Asks signature last_valid level (suc polls) =
      Asks->>= (Signs Q) (poll signature last_valid level) _
        (Asks->>= (Signs Q) (call (get_signature_statuses signature)) _ (tt, λ r. tt)
          (check_status-Asks signature last_valid level))
        (λ fate. elim (Option-cases fate) [
          | inl going ↦ rw going (confirm_or_expire-Asks signature last_valid level polls)
          | inr (f, known) ↦ rw known tt
        ])

  pub submit-Asks :
      (msg : Bytes) (signatures : List Bytes) (sig : Bytes) (last_valid : ℕ) (level : Commitment)
      (polls : ℕ)
      → Asks (Signs Q) (submit signatures msg sig last_valid level polls)
  unfolding submit
  submit-Asks msg signatures sig last_valid level polls =
      Asks->>= (Signs Q) (call (send_transaction signatures msg confirmed)) _ (tt, λ r. tt)
        (λ accepted.
          Asks->>= (Signs Q) (confirm_or_expire sig last_valid level polls) _
            (confirm_or_expire-Asks sig last_valid level polls) (λ fate. tt))

  authorize_message-Asks :
      (msg : Bytes) (h : Q msg) (signers : List Signer) (tx : Built) (last_valid : ℕ)
      (level : Commitment) (polls : ℕ)
      → Asks (Signs Q) (authorize_message signers tx last_valid level polls msg)
  unfolding authorize_message
  authorize_message-Asks msg h signers tx last_valid level polls =
      Asks-either (Signs Q) (sign_for signers msg tx.fee_payer) _ _
        (sign_for-Asks (Signs Q) msg h signers tx.fee_payer) (λ e. tt)
        (λ sig.
          Asks-either (Signs Q) (sign_all signers msg tx.more_signers) _ _
            (sign_all-Asks (Signs Q) msg h signers tx.more_signers) (λ e. tt)
            (λ others. submit-Asks msg (sig ∷ others) sig last_valid level polls))

  authorize-Asks :
      (signers : List Signer) (tx : Built) (last_valid : ℕ) (level : Commitment) (polls : ℕ)
      → ((msg : Bytes) → tx.marshalled ≡ some msg → Q msg)
      → Asks (Signs Q) (authorize signers tx last_valid level polls)
  unfolding authorize authorize_message
  authorize-Asks signers tx last_valid level polls h = elim (Option-cases tx.marshalled) [
    | inl failed ↦ rw (Asks, failed) tt
    | inr (msg, marshalled) ↦
        rw marshalled
          (authorize_message-Asks msg (h msg marshalled) signers tx last_valid level polls)
  ]

  module _ {Ix : Type 0} (new_transaction : List Ix → Bytes → Bytes → Option Built) (ixs : List Ix)
      (payer : Signer)
      (h : (hash : Bytes) (tx : Built) (msg : Bytes)
        → new_transaction ixs hash (public_key payer) ≡ some tx
        → tx.marshalled ≡ some msg
        → Q msg) where
    with_blockhash-Asks :
        (level : Commitment) (extra : List Signer) (polls : ℕ) (bh : Latest)
        → Asks (Signs Q) (with_blockhash new_transaction ixs level payer extra polls bh)
    unfolding with_blockhash
    with_blockhash-Asks level extra polls blockhash_failed = tt
    with_blockhash-Asks level extra polls blockhash_empty = tt
    with_blockhash-Asks level extra polls (latest hash last_valid) =
        elim (Option-cases (new_transaction ixs hash (public_key payer))) [
          | inl failed ↦ rw (Asks, failed) tt
          | inr (tx, built) ↦
              rw (Asks, built)
                (authorize-Asks (payer ∷ extra) tx last_valid level polls
                  (λ msg. h hash tx msg built))
        ]

    -- Each message to be signed is one that was marshalled of a transaction of these instructions.
    pub send-Asks :
        (level : Commitment) (extra : List Signer) (polls : ℕ)
        → Asks (Signs Q) (send new_transaction ixs level payer extra polls)
    unfolding send
    send-Asks level extra polls =
        Asks->>= (Signs Q) (call (get_latest_blockhash confirmed)) _ (tt, λ r. tt)
          (with_blockhash-Asks level extra polls)
