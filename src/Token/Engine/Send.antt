-- ===== src/Token/Engine/Send.antt =====
-- token/engine.go, `send`: what was asked of the node and of the payer, for each of its ends.
use flynn_extensions.Prelude.{
  ℕ, ◌≡◌, inl, inr, refl, subst, Bool, true, false, Option, none, some, List, [], ◌∷◌, ◌++◌, Bytes,
  Option-cases, append_assoc, append-nil,
}
use flynn_extensions.Prelude.Result.{Result, ok, err, either}
use flynn_extensions.Token.Ledger.{
  Commitment, confirmed, Latest, blockhash_failed, blockhash_empty, latest, get_latest_blockhash,
  send_transaction, done, ◌>>=◌, Event,
}
use flynn_extensions.Token.Ledger.Leads.{Leads, Leads->>=}
use flynn_extensions.Token.Engine.{
  Fate, landed, expired, failed_on_chain, context_ended, tx_expired, never_submitted, tx_failed,
  context_done, is_expired, SendError, Signer, public_key, Built, PrepareError, unprepared,
  blockhash_error, empty_blockhash, new_tx, marshal_message, sign_for, sign_all, zero_signature,
  Sent, conclude, submit, refused, authorize_message, authorize, with_blockhash, send,
  confirm_or_expire,
}
use flynn_extensions.Token.Engine.Signing.{
  Answers, Signing, stops, signs, then_stops, Leads-sign_for, Leads-sign_all,
}
use flynn_extensions.Token.Engine.Confirm.{Shows, Leads-confirm_or_expire}

-- What is returned for a fate.
abbrev pub Returns : Bytes → Fate → Sent → Type 0
Returns sig landed r = r ≡ (sig, none)
Returns sig expired r = (e : SendError) × (r ≡ (zero_signature, some e)) × (is_expired e ≡ true)
Returns sig failed_on_chain r = r ≡ (sig, some tx_failed)
Returns sig context_ended r = r ≡ (sig, some context_done)

conclude-Returns :
    (sig : Bytes) (accepted : Bool) (fate : Fate) → Returns sig fate (conclude sig accepted fate)
conclude-Returns sig accepted landed = refl
conclude-Returns sig true expired = (tx_expired, refl, refl)
conclude-Returns sig false expired = (never_submitted, refl, refl)
conclude-Returns sig accepted failed_on_chain = refl
conclude-Returns sig accepted context_ended = refl

module _ {Ix : Type 0} (new_transaction : List Ix → Bytes → Bytes → Option Built) (ixs : List Ix)
    (level : Commitment) (payer : Signer) (extra : List Signer) where
  -- The node named this blockhash, and the instructions make this transaction with it.
  pub record Builds (bh : Latest) (tx : Built) (last_valid : ℕ) : Type 0 where
    pub hash : Bytes
    pub named : bh ≡ latest hash last_valid
    pub built : new_transaction ixs hash (public_key payer) ≡ some tx

  -- The signatures that the transaction needs, the fee payer's first, over the bytes of its message.
  abbrev pub Signed : Built → Bytes → List Event → Result PrepareError (List Bytes) → Type 0
  Signed tx msg = Signing (payer ∷ extra) msg (tx.fee_payer ∷ tx.more_signers)

  abbrev pub hash_read : Latest → Event
  hash_read bh = (get_latest_blockhash confirmed, bh)

  -- The ends of `send`: an error of the preparation, each with its reason and before anything was
  -- submitted, or one submission of the transaction that was built and signed, whose first signature is
  -- then followed to its fate.
  pub data Sends : List Event → Sent → Type 0 where
    no_hash :
        Sends (hash_read blockhash_failed ∷ []) (zero_signature, some (unprepared blockhash_error))
    no_blockhash :
        Sends (hash_read blockhash_empty ∷ []) (zero_signature, some (unprepared empty_blockhash))
    not_built :
        (hash : Bytes) (last_valid : ℕ)
        → new_transaction ixs hash (public_key payer) ≡ none
        → Sends (hash_read (latest hash last_valid) ∷ []) (zero_signature, some (unprepared new_tx))
    not_marshalled :
        (bh : Latest) (tx : Built) (last_valid : ℕ)
        → Builds bh tx last_valid
        → tx.marshalled ≡ none
        → Sends (hash_read bh ∷ []) (zero_signature, some (unprepared marshal_message))
    not_signed :
        (bh : Latest) (tx : Built) (last_valid : ℕ) (msg : Bytes) (asked : List Event)
        (e : PrepareError)
        → Builds bh tx last_valid
        → tx.marshalled ≡ some msg
        → Signed tx msg asked (err e)
        → Sends (hash_read bh ∷ asked) (zero_signature, some (unprepared e))
    sent :
        (bh : Latest) (tx : Built) (last_valid : ℕ) (msg : Bytes) (asked : List Event) (sig : Bytes)
        (others : List Bytes) (accepted : Bool) (fate : Fate) (back : List Event) {r : Sent}
        → Builds bh tx last_valid
        → tx.marshalled ≡ some msg
        → Signed tx msg asked (ok (sig ∷ others))
        → Shows sig last_valid level back fate
        → Returns sig fate r
        → Sends
            (hash_read bh ∷ asked
              ++ (send_transaction (sig ∷ others) msg confirmed, accepted) ∷ back)
            r

  module _ (polls : ℕ) (bh : Latest) (tx : Built) (last_valid : ℕ) (msg : Bytes)
      (builds : Builds bh tx last_valid) (written : tx.marshalled ≡ some msg) where
    Leads-submit :
        (sig : Bytes) (others : List Bytes) (asked : List Event)
        → Signed tx msg asked (ok (sig ∷ others))
        → Leads
            (submit (sig ∷ others) msg sig last_valid level polls)
            (λ es. Sends (hash_read bh ∷ asked ++ es))
    unfolding submit ◌>>=◌
    Leads-submit sig others asked signed = λ accepted.
        Leads->>= (confirm_or_expire sig last_valid level polls)
          (λ fate. done (conclude sig accepted fate)) (Shows sig last_valid level)
          (λ es. Sends (
            hash_read bh ∷ asked ++ (send_transaction (sig ∷ others) msg confirmed, accepted) ∷ es))
          (Leads-confirm_or_expire sig last_valid level polls)
          λ es fate shown. rw (append-nil es) (
            sent bh tx last_valid msg asked sig others accepted fate es builds written signed shown
              (conclude-Returns sig accepted fate))

    Leads-authorize_rest :
        (sig : Bytes) (first asked : List Event) (rest : Result PrepareError (List Bytes))
        → Answers (payer ∷ extra) msg tx.fee_payer first (ok sig)
        → Signing (payer ∷ extra) msg tx.more_signers asked rest
        → Leads
            (either refused (λ others. submit (sig ∷ others) msg sig last_valid level polls) rest)
            (λ es. Sends (hash_read bh ∷ first ++ (asked ++ es)))
    Leads-authorize_rest sig first asked (err e) here h = rw (append-nil asked) (
        not_signed bh tx last_valid msg (first ++ asked) e builds written
          (then_stops tx.fee_payer tx.more_signers first asked sig e here h))
    Leads-authorize_rest sig first asked (ok others) here h =
        subst
          (λ (f : List Event → List Event).
            Leads (submit (sig ∷ others) msg sig last_valid level polls)
              (λ es. Sends (hash_read bh ∷ f es)))
          (λ i es. append_assoc first asked es i)
          (Leads-submit sig others (first ++ asked)
            (signs tx.fee_payer tx.more_signers first asked sig others here h))

    Leads-authorize_first :
        (first : List Event) (signed : Result PrepareError Bytes)
        → Answers (payer ∷ extra) msg tx.fee_payer first signed
        → Leads
            (either refused
              (λ sig.
                sign_all (payer ∷ extra) msg tx.more_signers
                >>= either refused λ others. submit (sig ∷ others) msg sig last_valid level polls)
              signed)
            (λ es. Sends (hash_read bh ∷ first ++ es))
    Leads-authorize_first first (err e) here = rw (append-nil first) (
        not_signed bh tx last_valid msg first e builds written
          (stops tx.fee_payer tx.more_signers first e here))
    Leads-authorize_first first (ok sig) here =
        Leads->>= (sign_all (payer ∷ extra) msg tx.more_signers)
          (either refused λ others. submit (sig ∷ others) msg sig last_valid level polls)
          (Signing (payer ∷ extra) msg tx.more_signers) (λ es. Sends (hash_read bh ∷ first ++ es))
          (Leads-sign_all (payer ∷ extra) msg tx.more_signers)
          λ asked rest h. Leads-authorize_rest sig first asked rest here h

  Leads-authorize :
      (polls : ℕ) (bh : Latest) (tx : Built) (last_valid : ℕ)
      → Builds bh tx last_valid
      → Leads
          (authorize (payer ∷ extra) tx last_valid level polls)
          (λ es. Sends (hash_read bh ∷ es))
  unfolding authorize authorize_message
  Leads-authorize polls bh tx last_valid builds = elim (Option-cases tx.marshalled) [
    | inl bad ↦ rw (Leads, bad) (not_marshalled bh tx last_valid builds bad)
    | inr (msg, good) ↦
        rw (Leads, good)
          (Leads->>= (sign_for (payer ∷ extra) msg tx.fee_payer) _
            (Answers (payer ∷ extra) msg tx.fee_payer) (λ es. Sends (hash_read bh ∷ es))
            (Leads-sign_for (payer ∷ extra) msg tx.fee_payer)
            λ first signed here.
              Leads-authorize_first polls bh tx last_valid msg builds good first signed here)
  ]

  Leads-with_blockhash :
      (polls : ℕ) (bh : Latest)
      → Leads
          (with_blockhash new_transaction ixs level payer extra polls bh)
          (λ es. Sends (hash_read bh ∷ es))
  unfolding with_blockhash
  Leads-with_blockhash polls blockhash_failed = no_hash
  Leads-with_blockhash polls blockhash_empty = no_blockhash
  Leads-with_blockhash polls (latest hash last_valid) =
      elim (Option-cases (new_transaction ixs hash (public_key payer))) [
        | inl bad ↦ rw (Leads, bad) (not_built hash last_valid bad)
        | inr (tx, good) ↦
            rw (Leads, good)
              (Leads-authorize polls (latest hash last_valid) tx last_valid
                (record { hash = hash; named = refl; built = good }))
      ]

  pub Leads-send : (polls : ℕ) → Leads (send new_transaction ixs level payer extra polls) Sends
  unfolding send ◌>>=◌
  Leads-send polls = Leads-with_blockhash polls
