-- ===== src/Token/Session/Granted.antt =====
-- token/session.go against solana/solana.go: what a mint session hands out to be signed.
use flynn_extensions.Prelude.{
  ℕ, ◌≡◌, refl, sym, ap, ◌∙◌, subst, some, Option-cases, inl, inr, List, Bytes,
}
use flynn_extensions.Prelude.Result.{ok}
use flynn_extensions.Solana.Policy.{approve}
use flynn_extensions.Token.Atomic.{MintSpec}
use flynn_extensions.Token.Host.{
  SignRequest, HostCall, HostReply, Wire, request_id, call_for_into, next_count, cross,
}
use flynn_extensions.Token.Ledger.{
  Call, Reply, get_latest_blockhash, get_block_height, send_transaction, get_signature_statuses,
  get_account_info, get_genesis_hash, sign, Proc, done, ask,
}
use flynn_extensions.Token.Ledger.Asks.{Asks, Signs}
use flynn_extensions.Token.Mint.{Sdk, Wallet, treasury_of, mint}
use flynn_extensions.Token.Mint.Granted.{Methods, IsLibrary, build_mint-approved}
use flynn_extensions.Token.Mint.Messages.{mint-Asks}
use flynn_extensions.Token.Network.{new_cluster}
use flynn_extensions.Token.Session.{
  Life, finished, awaits, Session, through_host, MintOption, configure,
}
use flynn_extensions.Token.Session.Always.{Always, Crosses, cross_over-Always, Reach-Always}
use flynn_extensions.Token.Session.Parked.{parked, Reach}

pending-P :
    {T : Type 0} (P : HostCall → Type 0) (now : Life T) (req : HostCall)
    → Always (λ req k. P req) now
    → (parked now).pending ≡ some req
    → P req
pending-P P (finished out) req h e = cc
pending-P P (awaits asked k) req h e = (let same : asked ≡ req = cc in subst P same h.0)

-- A request to sign is for this key, and its message has the property.
abbrev AsksFor : Bytes → (Bytes → Type 0) → HostCall → Type 0
AsksFor key Q req =
    (sr : SignRequest) → req.sign_request ≡ some sr → (sr.pubkey ≡ key) × Q sr.message

module _ (wire : Wire) (key : Bytes) (Q : Bytes → Type 0) where
  abbrev Asked : {T : Type 0} → HostCall → (HostReply → Life T) → Type 0
  Asked req k = AsksFor key Q req

  call_for_into-Crosses :
      {T : Type 0} (count : ℕ) (c : Call) (rest : Reply c → Life T)
      → Crosses Asked (call_for_into wire count c) rest
  unfolding call_for_into
  call_for_into-Crosses count c rest =
      elim (Option-cases (wire.marshal_request (request_id count) c)) [
        | inl failed ↦ rw (Crosses, failed) tt
        | inr (body, made) ↦ rw (Crosses, made) (λ sr e. cc)
      ]

  cross-Crosses :
      {T : Type 0} (count : ℕ) (c : Call) (rest : Reply c → Life T)
      → Signs Q c
      → Crosses Asked (cross wire key count c) rest
  unfolding cross
  cross-Crosses count (sign message) rest h = λ sr e.
      let asked : SignRequest = record { pubkey = key; message = message } in
      let same : asked ≡ sr = cc in subst (λ r. (r.pubkey ≡ key) × Q r.message) same (refl, h)
  cross-Crosses count (get_latest_blockhash level) rest h = call_for_into-Crosses _ _ rest
  cross-Crosses count (get_block_height level) rest h = call_for_into-Crosses _ _ rest
  cross-Crosses count (send_transaction signatures message level) rest h =
      call_for_into-Crosses _ _ rest
  cross-Crosses count (get_signature_statuses asked) rest h = call_for_into-Crosses _ _ rest
  cross-Crosses count (get_account_info account level) rest h = call_for_into-Crosses _ _ rest
  cross-Crosses count get_genesis_hash rest h = call_for_into-Crosses _ _ rest

  through_host-Always :
      {T : Type 0} (count : ℕ) (p : Proc T)
      → Asks (Signs Q) p
      → Always Asked (through_host wire key count p)
  unfolding through_host
  through_host-Always count (done out) h = tt
  through_host-Always count (ask c k) h =
      cross_over-Always Asked (cross wire key count c)
        (λ r. through_host wire key (next_count wire count c) (k r)) (cross-Crosses count c _ h.0)
        (λ r. through_host-Always (next_count wire count c) (k r) (h.1 r))

-- Whatever a mint session is replied, each message that it hands out to be signed is for the payer's
-- key, and is approved by the signing policy that is bound to this key; the library that builds and
-- writes the transaction does what it documents.
pub start_mint-granted :
    {Ix : Type 0} (methods : Methods Ix) (wire : Wire) (sdk : Sdk Ix) (payer : Bytes)
    (wallet : Wallet) (polls : ℕ) (spec : MintSpec) (opts : List MintOption) (s : Session _)
    (req : HostCall) (sr : SignRequest)
    → IsLibrary methods sdk.builders sdk.new_transaction
    → Reach
        (through_host wire payer 0 (mint sdk payer wallet polls spec (configure opts new_cluster)))
        s
    → s.pending ≡ some req
    → req.sign_request ≡ some sr
    → (sr.pubkey ≡ payer) × (approve (record { payer = payer }) sr.message ≡ ok tt)
start_mint-granted methods wire sdk payer wallet polls spec opts s req sr lib reached waits signs =
    let Q = λ (msg : Bytes). approve (record { payer = payer }) msg ≡ ok tt in
    let P = AsksFor payer Q in
    let asks =
      mint-Asks sdk payer wallet polls spec Q (configure opts new_cluster)
        (λ described ixs built hash tx msg made marshalled.
          build_mint-approved methods sdk.builders sdk.new_transaction lib payer wallet.wallet_key
            (treasury_of payer spec) spec described ixs hash msg tx built made marshalled) in
    let (now, same, held) =
      Reach-Always (λ req k. P req) _ (through_host-Always wire payer Q 0 _ asks) reached in
    pending-P P now req held (ap (λ s. s.pending) (sym same) ∙ waits) sr signs
