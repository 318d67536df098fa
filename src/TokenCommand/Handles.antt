-- ===== src/TokenCommand/Handles.antt =====
-- cmd/token/main.go, the handlers of `token_verify` and `token_mint`.
use flynn_extensions.Prelude.{
  ℕ, ◌+◌, ◌%◌, ◌^◌, ◌<◌, ◌≡◌, refl, subst, inl, inr, Option, none, some, Option-cases, List, [],
  ◌∷◌, Bytes, ◌++◌, equal_self, arith,
}
use flynn_extensions.Prelude.Result.{Result, ok, err, ◌>>=◌, wrap}
use flynn_extensions.Token.Host.{SignRequest, FetchRequest, HostCall, Wire}
use flynn_extensions.Token.Mint.{Sdk, Wallet, MintResult}
use flynn_extensions.Token.Session.{Session, MintOption}
use flynn_extensions.Token.Verify.{
  Programs, VerifyError, fetch_mint, mint_not_found, token_2022_mint, not_spl_mint, undecodable,
  not_initialized, MintState,
}
use flynn_extensions.TokenCommand.{
  Texts, VerifyArgs, MintArgs, ToolError, bad_input, Answer, sign_answer, fetch_answer,
  pending_reply, Registry, get, next_id, parse_pubkey_bytes, bad_host_key, bad_mint_address, store,
  find,
}
use flynn_extensions.TokenCommand.Sessions.{
  IsGiven, IsGiven-Grows, Given, Grows, KeptBy, IsKept, Answered, Resumable, Resumable-err, Starts,
  handle-Resumable,
}
use flynn_extensions.TokenCommand.Tools.{
  verify_report, mint_report, or_bad, parse_supply, new_verify, treasury_arg, new_mint, verify_with,
  mint_with, verify_handle, mint_handle,
}

-- A chain starts a session where its rest does.
>>=-Starts {ℓ} :
    {A : Type ℓ} {T : Type 0} (texts : Texts) (report : T → Result ToolError Answer)
    (m : Result ToolError A) (f : A → Result ToolError (Session T))
    → ((x : A) → Starts texts report (f x))
    → Starts texts report (m >>= f)
>>=-Starts texts report (err e) f h = tt
>>=-Starts texts report (ok x) f h = h x

new_verify-Starts :
    (texts : Texts) (wire : Wire) (programs : Programs) (a : VerifyArgs)
    → Starts texts verify_report (new_verify texts wire programs a)
new_verify-Starts texts wire programs a =
    >>=-Starts texts verify_report
      (or_bad bad_mint_address (texts.public_key_from_base58 a.mint_text)) _ (λ key. (_, refl))

new_mint-Starts :
    {Ix : Type 0} (texts : Texts) (wire : Wire) (sdk : Sdk Ix) (wallet : Wallet) (polls : ℕ)
    (opts : List MintOption) (a : MintArgs)
    → Starts texts mint_report (new_mint texts wire sdk wallet polls opts a)
new_mint-Starts texts wire sdk wallet polls opts a =
    >>=-Starts texts mint_report (wrap bad_host_key (parse_pubkey_bytes texts a.host_key)) _
      λ payer. >>=-Starts texts mint_report (parse_supply texts a.supply_text) _ λ supply.
        >>=-Starts texts mint_report (treasury_arg texts a.treasury_text) _ λ treasury. (_, refl)

pub verify_with-Resumable :
    (texts : Texts) (G : Given) (wire : Wire) (programs : Programs) (a : Option VerifyArgs)
    (r : Registry (Session (Result VerifyError MintState)))
    → Grows texts G r
    → KeptBy G r
    → Resumable texts G verify_report (verify_with texts wire programs a r)
verify_with-Resumable texts G wire programs none r grows h =
    Resumable-err texts G verify_report bad_input r h
verify_with-Resumable texts G wire programs (some a) r grows h =
    handle-Resumable texts G verify_report a.resume_args (new_verify texts wire programs a) r
      (new_verify-Starts texts wire programs a) grows h

pub mint_with-Resumable :
    {Ix : Type 0} (texts : Texts) (G : Given) (wire : Wire) (sdk : Sdk Ix) (wallet : Wallet)
    (polls : ℕ) (opts : List MintOption) (a : Option MintArgs) (r : Registry (Session MintResult))
    → Grows texts G r
    → KeptBy G r
    → Resumable texts G mint_report (mint_with texts wire sdk wallet polls opts a r)
mint_with-Resumable texts G wire sdk wallet polls opts none r grows h =
    Resumable-err texts G mint_report bad_input r h
mint_with-Resumable texts G wire sdk wallet polls opts (some a) r grows h =
    handle-Resumable texts G mint_report a.resume_args (new_mint texts wire sdk wallet polls opts a)
      r (new_mint-Starts texts wire sdk wallet polls opts a) grows h

module _ (texts : Texts) {T : Type 0} where
  -- A reply that asks for a signature or for a request to the node names a session of the registry, which
  -- waits with this call.
  abbrev pub Asked : Result ToolError Answer → Registry (Session T) → Type 0
  Asked (ok (sign_answer id text)) r =
      (s : Session T) × (req : HostCall) × (get id r ≡ some s)
      × (s.pending ≡ some req)
      × (sr : SignRequest) × (req.sign_request ≡ some sr)
      × (text ≡ texts.encode_base64 sr.message)
  Asked (ok (fetch_answer id text)) r =
      (s : Session T) × (req : HostCall) × (get id r ≡ some s)
      × (s.pending ≡ some req)
      × (f : FetchRequest) × (req.fetch_request ≡ some f)
      × (text ≡ texts.encode_base64 f.request_body)
  Asked _ r = Unit

  pending_reply-Asked :
      (id : Bytes) (req : HostCall) (s : Session T) (r : Registry (Session T))
      → get id r ≡ some s
      → s.pending ≡ some req
      → Asked (pending_reply texts id req) r
  unfolding pending_reply
  pending_reply-Asked id req s r found waits = elim (Option-cases req.sign_request) [
    | inr (sr, signs) ↦ rw (pending_reply, signs) (s, req, found, waits, sr, signs, refl)
    | inl unsigned ↦ elim (Option-cases req.fetch_request) [
      | inr (f, sends) ↦ rw (pending_reply, unsigned, sends) (s, req, found, waits, f, sends, refl)
      | inl idle ↦ rw (pending_reply, unsigned, idle) tt
    ]
  ]

  Answered-Asked :
      (report : T → Result ToolError Answer) (result : Result ToolError Answer)
      (r : Registry (Session T))
      → ((out : T) → Asked (report out) r)
      → Answered texts report result r
      → Asked result r
  Answered-Asked report (err e) r reports h = tt
  Answered-Asked report (ok a) r reports (inl (id, out, reported, gone)) =
      subst (λ x. Asked x r) reported (reports out)
  Answered-Asked report (ok a) r reports (inr (id, s, req, found, waits, replied)) =
      subst (λ x. Asked x r) replied (pending_reply-Asked id req s r found waits)

verify_report-Asked :
    (texts : Texts) (out : Result VerifyError MintState)
    (r : Registry (Session (Result VerifyError MintState)))
    → Asked texts (verify_report out) r
verify_report-Asked texts (ok st) r = tt
verify_report-Asked texts (err token_2022_mint) r = tt
verify_report-Asked texts (err fetch_mint) r = tt
verify_report-Asked texts (err mint_not_found) r = tt
verify_report-Asked texts (err not_spl_mint) r = tt
verify_report-Asked texts (err undecodable) r = tt
verify_report-Asked texts (err not_initialized) r = tt

-- If the registries of both services hold only waiting sessions, each under an id that was given out, and
-- the numbers of their ids are below 2 ^ 64, then `token_verify` and `token_mint` leave them so, whatever
-- their arguments, and a reply that asks for a signature, or for a request to the node, names a session
-- that its registry then holds, which waits with this call.
pub handles-Resumable :
    {Ix : Type 0} (texts : Texts) (wire : Wire) (programs : Programs) (sdk : Sdk Ix)
    (wallet : Wallet) (polls : ℕ) (opts : List MintOption) (arguments : Bytes)
    (v : Registry (Session (Result VerifyError MintState))) (r : Registry (Session MintResult))
    → v.seq + 1 < 2 ^ 64
    → r.seq + 1 < 2 ^ 64
    → IsKept texts v
    → IsKept texts r
    → (let (result, next) = verify_handle texts wire programs arguments v in
        IsKept texts next × Asked texts result next)
      × (let (result, next) = mint_handle texts wire sdk wallet polls opts arguments r in
          IsKept texts next × Asked texts result next)
unfolding verify_handle mint_handle
handles-Resumable texts wire programs sdk wallet polls opts arguments v r few small h k =
    let (kept, verifies) =
      verify_with-Resumable texts (IsGiven texts) wire programs (texts.unmarshal_verify arguments) v
        (IsGiven-Grows texts v few) h in
    let (held, mints) =
      mint_with-Resumable texts (IsGiven texts) wire sdk wallet polls opts
        (texts.unmarshal_mint arguments) r (IsGiven-Grows texts r small) k in
    (
      (
        kept,
        Answered-Asked texts verify_report _ _
            (λ out. verify_report-Asked texts out (verify_handle texts wire programs arguments v).1)
            verifies,
      ),
      (held, Answered-Asked texts mint_report _ _ (λ out. tt) mints),
    )

append-cancel : (p xs ys : Bytes) → p ++ xs ≡ p ++ ys → xs ≡ ys
append-cancel [] xs ys h = h
append-cancel (b ∷ p) xs ys h = (let rest : p ++ xs ≡ p ++ ys = cc in append-cancel p xs ys rest)

-- A new session gets an id that no session in the registry has, if different numbers are printed
-- differently, the registry holds only sessions under ids that were given out, and the number of its
-- ids is below 2 ^ 64.
pub store-fresh :
    {T : Type 0} (texts : Texts) (s : Session T) (r : Registry (Session T))
    → ((m n : ℕ) → texts.format_uint m ≡ texts.format_uint n → m ≡ n)
    → r.seq + 1 < 2 ^ 64
    → IsKept texts r
    → (let (id, next) = store texts s r in (get id r ≡ none) × (get id next ≡ some s))
unfolding find
store-fresh texts s r injective small h = (
  elim (Option-cases (get (next_id texts r) r)) [
    | inl free ↦ free
    | inr (other, taken) ↦
        let (waits, (n, old, same)) = h (next_id texts r) other taken in
        let counted : (r.seq + 1) % 2 ^ 64 ≡ r.seq + 1 = ground (arith, small) in
        let clash : (r.seq + 1) % 2 ^ 64 ≡ n = injective _ n (append-cancel r.prefix _ _ same) in
        absurd (omega (arith, counted, clash, old))
  ],
  rw (equal_self (next_id texts r)) refl,
)
