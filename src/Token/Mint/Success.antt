-- ===== src/Token/Mint/Success.antt =====
-- token/mint.go, `Mint`: what a mint without an error has shown, and what a forbidden one never does.
use flynn_extensions.Prelude.{
  ◌≡◌, ◌≢◌, refl, sym, ap, ◌∙◌, none, List, [], ◌∷◌, ◌++◌, append_assoc, All, Bytes, ℕ,
}
use flynn_extensions.Prelude.Result.{Result, ok, err}
use flynn_extensions.Token.Atomic.{MintSpec}
use flynn_extensions.Token.Ledger.{Event, World, run, finalized, get_account_info}
use flynn_extensions.Token.Mint.{
  Sdk, Wallet, MintError, zero_key, MintResult, error_of, plan_of, treasury_of, mint,
}
use flynn_extensions.Token.Mint.Minted.{
  Ends, lost, doubtful, verified, Minted, refused, attempted, IsRead, mint-Minted, reread,
}
use flynn_extensions.Token.Network.{Cluster}
use flynn_extensions.Token.Safety.{Violation, guard, evaluate}
use flynn_extensions.Token.Safety.Verdict.{IsClean, guard_iff}
use flynn_extensions.Token.Verify.{Fetched}
use flynn_extensions.Token.Verify.Safe.{IsFinished, verify_safe_iff}

error_of-none {ℓ} :
    {E : Type ℓ} (f : E → MintError) (r : Result E (Unit {0})) → error_of f r ≡ none → r ≡ ok tt
error_of-none f (ok tt) h = refl
error_of-none f (err e) h = cc

-- The disclosures of a mint that the policy allows on some network.
pub record IsDisclosed {Ix : Type 0} (sdk : Sdk Ix) (payer : Bytes) (s : MintSpec)
    (ds : List Violation) : Type 0 where
  pub known : Cluster
  pub clean : IsClean (plan_of sdk payer s known)
  pub whole : ds ≡ evaluate (plan_of sdk payer s known)

module _ {Ix : Type 0} (sdk : Sdk Ix) (payer : Bytes) (wallet : Wallet) (s : MintSpec) where
  -- The account of a finished mint is the last thing that the node gave.
  pub record IsProven (es : List Event) : Type 0 where
    pub answer : Fetched
    pub front : List Event
    pub last : es ≡ front ++ (reread sdk payer wallet s answer ∷ [])
    pub finished : IsFinished sdk.programs answer s.supply s.decimals

  Ends-IsProven :
      {ixs : List Ix} (ds : List Violation) {es : List Event} {r : MintResult}
      → Ends sdk payer wallet s ixs ds es r
      → r.2 ≡ none
      → (r.0 ≡ wallet.wallet_key) × (r.1 ≡ ds) × IsProven es
  Ends-IsProven ds (lost sig e sends gone) h = cc
  Ends-IsProven ds (doubtful sig e answer front sends open_ last) h = (
    refl,
    refl,
    record {
      answer = answer;
      front = front;
      last = last;
      finished =
          (verify_safe_iff sdk.programs wallet.wallet_key answer s.supply s.decimals).1.0
            (error_of-none _ _ h);
    },
  )
  Ends-IsProven ds (verified sig answer front sends last) h = (
    refl,
    refl,
    record {
      answer = answer;
      front = front;
      last = last;
      finished =
          (verify_safe_iff sdk.programs wallet.wallet_key answer s.supply s.decimals).0.0
            (error_of-none _ _ h);
    },
  )

  Minted-IsProven :
      (e : Cluster) {es : List Event} {r : MintResult}
      → Minted sdk payer wallet s e es r
      → r.2 ≡ none
      → (r.0 ≡ wallet.wallet_key) × IsDisclosed sdk payer s r.1 × IsProven es
  Minted-IsProven e (refused ds why reads) h = cc
  Minted-IsProven e (attempted known treasury ixs front back net cleared ends same) h =
      let (key, whole, proven) = Ends-IsProven (evaluate (plan_of sdk payer s known)) ends h in
      let read : Event = (get_account_info (treasury_of payer s) finalized, treasury) in
      (
        key,
        record { known = known; clean = (guard_iff _).0 cleared.permitted; whole = whole },
        record {
          answer = proven.answer;
          front = front ++ (read ∷ proven.front);
          last =
              same
              ∙ ap (λ more. front ++ (read ∷ more)) proven.last
              ∙ sym (
                  append_assoc front (read ∷ proven.front)
                    (reread sdk payer wallet s proven.answer ∷ []));
          finished = proven.finished;
        },
      )

  Minted-forbidden :
      (e : Cluster) {es : List Event} {r : MintResult}
      → Minted sdk payer wallet s e es r
      → ((known : Cluster) → guard (plan_of sdk payer s known) ≢ ok tt)
      → All IsRead es × (r.0 ≡ zero_key) × (r.2 ≢ none)
  Minted-forbidden e (refused ds why reads) never = (reads, refl, λ h. cc)
  Minted-forbidden e (attempted known treasury ixs front back net cleared ends same) never =
      absurd (never known cleared.permitted)

-- A mint that ends without an error gives the address of the fresh key and the policy's disclosures for
-- a plan that the policy finds clean, and the last thing that the node gave is the account at this
-- address, whole, with the requested supply and without a mint or freeze authority; whether the
-- transaction was confirmed or its fate had to be read from the chain.
pub mint-IsProven :
    {Ix : Type 0} (sdk : Sdk Ix) (payer : Bytes) (wallet : Wallet) (s : MintSpec) (polls : ℕ)
    (e : Cluster) (w : World)
    → (run w [] (mint sdk payer wallet polls s e)).1.2 ≡ none
    → (let (events, (key, disclosures, error)) = run w [] (mint sdk payer wallet polls s e) in
        (key ≡ wallet.wallet_key)
        × IsDisclosed sdk payer s disclosures
        × IsProven sdk payer wallet s events)
mint-IsProven sdk payer wallet s polls e w =
    Minted-IsProven sdk payer wallet s e (mint-Minted sdk payer wallet s polls e w)

-- A token that the policy refuses on every network is refused before anything is signed or submitted:
-- the node is at most asked for its genesis and for accounts, and the result is an error with the zero
-- address.
pub mint-forbidden :
    {Ix : Type 0} (sdk : Sdk Ix) (payer : Bytes) (wallet : Wallet) (s : MintSpec) (polls : ℕ)
    (e : Cluster) (w : World)
    → ((known : Cluster) → guard (plan_of sdk payer s known) ≢ ok tt)
    → (let (events, (key, disclosures, error)) = run w [] (mint sdk payer wallet polls s e) in
        All IsRead events × (key ≡ zero_key) × (error ≢ none))
mint-forbidden sdk payer wallet s polls e w =
    Minted-forbidden sdk payer wallet s e (mint-Minted sdk payer wallet s polls e w)
