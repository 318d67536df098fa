-- ===== src/TokenCommand/Tools.antt =====
-- cmd/token/main.go: what `token_verify` and `token_mint` start and report, and the supply as a text.
use flynn_extensions.Prelude.{
  ℕ, ◌-◌, Bool, false, leb, ◌==◌, ◌&&◌, ◌||◌, if◌then◌else◌, Option, none, some, List, [], Bytes,
  codes, equal, length, take, drop, get_elem?,
}
use flynn_extensions.Prelude.Action.{Action}
use flynn_extensions.Prelude.Result.{Result, ok, err, ◌>>=◌, wrap}
use flynn_extensions.Token.Host.{Wire}
use flynn_extensions.Token.Mint.{Sdk, Wallet, MintResult, zero_key}
use flynn_extensions.Token.Session.{Session, MintOption, start_mint, start_verify}
use flynn_extensions.Token.Verify.{
  Programs, VerifyError, fetch_mint, mint_not_found, token_2022_mint, not_spl_mint, undecodable,
  not_initialized, MintState,
}
use flynn_extensions.TokenCommand.{
  VerifyArgs, MintArgs, Texts, ToolError, bad_input, bad_mint_address, bad_treasury_address,
  bad_supply_text, bad_host_key, not_verified, Answer, verified, unsafe_token_2022, minted,
  Registry, parse_pubkey_bytes, handle,
}

-- The end of `verifyService.render`. Beside an error the state is zero, and so is its mint.
abbrev pub verify_report : Result VerifyError MintState → Result ToolError Answer
verify_report (ok st) = ok (verified st)
verify_report (err token_2022_mint) = ok (unsafe_token_2022 zero_key)
verify_report (err fetch_mint) = err (not_verified fetch_mint)
verify_report (err mint_not_found) = err (not_verified mint_not_found)
verify_report (err not_spl_mint) = err (not_verified not_spl_mint)
verify_report (err undecodable) = err (not_verified undecodable)
verify_report (err not_initialized) = err (not_verified not_initialized)

-- The end of `mintService.render`: an error of the mint is a part of the reply.
abbrev pub mint_report : MintResult → Result ToolError Answer
mint_report (key, disclosures, error) = ok (minted key error disclosures)

abbrev pub or_bad {ℓ} : {A : Type ℓ} → ToolError → Option A → Result ToolError A
or_bad e none = err e
or_bad e (some a) = ok a

-- A double quote is the byte 34.
abbrev pub is_quoted : Bytes → Bool
is_quoted s =
    leb 2 (length s)
    && (elim (get_elem? s 0) [ none ↦ false | some c ↦ c == 34 ])
    && (elim (get_elem? s (length s - 1)) [ none ↦ false | some c ↦ c == 34 ])

abbrev pub unquote : Bytes → Bytes
unquote s = if is_quoted s then take (length s - 2) (drop 1 s) else s

module _ (texts : Texts) where
  unfoldable pub parse_supply : Bytes → Result ToolError ℕ
  parse_supply raw =
      if (length raw == 0) || equal raw (codes "null")
      then ok 0
      else or_bad bad_supply_text (texts.parse_uint (unquote raw))

  -- A verify session for the address in the arguments.
  abbrev pub new_verify :
      Wire → Programs → VerifyArgs → Result ToolError (Session (Result VerifyError MintState))
  new_verify wire programs a = do
    key ← or_bad bad_mint_address (texts.public_key_from_base58 a.mint_text)
    ok (start_verify wire programs key)

  abbrev pub treasury_arg : Bytes → Result ToolError Bytes
  treasury_arg text =
      if equal text []
      then ok zero_key
      else or_bad bad_treasury_address (texts.public_key_from_base58 text)

  -- A mint session for the arguments.
  abbrev pub new_mint :
      {Ix : Type 0}
      → Wire
      → Sdk Ix
      → Wallet
      → ℕ
      → List MintOption
      → MintArgs
      → Result ToolError (Session MintResult)
  new_mint wire sdk wallet polls opts a = do
    payer ← wrap bad_host_key (parse_pubkey_bytes texts a.host_key)
    supply ← parse_supply a.supply_text
    treasury ← treasury_arg a.treasury_text
    ok (
        start_mint wire sdk payer wallet polls
          (record {
            name = a.name;
            symbol = a.symbol;
            metadata_uri = a.metadata_uri;
            decimals = a.decimals;
            supply = supply;
            treasury = treasury;
          })
          opts)

  -- The handlers, on their arguments once they are decoded.
  abbrev pub verify_with :
      Wire
      → Programs
      → Option VerifyArgs
      → Action (Registry (Session (Result VerifyError MintState))) ToolError Answer
  verify_with wire programs none r = (err bad_input, r)
  verify_with wire programs (some a) r =
      handle texts verify_report a.resume_args (new_verify wire programs a) r

  unfoldable pub verify_handle :
      Wire
      → Programs
      → Bytes
      → Action (Registry (Session (Result VerifyError MintState))) ToolError Answer
  verify_handle wire programs arguments =
      verify_with wire programs (texts.unmarshal_verify arguments)

  abbrev pub mint_with :
      {Ix : Type 0}
      → Wire
      → Sdk Ix
      → Wallet
      → ℕ
      → List MintOption
      → Option MintArgs
      → Action (Registry (Session MintResult)) ToolError Answer
  mint_with wire sdk wallet polls opts none r = (err bad_input, r)
  mint_with wire sdk wallet polls opts (some a) r =
      handle texts mint_report a.resume_args (new_mint wire sdk wallet polls opts a) r

  unfoldable pub mint_handle :
      {Ix : Type 0}
      → Wire
      → Sdk Ix
      → Wallet
      → ℕ
      → List MintOption
      → Bytes
      → Action (Registry (Session MintResult)) ToolError Answer
  mint_handle wire sdk wallet polls opts arguments =
      mint_with wire sdk wallet polls opts (texts.unmarshal_mint arguments)
