-- ===== src/Token/Verify.antt =====
-- token/engine.go, `Verify`, and `verifySafe`, `checkSupply` and `resolveUnconfirmed` of token/mint.go:
-- what the chain says of a mint. The programs' addresses and the decoder of a mint account are
-- solana-go's, the fields of a `Programs`; the node's answer is a value.
pub mod Safe
use flynn_extensions.Prelude.{
  ℕ, Bool, true, false, not, ◌==◌, ◌||◌, if◌then◌else◌, Option, none, some, List, length, Bytes,
  equal,
}
use flynn_extensions.Prelude.Result.{Result, ok, err, ◌>>=◌, wrap}
use flynn_extensions.Token.Amount.{AmountError, scaled_amount}

-- An account, and what the node answers when it is asked for one: an error, `rpc.ErrNotFound`, nil
-- without an error, or the account.
pub record AccountInfo : Type 0 where
  pub owner : Bytes
  pub account_data : Bytes

pub data Fetched : Type 0 where
  fetch_failed not_found absent : Fetched
  found : AccountInfo → Fetched

-- `token.Mint`
pub record MintAccount : Type 0 where
  pub is_initialized : Bool
  pub decimals : ℕ
  pub supply : ℕ
  pub mint_authority : Option Bytes
  pub freeze_authority : Option Bytes

pub record Programs : Type 0 where
  pub token_2022 : Bytes
  pub spl_token : Bytes
  pub decode_mint : Bytes → Option MintAccount

pub record MintState : Type 0 where
  pub mint : Bytes
  pub decimals : ℕ
  pub supply : ℕ
  pub mint_authority : Option Bytes
  pub freeze_authority : Option Bytes

pub data VerifyError : Type 0 where
  fetch_mint mint_not_found token_2022_mint not_spl_mint undecodable not_initialized : VerifyError

pub data UnsafeMint : Type 0 where
  unproven : VerifyError → UnsafeMint
  freeze_present mint_not_fixed : UnsafeMint
  bad_amount : AmountError → UnsafeMint
  wrong_supply : UnsafeMint

pub data Unresolved : Type 0 where
  unreadable : VerifyError → Unresolved
  unsafe_state : Unresolved
  supply_error : UnsafeMint → Unresolved

abbrev pub mint_account_size : ℕ
mint_account_size = 82

abbrev pub supply_fixed : MintState → Bool
supply_fixed m = elim m.mint_authority [ none ↦ true | some a ↦ false ]

abbrev pub freezable : MintState → Bool
freezable m = elim m.freeze_authority [ none ↦ false | some a ↦ true ]

-- `checkSupply`, for a requested supply and its decimals.
unfoldable pub check_supply : MintState → ℕ → ℕ → Result UnsafeMint (Unit {0})
check_supply st supply decimals = do
  expected ← wrap bad_amount (scaled_amount supply decimals)
  if not (st.supply == expected) then err wrong_supply else ok tt

-- The tests of `verifySafe` on what `Verify` gave.
abbrev pub check_safe : MintState → ℕ → ℕ → Result UnsafeMint (Unit {0})
check_safe st supply decimals =
    if freezable st
    then err freeze_present
    else if not (supply_fixed st)
    then err mint_not_fixed
    else check_supply st supply decimals

-- The tests of `resolveUnconfirmed` on what `Verify` gave.
abbrev pub check_landed : MintState → ℕ → ℕ → Result Unresolved (Unit {0})
check_landed st supply decimals =
    if not (supply_fixed st) || freezable st
    then err unsafe_state
    else wrap supply_error (check_supply st supply decimals)

-- The state that `Verify` reports of an account.
abbrev pub shown : Bytes → MintAccount → MintState
shown mint m = record {
  mint = mint;
  decimals = m.decimals;
  supply = m.supply;
  mint_authority = m.mint_authority;
  freeze_authority = m.freeze_authority;
}

abbrev pub state_of : Bytes → Option MintAccount → Result VerifyError MintState
state_of mint none = err undecodable
state_of mint (some m) = if not m.is_initialized then err not_initialized else ok (shown mint m)

module _ (p : Programs) where
  unfoldable pub verify : Bytes → Fetched → Result VerifyError MintState
  verify mint fetch_failed = err fetch_mint
  verify mint not_found = err fetch_mint
  verify mint absent = err mint_not_found
  verify mint (found info) =
      if equal info.owner p.token_2022
      then err token_2022_mint
      else if not (equal info.owner p.spl_token)
          || not (length info.account_data == mint_account_size)
      then err not_spl_mint
      else state_of mint (p.decode_mint info.account_data)

  -- `verifySafe`
  unfoldable pub verify_safe : Bytes → Fetched → ℕ → ℕ → Result UnsafeMint (Unit {0})
  verify_safe mint answer supply decimals = do
    st ← wrap unproven (verify mint answer)
    check_safe st supply decimals

  -- `resolveUnconfirmed`: no error is the success of a mint that landed after all.
  unfoldable pub resolve_unconfirmed : Bytes → Fetched → ℕ → ℕ → Result Unresolved (Unit {0})
  resolve_unconfirmed mint answer supply decimals = do
    st ← wrap unreadable (verify mint answer)
    check_landed st supply decimals
