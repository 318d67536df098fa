-- ===== src/Solana/Base58.antt =====
-- `base58Decode` and `mustAddr` of solana/message.go, and the program addresses of solana/solana.go.
pub mod Value
use flynn_extensions.Prelude.{
  ℕ, zero, suc, ◌+◌, ◌*◌, ◌/◌, ◌%◌, ltb, ◌==◌, if◌then◌else◌, Option, none, some, List, [], ◌∷◌,
  ◌++◌, length, Bytes, codes, String,
}
use flynn_extensions.Prelude.Result.{Result, ok, err}
use flynn_extensions.Solana.Message.{addr_len}
use mathlib.Core.List.{reverse}

pub data Base58Error : Type 0 where
  not_base58 not_terminating : Base58Error

abbrev pub b58_alphabet : Bytes
b58_alphabet = codes "123456789ABCDEFGHJKLMNPQRSTUVWXYZabcdefghijkmnopqrstuvwxyz"

-- The loop over the alphabet: `i` is the index of the first character of the list.
unfoldable pub index_from : ℕ → ℕ → Bytes → Option ℕ
index_from c i [] = none
index_from c i (a ∷ alphabet) =
    let later = index_from c (i + 1) alphabet in if a == c then some i else later

-- `for i := range out`: what stands in `out` after the loop, and the carry.
unfoldable pub multiply : ℕ → Bytes → Bytes × ℕ
multiply carry [] = ([], carry)
multiply carry (x ∷ out) =
    let c = carry + 58 * x in let (rest, last) = multiply (c / 256) out in (c % 256 ∷ rest, last)

-- `for n := 0; carry > 0; n++`: the first argument is `addrLen - n`.
unfoldable pub flush : ℕ → ℕ → Bytes → Result Base58Error Bytes
flush zero carry out = if ltb 0 carry then err not_terminating else ok out
flush (suc k) carry out =
    let more = flush k (carry / 256) (out ++ carry % 256 ∷ []) in
    if ltb 0 carry then more else ok out

push_digit : Bytes → Option ℕ → Result Base58Error Bytes
push_digit out none = err not_base58
push_digit out (some idx) = let (out', carry) = multiply idx out in flush addr_len carry out'

-- `for _, c := range []byte(s)`
pub accumulate : Bytes → Bytes → Result Base58Error Bytes
accumulate out [] = ok out
accumulate out (c ∷ s) = elim (push_digit out (index_from c 0 b58_alphabet)) [
  | ok out' ↦ accumulate out' s
  | err e ↦ err e
]

-- Leading '1's are leading zero bytes.
unfoldable pub leading_ones : Bytes → Bytes
leading_ones [] = []
leading_ones (c ∷ s) = let more = leading_ones s in if c == b'1' then 0 ∷ more else []

unfoldable pub base58_decode : Bytes → Result Base58Error Bytes
unfolding accumulate push_digit leading_ones
base58_decode s = elim (accumulate [] s) [
  | ok out ↦ ok (reverse (out ++ leading_ones s))
  | err e ↦ err e
]

-- `none` is the panic.
unfoldable pub must_addr : Bytes → Option Bytes
must_addr s = elim (base58_decode s) [
  | ok b ↦ if length b == addr_len then some b else none
  | err e ↦ none
]
