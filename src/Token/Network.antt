-- ===== src/Token/Network.antt =====
-- token/network.go and the network of token/engine.go: which cluster an engine runs against, and
-- whether its tokens are worth money.
use flynn_extensions.Prelude.{
  ◌≡◌, ◌↔◌, ◌⊎◌, inl, inr, refl, Bool, true, false, ◌||◌, not, if◌then◌else◌, Option, none, some,
  Bytes, codes, equal, equal-cases, Bool-cases, Option-cases,
}
use flynn_extensions.Token.Safety.{trim_space}

-- A network is its name.
abbrev pub Network : Type 0
Network = Bytes

abbrev pub mainnet : Network
mainnet = codes "mainnet"

abbrev pub devnet : Network
devnet = codes "devnet"

abbrev pub testnet : Network
testnet = codes "testnet"

abbrev pub localnet : Network
localnet = codes "localnet"

-- `Live`: whatever is not a known test cluster, the empty name too.
unfoldable pub live : Network → Bool
live n = not (equal n devnet || equal n testnet || equal n localnet)

abbrev pub mainnet_genesis : Bytes
mainnet_genesis = codes "5eykt4UsFv8P8NJdTREpY1vzqKqZKvdpKuc147dw2N9d"

abbrev pub devnet_genesis : Bytes
devnet_genesis = codes "EtWTRABZaYq6iMfeYKouRu166VU2xqa1wcaWoxPkrZBG"

abbrev pub testnet_genesis : Bytes
testnet_genesis = codes "4uhcVJyU9pJkvQyS88uRDiswHXSCkY3zQawwpjk2NsNY"

unfoldable pub classify_genesis : Bytes → Network
classify_genesis hash =
    let h = trim_space hash in
    if equal h devnet_genesis
    then devnet
    else if equal h testnet_genesis
    then testnet
    else if equal h mainnet_genesis
    then mainnet
    else mainnet

-- The network of an engine: `net` and `netPinned`.
pub record Cluster : Type 0 where
  pub net : Network
  pub net_pinned : Bool

-- `NewEngine` without options, and `WithNetwork`.
abbrev pub new_cluster : Cluster
new_cluster = record { net = mainnet; net_pinned = false }

abbrev pub with_network : Network → Cluster → Cluster
with_network n e = record e { net = n; net_pinned = true }

-- `resolveNetwork`, with the node's answer to `GetGenesisHash`, which fails or gives a hash.
unfoldable pub resolve_network : Option Bytes → Cluster → Cluster
resolve_network answer e = if e.net_pinned then e else elim answer [
  | none ↦ record e { net = mainnet }
  | some h ↦ record e { net = classify_genesis h }
]

-- The chain says that it is a test cluster.
abbrev pub IsTestGenesis : Bytes → Type 0
IsTestGenesis hash = (trim_space hash ≡ devnet_genesis) ⊎ (trim_space hash ≡ testnet_genesis)

mainnet-live : live mainnet ≡ true
unfolding live equal
mainnet-live = refl

if_same : (b : Bool) → (if b then mainnet else mainnet) ≡ mainnet
if_same true = refl
if_same false = refl

classify_genesis-live : (hash : Bytes) → (live (classify_genesis hash) ≡ false) ↔ IsTestGenesis hash
unfolding classify_genesis live equal
classify_genesis-live hash = elim (equal-cases (trim_space hash) devnet_genesis) [
  | inl (found, same) ↦ (λ h. inl same, λ h. rw found refl)
  | inr (other, differ) ↦ elim (equal-cases (trim_space hash) testnet_genesis) [
    | inl (found, same) ↦ (λ h. inr same, λ h. rw (other, found) refl)
    | inr (neither, apart) ↦ (
      λ h. (let now = rw (other, neither, if_same) at h in cc),
      λ h. elim h [ inl e ↦ elim (differ e) [ ] | inr e ↦ elim (apart e) [ ] ],
    )
  ]
]

-- Only two things relax the rules for money: a caller who pinned a test cluster, or, where nobody
-- pinned one, a node that answers with the genesis hash of devnet or of testnet.
pub resolve_network-live :
    (answer : Option Bytes) (e : Cluster)
    → (live (resolve_network answer e).net ≡ false) ↔ (
        ((e.net_pinned ≡ true) × (live e.net ≡ false))
        ⊎ ((e.net_pinned ≡ false) × (hash : Bytes) × (answer ≡ some hash) × IsTestGenesis hash))
unfolding resolve_network
resolve_network-live answer e = elim (Bool-cases e.net_pinned) [
  | inl pinned ↦
      rw pinned (λ h. inl (refl, h), λ h. elim h [ inl (p, h) ↦ h | inr (p, hash, told, h) ↦ cc ])
  | inr free ↦ rw free (elim (Option-cases answer) [
    | inl failed ↦ rw failed (
      λ h. (let now : live mainnet ≡ true = mainnet-live in cc),
      λ h. elim h [ inl (p, h) ↦ cc | inr (p, hash, e, h) ↦ cc ],
    )
    | inr (hash, told) ↦ rw told (
      λ h. inr (refl, hash, refl, (classify_genesis-live hash).0 h),
      λ h. elim h [
        | inl (p, h) ↦ cc
        | inr (p, hash', e, h) ↦
            (let same : hash ≡ hash' = cc in (classify_genesis-live hash).1 (rw same h))
      ],
    )
  ])
]
