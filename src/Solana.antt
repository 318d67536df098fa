-- ===== src/Solana.antt =====
-- solana/: the policy half of the signer. It reads a transaction message and approves or refuses it.
pub mod Reader
pub mod Message
pub mod Base58
pub mod Policy
pub mod Runs
