-- ===== src/Token.antt =====
-- token/: the safety policy of a mint, the brands it protects, the numbers and bytes of a mint, the engine
-- that makes it, and the session in which the engine runs.
mod Runs
pub mod Amount
pub mod Atomic
pub mod Mint
pub mod Network
pub mod Create
pub mod Engine
pub mod Ledger
pub mod Verify
pub mod Safety
pub mod Host
pub mod Impersonation
pub mod Samples
pub mod Session
