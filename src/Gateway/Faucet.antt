-- ===== src/Gateway/Faucet.antt =====
-- `execute_wallet_faucet_v1` of gateway.py: test tokens, with limits for an account and for an IP.
mod Defs
pub mod Claims
pub mod Counts
pub mod Windows
mod Tests
unfoldable pub use Defs.*
