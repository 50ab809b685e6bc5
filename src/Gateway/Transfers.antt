-- ===== src/Gateway/Transfers.antt =====
-- `insert_wallet_transfer`, `apply_wallet_transfer`, `apply_wallet_faucet` and
-- `apply_wallet_faucet_with_fee` of storage.py, over the tables.
mod Defs
pub mod Laws
pub mod Grants
mod Tests
unfoldable pub use Defs.*
