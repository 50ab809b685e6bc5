-- ===== src/Gateway/Wallet.antt =====
-- The table `wallet_accounts` of storage.py, and the operations that move balances.
mod Rows
mod Access
mod Operations
pub mod Supply
pub mod Evaluate
pub mod Moves
pub mod Conservation
unfoldable pub use Rows.*
unfoldable pub use Access.*
unfoldable pub use Operations.*
