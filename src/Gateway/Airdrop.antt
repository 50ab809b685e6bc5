-- ===== src/Gateway/Airdrop.antt =====
-- airdrop.py: rewards for tasks that an account has completed.
mod Defs
pub mod Claims
pub mod Listing
pub mod Rewards
pub mod Once
pub mod Tasks
mod Tests
unfoldable pub use Defs.*
