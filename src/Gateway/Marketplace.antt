-- ===== src/Gateway/Marketplace.antt =====
-- marketplace.py: listings are published for a fee, and bought once.
mod Defs
pub mod Sales
pub mod Purchases
pub mod History
mod Tests
unfoldable pub use Defs.*
