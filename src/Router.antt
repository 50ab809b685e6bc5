-- ===== src/Router.antt =====
-- The swap router of packages/l3-router over the pools of packages/l3-dex.
mod State
mod Price
mod Kernel
mod Replay
pub mod Swaps
pub mod Routes
pub mod Receipts
mod Tests
pub use State.*
pub use Price.*
unfoldable pub use Kernel.*
unfoldable pub use Replay.*
