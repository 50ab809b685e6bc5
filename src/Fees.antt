-- ===== src/Fees.antt =====
-- The fees: packages/l2-economics (fee.py, quote.py, engine.py), packages/l2-platform-fee
-- (types.py, fee_hook.py) and the gateway's fees.py.
mod Vector
mod Canonical
mod Action
mod Engine
mod Platform
mod Route
pub mod Laws
pub mod Charges
mod Tests
unfoldable pub use Vector.*
unfoldable pub use Canonical.*
unfoldable pub use Action.*
unfoldable pub use Engine.*
unfoldable pub use Platform.*
unfoldable pub use Route.*
