-- ===== src/Gateway/Exchange.antt =====
-- exchange.py: the order book. A new order is matched against the open orders of the other side,
-- at the makers' prices.
mod Book
mod Matching
mod Place
mod Loop
pub mod Fills
pub mod Money
pub mod Atomic
pub mod Blocked
mod Tests
unfoldable pub use Book.*
unfoldable pub use Matching.*
unfoldable pub use Place.*
