-- ===== src/Gateway/Risk.antt =====
-- risk.py: limits on the number and the amount of the requests of a window of time.
mod Engine
pub mod Bounds
mod Tests
unfoldable pub use Engine.*
