-- ===== src/Gateway/Dispatch.antt =====
-- gateway.py: the requests of the exchange in `execute_run`.
mod Defs
pub mod Orders
mod Tests
unfoldable pub use Defs.*
