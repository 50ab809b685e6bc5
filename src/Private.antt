-- ===== src/Private.antt =====
-- packages/l2-private-ledger: types.py, state.py, actions.py, kernel.py, trace.py.
mod Ledger
pub mod Spends
pub mod Replay
mod Tests
unfoldable pub use Ledger.*
