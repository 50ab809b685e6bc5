-- ===== src/Reputation.antt =====
-- packages/l0-reputation: hashing.py, events.py, state.py, kernel.py.
mod Events
pub mod Scores
mod Tests
unfoldable pub use Events.*
