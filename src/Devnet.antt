-- ===== src/Devnet.antt =====
-- packages/l1-chain: devnet/adapter.py, an in-memory chain, and the parts of types.py and hashing.py
-- that it uses.
mod Payload
mod Chain
pub mod Encoding
pub mod Blocks
pub mod Merkle
mod Tests
unfoldable pub use Payload.*
unfoldable pub use Chain.*
