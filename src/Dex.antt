-- ===== src/Dex.antt =====
-- The constant-product exchange of packages/l3-dex: state, actions, invariants and kernel.
-- Python's integers are ℤ; texts are native strings.
mod State
mod Kernel
pub mod Pools
pub mod Invariant
pub mod Actions
mod Tests
pub use State.*
unfoldable pub use Kernel.*
