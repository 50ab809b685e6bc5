-- ===== src/Gateway/Portal.antt =====
-- portal.py: accounts, the challenges that their owners sign, and sessions.
mod Tables
mod Defs
pub mod Login
pub mod Challenges
mod Tests
unfoldable pub use Tables.*
unfoldable pub use Defs.*
