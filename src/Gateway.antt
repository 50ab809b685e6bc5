-- ===== src/Gateway.antt =====
-- The backend gateway, apps/nyx-backend-gateway/src/nyx_backend_gateway: its tables and the
-- operations on them.
pub mod Monad
pub mod Validate
pub mod Wallet
pub mod Tables
pub mod Fields
pub mod Store
pub mod Keeps
pub mod Inserts
pub mod Transfers
pub mod Orders
pub mod Exchange
pub mod Evidence
pub mod SameElse
pub mod Marketplace
pub mod Faucet
pub mod Airdrop
pub mod Portal
pub mod Dispatch
pub mod Risk
