-- ===== src/Stellar.antt =====
-- packages/node/src/stellar: the clients of the Horizon and the Soroban RPC server, and the filters.
pub mod Soroban
pub mod Utils
pub mod Block
pub mod Api
pub mod SafeApi
pub mod Service
pub mod Connection
