-- ===== src/Api.antt =====
-- src/api: the Soroban client and its error types.
pub mod Errors
pub mod Failover
pub mod Network
pub mod Invoke
pub mod Vault
pub mod Events
pub mod Session
pub mod Wake
pub mod Metadata
pub mod History
pub mod Read
pub mod Write
pub mod Listing
pub mod Single
mod Tests
