-- ===== src/Security.antt =====
-- src/security: the wallet-seed session cache and the memory wiping helpers.
pub mod Biometric
pub mod Keystore
pub mod Wipe
