-- ===== src/Wallet.antt =====
-- src/wallet: the balance and the payments of an account, as Horizon has them.
pub mod Horizon
