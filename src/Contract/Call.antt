-- ===== src/Contract/Call.antt =====
-- The calls of contracts/xlm_vault/src/lib.rs that change its state, by name.
use stellartimelock_core.Common.{ℕ, String}
use stellartimelock_core.Common.Int.{ℤ}
use stellartimelock_core.Contract.Host.{Address}

pub data Call : Type 0 where
  init : Address → Call
  create_vault : Address → String → ℤ → ℕ → Call
  deposit : Address → ℕ → ℤ → Call
  extend_lock : Address → ℕ → ℕ → Call
  withdraw : Address → ℕ → Call
