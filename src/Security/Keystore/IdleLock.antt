-- ===== src/Security/Keystore/IdleLock.antt =====
-- The idle-lock heartbeat of src/security/session-keystore.ts.
pub mod Limits
use stellartimelock_core.Common.{
  ℕ, ◌-◌, ◌*◌, Bool, true, false, Option, none, some, leb, if◌then◌else◌,
}
use stellartimelock_core.Security.Keystore.{Keystore, lock_now}
use stellartimelock_core.Security.Keystore.Storage.{Device}

abbrev pub idle_lock_ms : ℕ
idle_lock_ms = 5 * 60 * 1000

-- React Native's `AppStateStatus`
pub data AppStateStatus : Type 0 where
  active background inactive unknown extension : AppStateStatus

module _ {S : Type 0} (d : Device S) where
  -- `Date.now() - at` below zero is below the limit too, as 0 is.
  pub idle_since : ℕ → Keystore S → Bool
  idle_since at ks = leb idle_lock_ms (d.now ks.device - at)

  -- `next === "active" && _backgroundedAtMs != null`
  pub resume : Option ℕ → Keystore S → Keystore S
  unfolding idle_since
  resume none ks = ks
  resume (some at) ks =
      let ks' = record ks { backgrounded_at_ms = none } in
      if idle_since at ks then lock_now ks' else ks'

  pub check_activity : Keystore S → Keystore S
  unfolding idle_since
  check_activity ks = if idle_since ks.last_activity_ms ks then lock_now ks else ks

  pub on_change : AppStateStatus → Keystore S → Keystore S
  unfolding resume check_activity
  on_change background ks = record ks { backgrounded_at_ms = some (d.now ks.device) }
  on_change inactive ks = record ks { backgrounded_at_ms = some (d.now ks.device) }
  on_change active ks = check_activity (resume ks.backgrounded_at_ms ks)
  on_change _ ks = check_activity ks

module _ {S : Type 0} where
  -- The first call adds the listener whose body is `on_change`; a later one returns at once.
  pub install_idle_lock : Keystore S → Keystore S
  install_idle_lock ks = if ks.app_state_sub then ks else record ks { app_state_sub = true }

  pub uninstall_idle_lock : Keystore S → Keystore S
  uninstall_idle_lock ks = record ks { app_state_sub = false; backgrounded_at_ms = none }
