-- ===== src/Security/Keystore/IdleLock/Limits.antt =====
-- The idle lock of src/security/session-keystore.ts: which changes of the app state lock.
use stellartimelock_core.Common.{
  ℕ, ◌-◌, ◌≤◌, ◌≡◌, ◌⊎◌, none, some, [], arith, inl, inr, Option-cases,
}
use stellartimelock_core.Security.Keystore.{Keystore}
use stellartimelock_core.Security.Keystore.Storage.{Device}
use stellartimelock_core.Security.Keystore.Notify.{lock_now_lem}
use stellartimelock_core.Security.Keystore.IdleLock.{active, idle_lock_ms, on_change}

-- The app spent at least the limit in the background, or the cache was not used for as long.
abbrev pub IsOverdue : {S : Type 0} → Device S → Keystore S → Type 0
IsOverdue d ks =
    ((at : ℕ) × (ks.backgrounded_at_ms ≡ some at) × (idle_lock_ms ≤ d.now ks.device - at))
    ⊎ (idle_lock_ms ≤ d.now ks.device - ks.last_activity_ms)

module _ {S : Type 0} (d : Device S) where
  overdue_locks : (ks : Keystore S) → IsOverdue d ks → (on_change d active ks).session_cache ≡ []
  unfolding on_change
  overdue_locks ks late = grind (arith, lock_now_lem)

  early_keeps :
      (ks : Keystore S)
      → ¬ (IsOverdue d ks)
      → on_change d active ks ≡ record ks { backgrounded_at_ms = none }
  unfolding on_change
  early_keeps ks early =
      let used : ¬ (idle_lock_ms ≤ d.now ks.device - ks.last_activity_ms) = λ h. early (inr h) in
      elim (Option-cases ks.backgrounded_at_ms) [
        | inl never ↦ ground arith
        | inr (at, e) ↦
            let away : ¬ (idle_lock_ms ≤ d.now ks.device - at) = λ h. early (inl (at, e, h)) in
            ground arith
      ]

  -- Coming back to the foreground empties the cache if the idle limit has passed, in the background
  -- or since the last use; otherwise it changes nothing but to forget when the app went away.
  pub on_change_active :
      (ks : Keystore S)
      → (IsOverdue d ks → (on_change d active ks).session_cache ≡ [])
        × (¬ (IsOverdue d ks) → on_change d active ks ≡ record ks { backgrounded_at_ms = none })
  on_change_active ks = (overdue_locks ks, early_keeps ks)
