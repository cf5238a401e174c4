-- ===== src/Security/Keystore/Tests.antt =====
-- src/security/session-keystore.ts on a device that keeps its stores in memory.
use stellartimelock_core.Common.{
  ℕ, String, Bool, true, false, ◌≡◌, ◌≢◌, refl, none, some, [], ◌∷◌, inl, str_eq, str_eq_iff,
  str_eq_refl, if◌then◌else◌, arith,
}
use stellartimelock_core.Common.Action.{ok}
use stellartimelock_core.Common.Dict.{lookup, insert, erase}
use stellartimelock_core.Security.Keystore.{
  Keystore, get_wallet_seed, read_through, read_migrated, set_wallet_seed, set_plain,
  remove_wallet_seed, lock_now, wipe_entries, wipe_cache_entry, is_unlocked, cache_seed, touch,
  notify_lock_change, secret_key_for, auth_flag_key,
}
use stellartimelock_core.Security.Keystore.Storage.{Device, IsLawful}
use stellartimelock_core.Security.Keystore.Notify.{IsNotified, operations-IsNotified}
use stellartimelock_core.Security.Keystore.RoundTrip.{set-lock-get, remove-get}
use stellartimelock_core.Security.Keystore.IdleLock.{on_change, active}
use stellartimelock_core.Security.Keystore.IdleLock.Limits.{IsOverdue, on_change_active}

pub record Store : Type 0 where
  pub clock : ℕ
  pub flag : String → Bool
  pub secret : String → String

abbrev pub put : {V : Type 0} → String → V → (String → V) → String → V
put k v f j = if str_eq k j then v else f j

-- The platform's authentication is there or not.
abbrev pub memory : Bool → Device Store
memory can_authenticate = record {
  now = λ s. s.clock;
  get_item = λ k s. (ok (s.flag k), s);
  set_item = λ k b s. (ok tt, record s { flag = put k b s.flag });
  remove_item = λ k s. (ok tt, record s { flag = put k false s.flag });
  secure_get = λ k s. (ok (s.secret k), s);
  secure_get_authenticated = λ k p s. (ok (if can_authenticate then s.secret k else ""), s);
  secure_set = λ k v s. (ok true, record s { secret = put k v s.secret });
  secure_set_authenticated = λ k v p s.
      (ok can_authenticate, if can_authenticate then record s { secret = put k v s.secret } else s);
  secure_remove = λ k s. (ok tt, record s { secret = put k "" s.secret });
}

memory-IsLawful : (can_authenticate : Bool) → IsLawful (memory can_authenticate)
memory-IsLawful can = record {
  flag = λ s. s.flag;
  secret = λ s. s.secret;
  get_item_law = λ k s h. ground arith;
  set_item_law = λ k b s h. (ground (arith, str_eq_refl k), refl);
  remove_item_law = λ k s h. (ground (arith, str_eq_refl k), refl);
  secure_get_law = λ k s h. ground arith;
  secure_get_authenticated_law = λ k p s h. ground arith;
  secure_set_law = λ k v s h. ground (arith, str_eq_refl k);
  secure_set_authenticated_law = λ k v p s h. ground (arith, str_eq_refl k);
  secure_remove_law = λ k s h. ground (arith, str_eq_refl k);
}

abbrev pub fresh : Keystore Store
fresh = record {
  session_cache = [];
  lock_listeners = 7 ∷ 8 ∷ [];
  calls = [];
  last_activity_ms = 0;
  app_state_sub = false;
  backgrounded_at_ms = none;
  device = record { clock = 1000; flag = λ _. false; secret = λ _. "" };
}

abbrev pub unlocked : Keystore Store
unlocked = record fresh { session_cache = ("w", "SEED") ∷ [] }

-- The app has been in the background for six minutes.
abbrev away : Keystore Store
away = record unlocked {
  backgrounded_at_ms = some 0;
  device = record unlocked.device { clock = 360000 };
}

cached_after_set :
    (set_wallet_seed (memory true) "w" "SEED" fresh).1.session_cache ≡ ("w", "SEED") ∷ []
unfolding set_wallet_seed cache_seed touch notify_lock_change insert
cached_after_set = refl

listeners_called_by_set : (set_wallet_seed (memory false) "w" "SEED" fresh).1.calls ≡ 7 ∷ 8 ∷ []
unfolding set_wallet_seed set_plain cache_seed touch notify_lock_change is_unlocked
listeners_called_by_set = refl

set_is_stored : (set_wallet_seed (memory true) "w" "SEED" fresh).0 ≡ ok true
unfolding set_wallet_seed
set_is_stored = refl

read_after_lock :
    (get_wallet_seed
      (memory true)
      "w"
      (lock_now (set_wallet_seed (memory true) "w" "SEED" fresh).1)).0
    ≡ ok (some "SEED")
unfolding get_wallet_seed read_through read_migrated set_wallet_seed lock_now wipe_entries
    wipe_cache_entry cache_seed touch notify_lock_change is_unlocked insert erase lookup
    secret_key_for auth_flag_key
read_after_lock = refl

set-lock-get_example : ◌≡◌ {A = String} "SEED" "SEED"
set-lock-get_example =
    set-lock-get (memory true) (memory-IsLawful true) "w" "SEED" "SEED" fresh set_is_stored
      read_after_lock

removed : (remove_wallet_seed (memory true) "w" unlocked).0 ≡ ok tt
unfolding remove_wallet_seed
removed = refl

remove-get_example :
    (get_wallet_seed (memory true) "w" (remove_wallet_seed (memory true) "w" unlocked).1).0
    ≢ ok (some "SEED")
remove-get_example = remove-get (memory true) (memory-IsLawful true) "w" "SEED" unlocked removed

other_wallet : ◌≢◌ {A = String} "w" "v"
other_wallet = ground (arith, str_eq_iff "w" "v")

operations-IsNotified_example :
    IsNotified fresh (get_wallet_seed (memory true) "w" fresh).1
    × IsNotified fresh (set_wallet_seed (memory true) "w" "SEED" fresh).1
    × IsNotified fresh (lock_now fresh)
operations-IsNotified_example = operations-IsNotified (memory true) "w" "SEED" fresh

overdue : IsOverdue (memory true) away
overdue = inl (0, refl, ground arith)

on_change_active_example :
    (IsOverdue (memory true) away → (on_change (memory true) active away).session_cache ≡ [])
    × (¬ (IsOverdue (memory true) away)
        → on_change (memory true) active away ≡ record away { backgrounded_at_ms = none })
on_change_active_example = on_change_active (memory true) away

locks_after_six_minutes : (on_change (memory true) active away).session_cache ≡ []
locks_after_six_minutes = (on_change_active (memory true) away).0 overdue
