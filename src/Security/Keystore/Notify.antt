-- ===== src/Security/Keystore/Notify.antt =====
-- When the lock listeners of src/security/session-keystore.ts are called.
use stellartimelock_core.Common.{
  String, Bool, true, false, ◌≡◌, refl, [], ◌∷◌, ◌++◌, arith, if◌then◌else◌, not, str_eq_refl,
}
use stellartimelock_core.Common.Dict.{Dict, insert, erase, lookup}
use stellartimelock_core.Security.Keystore.{
  Keystore, is_empty, is_unlocked, cache_seed, read_migrated, read_legacy, read_through,
  get_wallet_seed, set_wallet_seed, lock_now, wipe_cache_entry, drop_wallet, wipe_entries,
}
use stellartimelock_core.Security.Keystore.Storage.{Device}

abbrev pub same : Bool → Bool → Bool
same true b = b
same false b = not b

-- From `ks` to `ks'` every listener was called once if the cache has turned from empty to
-- non-empty or back, and none otherwise.
pub record IsNotified {S : Type 0} (ks ks' : Keystore S) : Type 0 where
  pub exact : ks'.calls ≡ (
      if same (is_unlocked ks) (is_unlocked ks') then ks.calls else ks.calls ++ ks.lock_listeners)
  pub listeners : ks'.lock_listeners ≡ ks.lock_listeners

pub is_empty-insert : (id v : String) (c : Dict String) → is_empty (insert id v c) ≡ false
unfolding insert
is_empty-insert id v [] = refl
is_empty-insert id v (e ∷ c) = ground arith

module _ {S : Type 0} (d : Device S) where
  cache_seed-IsNotified :
      (id seed : String) (ks : Keystore S)
      → IsNotified ks (cache_seed d (not (is_unlocked ks)) id seed ks)
  unfolding cache_seed is_unlocked
  cache_seed-IsNotified id seed ks = ground (arith, is_empty-insert id seed ks.session_cache)

  read_migrated-IsNotified :
      (id : String) (ks : Keystore S)
      → IsNotified ks (read_migrated d (not (is_unlocked ks)) id ks).1
  unfolding read_migrated is_unlocked
  read_migrated-IsNotified id ks = grind (arith, is_empty-insert)

  read_legacy-IsNotified :
      (id : String) (ks : Keystore S) → IsNotified ks (read_legacy d (not (is_unlocked ks)) id ks).1
  unfolding read_legacy is_unlocked
  read_legacy-IsNotified id ks = grind (arith, is_empty-insert)

  get_wallet_seed-IsNotified :
      (id : String) (ks : Keystore S) → IsNotified ks (get_wallet_seed d id ks).1
  unfolding get_wallet_seed read_through read_migrated read_legacy is_unlocked
  get_wallet_seed-IsNotified id ks = grind (arith, is_empty-insert)

  set_wallet_seed-IsNotified :
      (id seed : String) (ks : Keystore S) → IsNotified ks (set_wallet_seed d id seed ks).1
  unfolding set_wallet_seed is_unlocked
  set_wallet_seed-IsNotified id seed ks = grind (arith, is_empty-insert)

module _ {S : Type 0} where
  -- Wiping the entries calls no listener and leaves the device alone.
  wipe_entries_calls :
      (entries : Dict String) (ks : Keystore S)
      → ((wipe_entries entries ks).calls ≡ ks.calls)
        × ((wipe_entries entries ks).lock_listeners ≡ ks.lock_listeners)
        × ((wipe_entries entries ks).device ≡ ks.device)
  unfolding wipe_entries
  wipe_entries_calls [] ks = (refl, refl, refl)
  wipe_entries_calls ((k, v) ∷ entries) ks = wipe_entries_calls entries (wipe_cache_entry k ks)

  lock_now-IsNotified : (ks : Keystore S) → IsNotified ks (lock_now ks)
  unfolding lock_now
  lock_now-IsNotified ks = ground (arith, wipe_entries_calls ks.session_cache ks)

  -- Locking empties the cache, does nothing to the device, and calls each listener once if the
  -- cache held a seed, none otherwise.
  pub lock_now_lem :
      (ks : Keystore S)
      → ((lock_now ks).session_cache ≡ [])
        × (is_unlocked (lock_now ks) ≡ false)
        × ((lock_now ks).device ≡ ks.device)
        × ((lock_now ks).calls
            ≡ (if is_unlocked ks then ks.calls ++ ks.lock_listeners else ks.calls))
  unfolding lock_now
  lock_now_lem ks = ground (arith, wipe_entries_calls ks.session_cache ks)

  -- Dropping the wallet that holds the only cached seed locks the session and calls no listener.
  drop_wallet_silent :
      (id seed : String) (ks : Keystore S)
      → ks.session_cache ≡ (id, seed) ∷ []
      → (is_unlocked ks ≡ true)
        × (is_unlocked (drop_wallet id ks) ≡ false)
        × ((drop_wallet id ks).calls ≡ ks.calls)
  unfolding drop_wallet is_unlocked insert erase lookup
  drop_wallet_silent id seed ks h = grind (arith, str_eq_refl)

-- A read or store that began while a seed was cached, and gets its seed after a lock has run, puts
-- the seed back into the cache and calls no listener: they were last told that the session locked.
cache_seed-lock_now :
    {S : Type 0} (d : Device S) (id seed : String) (ks : Keystore S)
    → (is_unlocked (lock_now ks) ≡ false)
      × (is_unlocked (cache_seed d false id seed (lock_now ks)) ≡ true)
      × ((cache_seed d false id seed (lock_now ks)).calls ≡ (lock_now ks).calls)
unfolding cache_seed is_unlocked
cache_seed-lock_now d id seed ks =
    ground (arith, lock_now_lem ks, is_empty-insert id seed (lock_now ks).session_cache)

-- Reading a seed, storing one and locking call every lock listener once if the operation has turned
-- the cache from empty to non-empty or back, and call none otherwise, whatever the device answers.
pub operations-IsNotified :
    {S : Type 0} (d : Device S) (id seed : String) (ks : Keystore S)
    → IsNotified ks (get_wallet_seed d id ks).1
      × IsNotified ks (set_wallet_seed d id seed ks).1
      × IsNotified ks (lock_now ks)
operations-IsNotified d id seed ks = (
  get_wallet_seed-IsNotified d id ks,
  set_wallet_seed-IsNotified d id seed ks,
  lock_now-IsNotified ks,
)
