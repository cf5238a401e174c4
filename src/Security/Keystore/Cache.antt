-- ===== src/Security/Keystore/Cache.antt =====
-- What each operation of src/security/session-keystore.ts does to the session cache.
use stellartimelock_core.Common.{String, true, ◌≡◌, ◌≢◌, Option, none, some, arith, str_eq_iff}
use stellartimelock_core.Common.Dict.{lookup, lookup-insert, lookup-insert_self, lookup-erase}
use stellartimelock_core.Common.Action.{Result, ok, err}
use stellartimelock_core.Security.Keystore.{
  Keystore, get_wallet_seed, set_wallet_seed, remove_wallet_seed, drop_wallet, read_through,
  read_migrated, read_legacy,
}
use stellartimelock_core.Security.Keystore.Storage.{Device, Rejection}

-- What the cache holds after a read of `id` that ended so.
abbrev pub Reads :
    {S : Type 0} → String → Keystore S → Result Rejection (Option String) → Keystore S → Type 0
Reads id ks (ok (some x)) ks' = (x ≢ "") × (lookup id ks'.session_cache ≡ some x)
Reads id ks (ok none) ks' = ks'.session_cache ≡ ks.session_cache
Reads id ks (err e) ks' = ks'.session_cache ≡ ks.session_cache

module _ {S : Type 0} (d : Device S) where
  -- A seed that is returned is not empty and is cached under the wallet's id; after `null` or a
  -- rejected promise the cache is as it was.
  pub get_wallet_seed-Reads :
      (id : String) (ks : Keystore S)
      → Reads id ks (get_wallet_seed d id ks).0 (get_wallet_seed d id ks).1
  unfolding get_wallet_seed read_through read_migrated read_legacy
  get_wallet_seed-Reads id ks = grind (arith, lookup-insert_self, str_eq_iff)

  -- A seed that was stored is what the next read returns, and that read asks nothing of the device.
  get-set :
      (id seed : String) (ks : Keystore S)
      → seed ≢ ""
      → (set_wallet_seed d id seed ks).0 ≡ ok true
      → let ks' = (set_wallet_seed d id seed ks).1 in
        ((get_wallet_seed d id ks').0 ≡ ok (some seed))
        × ((get_wallet_seed d id ks').1.device ≡ ks'.device)
  unfolding get_wallet_seed read_through read_migrated read_legacy set_wallet_seed
  get-set id seed ks ne h = grind (arith, lookup-insert_self, str_eq_iff seed "")

  -- No operation on one wallet changes what is cached for another.
  operations_frame :
      (id j seed : String) (ks : Keystore S)
      → id ≢ j
      → (lookup j (get_wallet_seed d id ks).1.session_cache ≡ lookup j ks.session_cache)
        × (lookup j (set_wallet_seed d id seed ks).1.session_cache ≡ lookup j ks.session_cache)
        × (lookup j (remove_wallet_seed d id ks).1.session_cache ≡ lookup j ks.session_cache)
        × (lookup j (drop_wallet id ks).session_cache ≡ lookup j ks.session_cache)
  unfolding get_wallet_seed read_through read_migrated read_legacy set_wallet_seed
      remove_wallet_seed drop_wallet
  operations_frame id j seed ks ne = (
    grind (arith, lookup-insert, str_eq_iff id j),
    grind (arith, lookup-insert, str_eq_iff id j),
    grind (arith, lookup-insert, lookup-erase, str_eq_iff id j),
    grind (arith, lookup-insert, lookup-erase, str_eq_iff id j),
  )

  -- After a removal, rejected or not, and after a drop, nothing is cached for the wallet.
  pub removal_clears :
      (id : String) (ks : Keystore S)
      → (lookup id (remove_wallet_seed d id ks).1.session_cache ≡ none)
        × (lookup id (drop_wallet id ks).session_cache ≡ none)
  unfolding remove_wallet_seed drop_wallet
  removal_clears id ks =
      (grind (arith, lookup-erase, str_eq_iff id id), grind (arith, lookup-erase, str_eq_iff id id))
