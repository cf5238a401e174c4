-- ===== src/Security/Keystore/RoundTrip.antt =====
-- A seed stored by src/security/session-keystore.ts comes back from the device after a lock.
use stellartimelock_core.Common.{
  String, Bool, ap, not, ◌≢◌, true, ◌≡◌, inl, inr, none, some, arith, str_eq_iff, ◌∙◌,
}
use stellartimelock_core.Common.Dict.{lookup}
use stellartimelock_core.Common.Action.{ok, Result-cases}
use stellartimelock_core.Security.Keystore.{
  Keystore, secret_key_for, auth_flag_key, auth_prompt, cached_seed, get_wallet_seed, read_through,
  read_migrated, read_legacy, set_wallet_seed, lock_now, remove_wallet_seed, is_unlocked,
}
use stellartimelock_core.Security.Keystore.Storage.{Device, IsLawful}
use stellartimelock_core.Security.Keystore.Notify.{lock_now_lem}
use stellartimelock_core.Security.Keystore.Cache.{get_wallet_seed-Reads, removal_clears}

module _ {S : Type 0} (d : Device S) (law : IsLawful d) where
  set_wallet_seed-secret :
      (id seed : String) (ks : Keystore S)
      → (set_wallet_seed d id seed ks).0 ≡ ok true
      → law.secret (set_wallet_seed d id seed ks).1.device (secret_key_for id) ≡ seed
  unfolding set_wallet_seed
  set_wallet_seed-secret id seed ks h = grind (
    arith,
    law.secure_set_authenticated_law (secret_key_for id) seed auth_prompt ks.device,
    law.set_item_law,
    law.secure_set_law,
  )

  read_migrated-secret :
      (was_locked : Bool) (id x : String) (ks : Keystore S)
      → (read_migrated d was_locked id ks).0 ≡ ok (some x)
      → x ≡ law.secret ks.device (secret_key_for id)
  unfolding read_migrated
  read_migrated-secret was_locked id x ks h = grind (
    arith,
    str_eq_iff,
    law.secure_get_authenticated_law (secret_key_for id) auth_prompt ks.device,
  )

  read_legacy-secret :
      (was_locked : Bool) (id x : String) (ks : Keystore S)
      → (read_legacy d was_locked id ks).0 ≡ ok (some x)
      → x ≡ law.secret ks.device (secret_key_for id)
  unfolding read_legacy
  read_legacy-secret was_locked id x ks h =
      grind (arith, str_eq_iff, law.secure_get_law (secret_key_for id) ks.device)

  read_through-secret :
      (id x : String) (ks : Keystore S)
      → (read_through d id ks).0 ≡ ok (some x)
      → x ≡ law.secret ks.device (secret_key_for id)
  unfolding read_through is_unlocked
  read_through-secret id x ks h = elim (Result-cases (d.get_item (auth_flag_key id) ks.device).0) [
    | inl (migrated, e) ↦
        let kept = law.get_item_law (auth_flag_key id) ks.device e in
        let ks' = record ks { device = (d.get_item (auth_flag_key id) ks.device).1 } in
        ground (
          arith,
          ap (λ (f : String → String). f (secret_key_for id)) kept.2,
          read_migrated-secret (not (is_unlocked ks)) id x ks',
          read_legacy-secret (not (is_unlocked ks)) id x ks',
        )
    | inr (e, failed) ↦ ground arith
  ]

  get_wallet_seed_miss :
      (id : String) (ks : Keystore S)
      → cached_seed id ks.session_cache ≡ none
      → get_wallet_seed d id ks ≡ read_through d id ks
  unfolding get_wallet_seed
  get_wallet_seed_miss id ks e = rw (e, get_wallet_seed)

  cached_seed_after_lock :
      (id : String) (ks : Keystore S) → cached_seed id (lock_now ks).session_cache ≡ none
  unfolding lookup
  cached_seed_after_lock id ks = rw ((lock_now_lem ks).0)

  -- After a store that reported success and a lock, a read returns that seed or none: whether it
  -- was kept behind the platform's authentication or, that failing, without it, and whether or not
  -- the wallet was stored in the old layout before. The stores are assumed to be lawful.
  pub set-lock-get :
      (id seed x : String) (ks : Keystore S)
      → (set_wallet_seed d id seed ks).0 ≡ ok true
      → (get_wallet_seed d id (lock_now (set_wallet_seed d id seed ks).1)).0 ≡ ok (some x)
      → x ≡ seed
  set-lock-get id seed x ks stored read =
      let stored_at = (set_wallet_seed d id seed ks).1 in
      read_through-secret id x (lock_now stored_at) (
        rw (get_wallet_seed_miss id (lock_now stored_at) (cached_seed_after_lock id stored_at)) at
          read)
      ∙ ap (λ s. law.secret s (secret_key_for id)) (lock_now_lem stored_at).2
      ∙ set_wallet_seed-secret id seed ks stored

  remove_wallet_seed-secret :
      (id : String) (ks : Keystore S)
      → (remove_wallet_seed d id ks).0 ≡ ok tt
      → law.secret (remove_wallet_seed d id ks).1.device (secret_key_for id) ≡ ""
  unfolding remove_wallet_seed
  remove_wallet_seed-secret id ks h =
      grind (arith, law.secure_remove_law (secret_key_for id) ks.device, law.remove_item_law)

  -- After a removal that was not rejected, a read returns no seed. The stores are assumed to be
  -- lawful.
  pub remove-get :
      (id x : String) (ks : Keystore S)
      → (remove_wallet_seed d id ks).0 ≡ ok tt
      → (get_wallet_seed d id (remove_wallet_seed d id ks).1).0 ≢ ok (some x)
  remove-get id x ks removed read =
      let ks' = (remove_wallet_seed d id ks).1 in
      let miss : cached_seed id ks'.session_cache ≡ none =
        rw ((removal_clears d id ks).0, cached_seed) in
      let reads = get_wallet_seed-Reads d id ks' in
      let nonempty : (x ≢ "") × (lookup id (get_wallet_seed d id ks').1.session_cache ≡ some x) =
        rw read at reads in
      nonempty.0 (
        read_through-secret id x ks' (rw (get_wallet_seed_miss id ks' miss) at read)
        ∙ remove_wallet_seed-secret id ks removed)
