-- ===== src/Api/Metadata/Hydrated.antt =====
-- What a hydration of the metadata in src/api/soroban-client.ts writes.
use stellartimelock_core.Common.{
  ℕ, suc, ◌+◌, String, ◌≡◌, refl, ap, ◌∙◌, Bool, true, false, List, [], ◌∷◌, length, or_else,
  if◌then◌else◌, str_eq, str_eq_iff, arith,
}
use stellartimelock_core.Common.Dict.{lookup, lookup-insert, lookup-insert_self}
use stellartimelock_core.Api.Vault.{VaultMeta, RemoteMeta, empty_meta}
use stellartimelock_core.Api.Metadata.{
  Answer, threw, not_ok, rows, Metas, meta_key, load_meta, save_meta_local, save_meta,
  mirror_meta_to_backend, meta_of_remote, is_stub, hydrate_one, hydrate_all, hydrate_meta_impl,
  hydrate_meta_from_backend, force_sync_meta_from_backend,
}

module _ {A : Type 0} (owner : String) where
  -- A write shows under its key and no other.
  pub load_meta-save :
      (vault_id other : String) (m : VaultMeta A) (s : Metas A)
      → load_meta owner other (save_meta_local owner vault_id m s) ≡ (
          if str_eq (meta_key owner vault_id) (meta_key owner other)
          then m
          else load_meta owner other s)
  unfolding load_meta save_meta_local
  load_meta-save vault_id other m s =
      ground (arith, lookup-insert (meta_key owner vault_id) (meta_key owner other) m s.local)

  -- Saving also mirrors to the backend, which changes nothing on the device.
  load_meta-save_meta :
      (backend : Bool) (vault_id : String) (m : VaultMeta A) (s : Metas A)
      → load_meta owner vault_id (save_meta backend owner vault_id m s) ≡ m
  unfolding load_meta save_meta mirror_meta_to_backend save_meta_local
  load_meta-save_meta backend vault_id m s =
      ground (arith, lookup-insert_self (meta_key owner vault_id) m s.local)

  one_entry :
      (a b : String) (s : Metas A)
      → str_eq (meta_key owner a) (meta_key owner b) ≡ true
      → load_meta owner a s ≡ load_meta owner b s
  unfolding load_meta
  one_entry a b s h =
      ap (λ k. or_else (lookup k s.local) empty_meta)
        ((str_eq_iff (meta_key owner a) (meta_key owner b)).0 h)

  -- Metadata that is no stub stays as it is.
  hydrate_one-keeps :
      (r : RemoteMeta A) (vault_id : String) (n : ℕ) (s : Metas A)
      → is_stub (load_meta owner vault_id s) ≡ false
      → load_meta owner vault_id (hydrate_one false owner r (n, s)).1 ≡ load_meta owner vault_id s
  unfolding hydrate_one
  hydrate_one-keeps r vault_id n s h = go (is_stub (load_meta owner r.vault_id s)) refl
    where
      go :
          (b : Bool)
          → is_stub (load_meta owner r.vault_id s) ≡ b
          → let o : ℕ × Metas A =
              if b
              then (suc n, save_meta_local owner r.vault_id (meta_of_remote r) s)
              else (n, s) in
            load_meta owner vault_id o.1 ≡ load_meta owner vault_id s
      go false q = refl
      go true q = grind (
        arith,
        load_meta-save r.vault_id vault_id (meta_of_remote r) s,
        one_entry r.vault_id vault_id s,
      )

  hydrate_all-keeps :
      (remotes : List (RemoteMeta A)) (vault_id : String) (n : ℕ) (s : Metas A)
      → is_stub (load_meta owner vault_id s) ≡ false
      → load_meta owner vault_id (hydrate_all false owner remotes (n, s)).1
        ≡ load_meta owner vault_id s
  unfolding hydrate_all
  hydrate_all-keeps [] vault_id n s h = refl
  hydrate_all-keeps (r ∷ remotes) vault_id n s h =
      let (m, t) = hydrate_one false owner r (n, s) in
      let same = hydrate_one-keeps r vault_id n s h in
      hydrate_all-keeps remotes vault_id m t (ap is_stub same ∙ h) ∙ same

  -- The last record with the key of a vault, or what there was.
  abbrev pub latest : List (RemoteMeta A) → String → VaultMeta A → VaultMeta A
  latest [] vault_id m = m
  latest (r ∷ rs) vault_id m =
      latest rs vault_id (
        if str_eq (meta_key owner r.vault_id) (meta_key owner vault_id)
        then meta_of_remote r
        else m)

  hydrate_all-forced :
      (remotes : List (RemoteMeta A)) (vault_id : String) (n : ℕ) (s : Metas A)
      → let (m, t) = hydrate_all true owner remotes (n, s) in
        (m ≡ n + length remotes)
        × (load_meta owner vault_id t ≡ latest remotes vault_id (load_meta owner vault_id s))
  unfolding hydrate_all hydrate_one
  hydrate_all-forced [] vault_id n s = (omega arith, refl)
  hydrate_all-forced (r ∷ remotes) vault_id n s =
      let later =
        hydrate_all-forced remotes vault_id (suc n)
          (save_meta_local owner r.vault_id (meta_of_remote r) s) in
      (
        omega (arith, later.0),
        later.1
            ∙ ap (latest remotes vault_id)
                (load_meta-save r.vault_id vault_id (meta_of_remote r) s),
      )

  -- A hydration that is not forced keeps the metadata of every vault where it is no stub, whatever
  -- the backend answers.
  pub hydrate_meta_from_backend-keeps :
      (backend : Bool) (answer : Answer A) (s : Metas A) (vault_id : String)
      → is_stub (load_meta owner vault_id s) ≡ false
      → load_meta owner vault_id (hydrate_meta_from_backend backend owner answer s)
        ≡ load_meta owner vault_id s
  unfolding hydrate_meta_from_backend hydrate_meta_impl
  hydrate_meta_from_backend-keeps false answer s vault_id h = refl
  hydrate_meta_from_backend-keeps true threw s vault_id h = refl
  hydrate_meta_from_backend-keeps true not_ok s vault_id h = refl
  hydrate_meta_from_backend-keeps true (rows remotes) s vault_id h =
      hydrate_all-keeps remotes vault_id 0 s h

  -- A forced hydration by records counts them all and leaves for each vault the metadata of the last
  -- record under its key, or what there was if there is none.
  force_sync_meta_from_backend_lem :
      (remotes : List (RemoteMeta A)) (s : Metas A) (vault_id : String)
      → let (m, t) = force_sync_meta_from_backend true owner (rows remotes) s in
        (m ≡ length remotes)
        × (load_meta owner vault_id t ≡ latest remotes vault_id (load_meta owner vault_id s))
  unfolding force_sync_meta_from_backend hydrate_meta_impl
  force_sync_meta_from_backend_lem remotes s vault_id =
      let all = hydrate_all-forced remotes vault_id 0 s in (omega (arith, all.0), all.1)
