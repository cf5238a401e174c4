-- ===== src/Api/Events/Replay/Rows.antt =====
-- The rows that `aggregateVaultsFromEvents` of src/api/soroban-client.ts makes of the replay.
use stellartimelock_core.Common.{
  ℕ, String, true, ◌≡◌, ◌≢◌, ◌⊎◌, Option, none, some, List, [], ◌∷◌, map, keep, str_eq, All, arith,
}
use stellartimelock_core.Common.Dict.{Dict}
use stellartimelock_core.Common.Int.{ℤ, leb_ℤ}
use stellartimelock_core.Common.Sort.{IsSorted, sort_by, sort_by-All, sort_by-IsSorted}
use stellartimelock_core.Api.Vault.{
  Platform, Vault, locked, unlocked, withdrawn, archived, VaultMeta, RemoteMeta, meta_by_id,
}
use stellartimelock_core.Api.Events.{ParsedEvent}
use stellartimelock_core.Api.Events.Replay.{Accum, merge_meta, aggregate, newer, earlier, replay}

newer_total : {A : Type 0} (a b : Vault A) → (newer a b ≡ true) ⊎ (newer b a ≡ true)
newer_total a b = ground arith

newer_trans :
    {A : Type 0} (a b c : Vault A) → newer a b ≡ true → newer b c ≡ true → newer a c ≡ true
newer_trans a b c h k = ground arith

module _ {A : Type 0} (pf : Platform A) (day : ℕ → ℕ → ℕ → Option ℤ) (owner : String)
    (now_sec : ℤ) where
  -- The row is the owner's and not archived; a withdrawn one has no balance, an unlocked one has
  -- reached its unlock time, and a locked one has not.
  pub record IsConsistent (v : Vault A) : Type 0 where
    pub owned : v.owner_public_key ≡ owner
    pub not_archived : v.status ≢ archived
    pub withdrawn_is_empty : v.status ≡ withdrawn → v.balance ≡ pf.zero_xlm
    pub unlocked_is_due : v.status ≡ unlocked → leb_ℤ v.unlock_timestamp now_sec ≡ true
    pub locked_is_early : v.status ≡ locked → leb_ℤ v.unlock_timestamp now_sec ≢ true

  merge_meta-IsConsistent :
      (v : Accum A) (meta : VaultMeta A) (remote : Option (RemoteMeta A))
      → IsConsistent (merge_meta pf day owner now_sec v meta remote)
  unfolding merge_meta
  merge_meta-IsConsistent v meta none = record {
    owned = ground arith;
    not_archived = ground arith;
    withdrawn_is_empty = ground arith;
    unlocked_is_due = ground arith;
    locked_is_early = ground arith;
  }
  merge_meta-IsConsistent v meta (some r) = record {
    owned = ground arith;
    not_archived = ground arith;
    withdrawn_is_empty = ground arith;
    unlocked_is_due = ground arith;
    locked_is_early = ground arith;
  }

  module _ (meta_of : String → VaultMeta A) (remotes : List (RemoteMeta A)) where
    abbrev row_of : String × Accum A → Vault A
    row_of e =
        merge_meta pf day owner now_sec e.1 (meta_of e.1.vault_id) (meta_by_id remotes e.1.vault_id)

    rows-IsConsistent : (by_id : Dict (Accum A)) → All IsConsistent (map row_of by_id)
    rows-IsConsistent [] = tt
    rows-IsConsistent ((id, v) ∷ by_id) = (
      merge_meta-IsConsistent v (meta_of v.vault_id) (meta_by_id remotes v.vault_id),
      rows-IsConsistent by_id,
    )

    -- The aggregation lists the newest vault first, and each of its rows is the owner's, never
    -- archived, without balance if withdrawn, and locked or unlocked by its unlock time and the clock.
    aggregate_rows :
        (events : List (ParsedEvent A))
        → let rows = aggregate pf day owner now_sec meta_of remotes events in
          IsSorted newer rows × All IsConsistent rows
    unfolding aggregate
    aggregate_rows events =
        let by_id =
          replay pf day (sort_by earlier (keep (λ e. str_eq e.owner_public_key owner) events)) [] in
        (
          sort_by-IsSorted newer newer_total newer_trans (map row_of by_id),
          sort_by-All newer IsConsistent (map row_of by_id) (rows-IsConsistent by_id),
        )
