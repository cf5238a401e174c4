-- ===== src/Api/Listing.antt =====
-- `listVaults`, `summary` and `getVault` of src/api/soroban-client.ts. What the network, the cache
-- and the backend answer during a call is in `Sources`; `mergeVaults` of vault-cache.ts is `merge`.
pub mod Order
pub mod Trusted
pub mod Simulated
pub mod Totals
use stellartimelock_core.Common.{
  ℕ, suc, ◌+◌, ◌/◌, String, Bool, true, false, not, ◌&&◌, ◌||◌, Option, none, some, List, [], ◌∷◌,
  ◌++◌, map, keep, find, or_else, str_eq, if◌then◌else◌,
}
use stellartimelock_core.Common.Action.{Result, ok, err}
use stellartimelock_core.Common.Int.{ℤ, pos, leb_ℤ, ltb_ℤ}
use stellartimelock_core.Common.Sort.{sort_by}
use stellartimelock_core.Common.Text.{decimal}
use stellartimelock_core.Api.Errors.{Fault}
use stellartimelock_core.Api.Vault.{
  Platform, Vault, VaultStatus, locked, unlocked, withdrawn, archived, VaultMeta, RemoteMeta,
  ContractVault, status_for, is_archived,
}
use stellartimelock_core.Api.Vault.Overlay.{build_archived_overlay}
use stellartimelock_core.Api.Vault.Sanitise.{sanitise}
use stellartimelock_core.Api.Events.{ParsedEvent}
use stellartimelock_core.Api.Events.Replay.{aggregate}
use stellartimelock_core.Api.Session.{
  Session, Snapshot, SnapshotStatus, live, is_xdr_parse_error, mark_simulate_broken, push_all,
}

-- The comparator of the final sort gives zero or less: archived rows last, and the newest first.
abbrev pub listed_before : {A : Type 0} → Vault A → Vault A → Bool
listed_before a b =
    if is_archived a.status && not (is_archived b.status)
    then false
    else if is_archived b.status && not (is_archived a.status)
    then true
    else leb_ℤ b.created_timestamp a.created_timestamp

-- What each source answers, if it is asked: the persisted cache (empty on a failure), the backend's
-- records (none when it is not reachable), the contract by simulation, and the contract's events.
-- `local_meta` is what `loadMeta` reads on the device.
pub record Sources (A : Type 0) : Type 0 where
  pub cached : List (Vault A)
  pub metas : List (RemoteMeta A)
  pub simulation : Result Fault (List ContractVault)
  pub events : Result Fault (List (ParsedEvent A))
  pub local_meta : String → VaultMeta A

pub data CacheSource : Type 0 where
  from_simulate from_events : CacheSource

-- The list, what `saveCachedVaults` is given, if it is called, and the ids dismissed on the backend.
pub record Listing (A : Type 0) : Type 0 where
  pub vaults : List (Vault A)
  pub saved : Option (List (Vault A) × CacheSource)
  pub dismissed : List String

pub record Summary (A : Type 0) : Type 0 where
  pub total_locked : A
  pub total_unlocked : A
  pub total_withdrawn : A
  pub active_vaults : ℕ
  pub completed_vaults : ℕ

module _ {A : Type 0} (pf : Platform A) where
  pub to_vault : ContractVault → VaultMeta A → ℤ → Vault A
  to_vault c meta now_sec = record {
    vault_id = decimal c.vault_id;
    owner_public_key = c.owner;
    name = c.name;
    description = or_else meta.description "";
    template = or_else meta.template "custom";
    balance = pf.of_stroops c.balance;
    target_amount = meta.target_amount;
    unlock_timestamp = pos c.unlock_timestamp;
    created_timestamp = pos c.created_timestamp;
    status = status_for pf c now_sec;
  }

  -- one row in the loop of `summary`
  count_row : Vault A → Summary A → Summary A
  count_row v t = elim v.status [
    | locked ↦ record t {
      total_locked = pf.add t.total_locked v.balance;
      active_vaults = t.active_vaults + 1;
    }
    | unlocked ↦ record t {
      total_unlocked = pf.add t.total_unlocked v.balance;
      active_vaults = t.active_vaults + 1;
    }
    | _ ↦ record t { completed_vaults = t.completed_vaults + 1 }
  ]

  pub add_up : List (Vault A) → Summary A → Summary A
  unfolding count_row
  add_up [] t = t
  add_up (v ∷ vs) t = add_up vs (count_row v t)

  abbrev pub no_rows : Summary A
  no_rows = record {
    total_locked = pf.zero_xlm;
    total_unlocked = pf.zero_xlm;
    total_withdrawn = pf.zero_xlm;
    active_vaults = 0;
    completed_vaults = 0;
  }

  pub summary : List (Vault A) → Summary A
  unfolding add_up
  summary vaults = add_up vaults no_rows

  module _ (merge : List (Vault A) → List (Vault A) → List (Vault A)) (day : ℕ → ℕ → ℕ → Option ℤ)
      (backend : Bool) (owner : String) (now_ms : ℕ) where
    abbrev pub now_sec : ℤ
    now_sec = pos (now_ms / 1000)

    -- Step 1: what the simulate path yields, and whether it is broken from then on.
    pub simulate_step : Sources A → Session A → Option (List (Vault A)) × Session A
    unfolding to_vault
    simulate_step src s = if s.simulate_path_broken then (none, s) else elim src.simulation [
      | ok cs ↦ (some (map (λ c. to_vault c (src.local_meta (decimal c.vault_id)) now_sec) cs), s)
      | err e ↦ (none, if is_xdr_parse_error e then mark_simulate_broken s else s)
    ]

    -- Step 2: the vaults by the events, `none` where they cannot be read.
    pub events_step : Sources A → Option (List (Vault A))
    events_step src = elim src.events [
      | ok evs ↦ some (aggregate pf day owner now_sec src.local_meta src.metas evs)
      | err e ↦ none
    ]

    abbrev synced : Session A → Session A
    synced s = record s { last_synced_at = some now_ms }

    abbrev from_cache :
        Sources A → Session A → List (Vault A) × Option (List (Vault A) × CacheSource) × Session A
    from_cache src s = (src.cached, none, s)

    -- The live rows, what is saved of them, and the session.
    pub pick_live :
        Sources A
        → Option (List (Vault A))
        → Session A
        → List (Vault A) × Option (List (Vault A) × CacheSource) × Session A
    unfolding events_step
    pick_live src (some rows) s =
        let live = merge src.cached rows in (live, some (live, from_simulate), synced s)
    pick_live src none s = elim (events_step src) [
      | none ↦ from_cache src s
      | some [] ↦ from_cache src s
      | some (v ∷ vs) ↦
          let live = merge src.cached (v ∷ vs) in (live, some (live, from_events), synced s)
    ]

    -- The rows of which a snapshot goes to the backend, and the snapshot.
    pub has_real_values : Vault A → Bool
    has_real_values v = not (is_archived v.status) && ltb_ℤ (pos 0) v.unlock_timestamp

    abbrev reported : VaultStatus → SnapshotStatus
    reported withdrawn = SnapshotStatus.withdrawn
    reported _ = live

    pub snapshot_of : Vault A → Snapshot A
    snapshot_of v = record {
      owner = owner;
      vault_id = v.vault_id;
      balance_xlm = some v.balance;
      unlock_timestamp = some v.unlock_timestamp;
      snapshot_ledger = none;
      on_chain_status = some (reported v.status);
    }

    -- The rest of `listVaults`, from the live rows on: sanitise, report, overlay and sort.
    pub finish : List (RemoteMeta A) → List (Vault A) → List (Vault A) × List String
    unfolding sort_by
    finish metas rows =
        let live = sanitise pf now_sec metas rows in
        let (overlay, dismissed) =
          build_archived_overlay pf owner now_sec metas (map (λ v. v.vault_id) live) in
        (sort_by listed_before (live ++ overlay), dismissed)

    pub snapshots : List (RemoteMeta A) → List (Vault A) → List (Snapshot A)
    unfolding has_real_values snapshot_of
    snapshots metas rows = map snapshot_of (keep has_real_values (sanitise pf now_sec metas rows))

    pub report : List (RemoteMeta A) → List (Vault A) → Session A → Session A
    unfolding snapshots
    report metas rows s = push_all backend (snapshots metas rows) s

    pub list_vaults : Sources A → Session A → Listing A × Session A
    unfolding simulate_step pick_live finish report
    list_vaults src s =
        let (simulated, s1) = simulate_step src s in
        let (rows, saved, s2) = pick_live src simulated s1 in
        let (vaults, dismissed) = finish src.metas rows in
        (record { vaults = vaults; saved = saved; dismissed = dismissed }, report src.metas rows s2)
