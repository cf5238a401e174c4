-- ===== src/Api/Events/Replay.antt =====
-- `aggregateVaultsFromEvents` of src/api/soroban-client.ts: the replay of an owner's events into
-- the vaults, and their merge with the local and the backend metas.
pub mod History
pub mod Rows
use stellartimelock_core.Common.{
  ℕ, String, Bool, true, false, not, ◌&&◌, ◌||◌, Option, none, some, List, [], ◌∷◌, map, keep,
  is_some, or_else, str_eq, ltb, if◌then◌else◌,
}
use stellartimelock_core.Common.Dict.{Dict, lookup, insert}
use stellartimelock_core.Common.Int.{ℤ, pos, leb_ℤ, ltb_ℤ}
use stellartimelock_core.Common.Sort.{sort_by}
use stellartimelock_core.Common.Text.{codes}
use stellartimelock_core.Api.Vault.{
  Platform, Vault, VaultStatus, withdrawn, RemoteMeta, VaultMeta, is_text, named_or, first_some,
  by_time, numbered_name, floor_seconds, parse_iso_to_unix, meta_by_id,
}
use stellartimelock_core.Api.Events.{
  EventKind, create, deposit, extend, withdraw, ParsedEvent, find_date,
}

-- `Accum`
pub record Accum (A : Type 0) : Type 0 where
  pub vault_id : String
  pub balance_xlm : A
  pub unlock_timestamp : ℤ
  pub created_timestamp : ℤ
  pub withdrawn : Bool

abbrev is_create : EventKind → Bool
is_create create = true
is_create _ = false

-- `(a, b) => a.timestamp - b.timestamp`, `(a, b) => b.created_timestamp - a.created_timestamp`
abbrev pub earlier : {A : Type 0} → ParsedEvent A → ParsedEvent A → Bool
earlier a b = leb_ℤ a.timestamp b.timestamp

abbrev pub newer : {A : Type 0} → Vault A → Vault A → Bool
newer a b = leb_ℤ b.created_timestamp a.created_timestamp

-- `day` is Date.parse(`${y}-${m}-${d}T00:00:00Z`) in milliseconds, `none` where that is not finite.
module _ {A : Type 0} (pf : Platform A) (day : ℕ → ℕ → ℕ → Option ℤ) where
  unfoldable pub date_note_to_sec : String → ℤ
  date_note_to_sec note = elim (find_date (codes note)) [
    | none ↦ pos 0
    | some (y, m, d) ↦
        if ltb y 2020 || ltb 2100 y
        then pos 0
        else elim (day y m d) [ none ↦ pos 0 | some ms ↦ floor_seconds ms ]
  ]

  -- the accumulator of a vault that is first seen by its `create` event
  seed : ParsedEvent A → Accum A
  seed ev = record {
    vault_id = ev.vault_id;
    balance_xlm = pf.zero_xlm;
    unlock_timestamp = date_note_to_sec ev.note;
    created_timestamp = ev.timestamp;
    withdrawn = false;
  }

  -- the `switch` on the kind
  apply_kind : EventKind → ParsedEvent A → Accum A → Accum A
  apply_kind create ev v = record v { balance_xlm = pf.add v.balance_xlm ev.amount }
  apply_kind deposit ev v = record v { balance_xlm = pf.add v.balance_xlm ev.amount }
  apply_kind extend ev v =
      let new_unlock = date_note_to_sec ev.note in
      if ltb_ℤ v.unlock_timestamp new_unlock then record v { unlock_timestamp = new_unlock } else v
  apply_kind withdraw ev v = record v { balance_xlm = pf.zero_xlm; withdrawn = true }

  -- One event on the accumulator of its vault; what comes before the `create` event is skipped.
  unfoldable pub replay_one : Option (Accum A) → ParsedEvent A → Option (Accum A)
  unfolding seed apply_kind
  replay_one none ev = if is_create ev.kind then some (apply_kind ev.kind ev (seed ev)) else none
  replay_one (some v) ev = some (apply_kind ev.kind ev v)

  -- `byId.set(id, v)`, or nothing for an event that is skipped
  pub store : String → Option (Accum A) → Dict (Accum A) → Dict (Accum A)
  store id none by_id = by_id
  store id (some v) by_id = insert id v by_id

  -- the loop over the owner's events
  pub replay : List (ParsedEvent A) → Dict (Accum A) → Dict (Accum A)
  unfolding replay_one store
  replay [] by_id = by_id
  replay (ev ∷ evs) by_id =
      replay evs (store ev.vault_id (replay_one (lookup ev.vault_id by_id) ev) by_id)

  module _ (owner : String) (now_sec : ℤ) where
    -- The vault of an accumulator, with the local meta and the backend's record, if any.
    pub merge_meta : Accum A → VaultMeta A → Option (RemoteMeta A) → Vault A
    merge_meta v meta none = record {
      vault_id = v.vault_id;
      owner_public_key = owner;
      name = named_or meta.name (numbered_name v.vault_id);
      description = or_else meta.description "";
      template = or_else meta.template "custom";
      balance = if v.withdrawn then pf.zero_xlm else v.balance_xlm;
      target_amount = meta.target_amount;
      unlock_timestamp = v.unlock_timestamp;
      created_timestamp = if ltb_ℤ (pos 0) v.created_timestamp then v.created_timestamp else pos 0;
      status = if v.withdrawn then withdrawn else by_time now_sec v.unlock_timestamp;
    }
    merge_meta v meta (some remote) =
        let final_unlock : ℤ =
          if ltb_ℤ (pos 0) (or_else remote.unlock_timestamp (pos 0))
          then or_else remote.unlock_timestamp (pos 0)
          else v.unlock_timestamp in
        let final_balance : A =
          if is_some remote.balance_xlm && not v.withdrawn
          then or_else remote.balance_xlm v.balance_xlm
          else v.balance_xlm in
        let final_withdrawn : Bool = v.withdrawn || is_text remote.on_chain_status "withdrawn" in
        record {
          vault_id = v.vault_id;
          owner_public_key = owner;
          name = named_or remote.name (named_or meta.name (numbered_name v.vault_id));
          description = or_else (first_some remote.description meta.description) "";
          template = or_else (first_some remote.template meta.template) "custom";
          balance = if final_withdrawn then pf.zero_xlm else final_balance;
          target_amount = first_some remote.target_amount meta.target_amount;
          unlock_timestamp = final_unlock;
          created_timestamp =
              if ltb_ℤ (pos 0) v.created_timestamp
              then v.created_timestamp
              else parse_iso_to_unix pf (first_some remote.created_at remote.updated_at);
          status = if final_withdrawn then withdrawn else by_time now_sec final_unlock;
        }

    -- The whole aggregation, from the events that were fetched; `meta_of` is what `loadMeta` reads.
    pub aggregate :
        (String → VaultMeta A) → List (RemoteMeta A) → List (ParsedEvent A) → List (Vault A)
    aggregate meta_of remotes events =
        let owned = keep (λ e. str_eq e.owner_public_key owner) events in
        let by_id = replay (sort_by earlier owned) [] in
        let vaults =
          map (λ e. merge_meta e.1 (meta_of e.1.vault_id) (meta_by_id remotes e.1.vault_id))
            by_id in
        sort_by newer vaults
