-- ===== src/Api/Vault/Sanitise.antt =====
-- The sanitisation pass of `listVaults` in src/api/soroban-client.ts.
pub mod Anchored
use stellartimelock_core.Common.{
  String, Bool, true, false, not, ◌&&◌, ◌||◌, Option, none, some, List, [], ◌∷◌, map, keep, or_else,
  is_some, if◌then◌else◌,
}
use stellartimelock_core.Common.Int.{ℤ, pos, leb_ℤ, ltb_ℤ}
use stellartimelock_core.Api.Vault.{
  Platform, Vault, VaultStatus, withdrawn, archived, RemoteMeta, is_text, named_or, first_some,
  by_time, is_archived, meta_by_id, parse_iso_to_unix,
}

module _ {A : Type 0} (pf : Platform A) (now_sec : ℤ) where
  pub looks_zero : Vault A → Bool
  looks_zero v =
      not (is_archived v.status)
      && (leb_ℤ v.unlock_timestamp (pos 0) || leb_ℤ v.created_timestamp (pos 0))

  -- The backend has a real snapshot.
  pub has_snapshot : RemoteMeta A → Bool
  has_snapshot m =
      ltb_ℤ (pos 0) (or_else m.unlock_timestamp (pos 0))
      || pf.is_positive (or_else m.balance_xlm pf.zero_xlm)

  -- `v.created_timestamp > 0 ? … : parseIsoToUnix(…)`
  created_of : Vault A → Option (RemoteMeta A) → ℤ
  unfolding parse_iso_to_unix
  created_of v meta = if ltb_ℤ (pos 0) v.created_timestamp then v.created_timestamp else elim meta [
    | none ↦ pos 0
    | some m ↦ parse_iso_to_unix pf (first_some m.created_at m.updated_at)
  ]

  pub rebuild : Vault A → RemoteMeta A → Vault A
  unfolding created_of
  rebuild v m = record v {
    name = named_or m.name v.name;
    description = or_else m.description v.description;
    template = or_else m.template v.template;
    target_amount = first_some m.target_amount v.target_amount;
    balance = or_else m.balance_xlm v.balance;
    unlock_timestamp = or_else m.unlock_timestamp v.unlock_timestamp;
    created_timestamp = created_of v (some m);
    status =
        if is_text m.on_chain_status "withdrawn"
        then withdrawn
        else if is_text m.on_chain_status "archived"
        then archived
        else by_time now_sec (or_else m.unlock_timestamp (pos 0));
  }

  pub downgrade : Vault A → Option (RemoteMeta A) → Vault A
  unfolding created_of
  downgrade v meta = record v {
    balance = pf.zero_xlm;
    unlock_timestamp = pos 0;
    created_timestamp = created_of v meta;
    status = archived;
  }

  -- the callback of `map`
  pub sanitise_row : List (RemoteMeta A) → Vault A → Vault A
  unfolding rebuild downgrade looks_zero has_snapshot
  sanitise_row metas v =
      if looks_zero v
      then elim (meta_by_id metas v.vault_id) [
        | none ↦ downgrade v none
        | some m ↦ if has_snapshot m then rebuild v m else downgrade v (some m)
      ]
      else v

  -- the callback of `filter`
  pub is_anchored : List (RemoteMeta A) → Vault A → Bool
  is_anchored metas v = not (is_archived v.status && not (is_some (meta_by_id metas v.vault_id)))

  pub sanitise : List (RemoteMeta A) → List (Vault A) → List (Vault A)
  unfolding sanitise_row is_anchored
  sanitise metas vs = keep (is_anchored metas) (map (sanitise_row metas) vs)
