-- ===== src/Api/Vault/Overlay.antt =====
-- `buildArchivedOverlayFromMetas` of src/api/soroban-client.ts: a row for each vault that the
-- backend knows and the live read does not.
pub mod Rows
use stellartimelock_core.Common.{
  String, Bool, true, false, ◌&&◌, Option, none, some, List, [], ◌∷◌, or_else, if◌then◌else◌,
}
use stellartimelock_core.Common.Int.{ℤ, pos, ltb_ℤ}
use stellartimelock_core.Api.Vault.{
  Platform, Vault, VaultStatus, withdrawn, archived, RemoteMeta, is_text, named_or, first_some,
  by_time, numbered_name, contains, parse_iso_to_unix,
}

module _ {A : Type 0} (pf : Platform A) (owner : String) (now_sec : ℤ) where
  -- the status by the meta's last-known on-chain status
  abbrev last_known_status : RemoteMeta A → VaultStatus
  last_known_status r =
      if is_text r.on_chain_status "withdrawn"
      then withdrawn
      else if is_text r.on_chain_status "live" && ltb_ℤ (pos 0) (or_else r.unlock_timestamp (pos 0))
      then by_time now_sec (or_else r.unlock_timestamp (pos 0))
      else archived

  -- The row of a record, and whether `dismissVaultMeta` is called for it: the auto-heal of a meta
  -- that says "live".
  pub overlay_row : RemoteMeta A → Vault A × Bool
  unfolding parse_iso_to_unix
  overlay_row r =
      let stale = is_text r.on_chain_status "live" in
      let row : Vault A = record {
        vault_id = r.vault_id;
        owner_public_key = owner;
        name = named_or r.name (numbered_name r.vault_id);
        description = or_else r.description "";
        template = or_else r.template "custom";
        balance = if stale then pf.zero_xlm else or_else r.balance_xlm pf.zero_xlm;
        target_amount = r.target_amount;
        unlock_timestamp = or_else r.unlock_timestamp (pos 0);
        created_timestamp = parse_iso_to_unix pf (first_some r.created_at r.updated_at);
        status = if stale then withdrawn else last_known_status r;
      } in
      (row, stale)

  -- The rows, and the ids that are dismissed on the backend.
  pub build_archived_overlay : List (RemoteMeta A) → List String → List (Vault A) × List String
  unfolding overlay_row
  build_archived_overlay [] live_ids = ([], [])
  build_archived_overlay (r ∷ rs) live_ids =
      let (rows, dismissed) = build_archived_overlay rs live_ids in
      let (row, stale) = overlay_row r in
      if contains live_ids r.vault_id
      then (rows, dismissed)
      else (row ∷ rows, if stale then r.vault_id ∷ dismissed else dismissed)
