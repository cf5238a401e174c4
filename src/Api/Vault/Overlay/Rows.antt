-- ===== src/Api/Vault/Overlay/Rows.antt =====
-- Which rows the archived overlay of src/api/soroban-client.ts has, and whom it dismisses.
use stellartimelock_core.Common.{
  String, Bool, false, not, ◌&&◌, ◌≡◌, ◌⊎◌, refl, List, [], ◌∷◌, map, keep, All, arith,
}
use stellartimelock_core.Common.Int.{ℤ}
use stellartimelock_core.Api.Vault.{
  Platform, Vault, withdrawn, archived, RemoteMeta, is_text, contains,
}
use stellartimelock_core.Api.Vault.Overlay.{overlay_row, build_archived_overlay}

-- The record says "live", and no live row has its id.
abbrev pub is_stale : {A : Type 0} → List String → RemoteMeta A → Bool
is_stale live_ids r = not (contains live_ids r.vault_id) && is_text r.on_chain_status "live"

module _ {A : Type 0} (pf : Platform A) (owner : String) (now_sec : ℤ) where
  -- A row of the overlay: of the owner, and withdrawn or archived.
  abbrev pub IsTerminal : Vault A → Type 0
  IsTerminal v = (v.owner_public_key ≡ owner) × ((v.status ≡ withdrawn) ⊎ (v.status ≡ archived))

  overlay_row-IsTerminal : (r : RemoteMeta A) → IsTerminal (overlay_row pf owner now_sec r).0
  unfolding overlay_row
  overlay_row-IsTerminal r = ground arith

  rows-IsTerminal :
      (rs : List (RemoteMeta A)) (live_ids : List String)
      → All IsTerminal (build_archived_overlay pf owner now_sec rs live_ids).0
  unfolding build_archived_overlay
  rows-IsTerminal [] live_ids = tt
  rows-IsTerminal (r ∷ rs) live_ids =
      ground (arith, rows-IsTerminal rs live_ids, overlay_row-IsTerminal r)

  rows_ids :
      (rs : List (RemoteMeta A)) (live_ids : List String)
      → map (λ v. v.vault_id) (build_archived_overlay pf owner now_sec rs live_ids).0
        ≡ map (λ r. r.vault_id) (keep (λ r. not (contains live_ids r.vault_id)) rs)
  unfolding build_archived_overlay
  rows_ids [] live_ids = refl
  rows_ids (r ∷ rs) live_ids = ground (arith, rows_ids rs live_ids)

  dismissed_ids :
      (rs : List (RemoteMeta A)) (live_ids : List String)
      → (build_archived_overlay pf owner now_sec rs live_ids).1
        ≡ map (λ r. r.vault_id) (keep (is_stale live_ids) rs)
  unfolding build_archived_overlay
  dismissed_ids [] live_ids = refl
  dismissed_ids (r ∷ rs) live_ids = ground (arith, dismissed_ids rs live_ids)

  -- No row of the overlay has the id of a live row.
  pub build_archived_overlay-contains :
      (rs : List (RemoteMeta A)) (live_ids : List String)
      → All
          (λ v. contains live_ids v.vault_id ≡ false)
          (build_archived_overlay pf owner now_sec rs live_ids).0
  unfolding build_archived_overlay overlay_row
  build_archived_overlay-contains [] live_ids = tt
  build_archived_overlay-contains (r ∷ rs) live_ids =
      ground (arith, build_archived_overlay-contains rs live_ids)

  -- The overlay has one row for each record whose id no live row has, in the order of the records;
  -- each row is withdrawn or archived, never locked or unlocked; and the records dismissed on the
  -- backend are just those among them that are marked "live".
  pub build_archived_overlay_rows :
      (rs : List (RemoteMeta A)) (live_ids : List String)
      → let (rows, dismissed) = build_archived_overlay pf owner now_sec rs live_ids in
        (map (λ v. v.vault_id) rows
          ≡ map (λ r. r.vault_id) (keep (λ r. not (contains live_ids r.vault_id)) rs))
        × All IsTerminal rows
        × (dismissed ≡ map (λ r. r.vault_id) (keep (is_stale live_ids) rs))
  build_archived_overlay_rows rs live_ids =
      (rows_ids rs live_ids, rows-IsTerminal rs live_ids, dismissed_ids rs live_ids)
