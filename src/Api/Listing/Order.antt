-- ===== src/Api/Listing/Order.antt =====
-- The order of the list that `listVaults` of src/api/soroban-client.ts returns, and its rows.
use stellartimelock_core.Common.{
  ℕ, ◌/◌, String, Bool, true, ◌≡◌, false, ◌≢◌, inl, inr, refl, ◌⊎◌, Option, List, [], ◌∷◌, All,
  ◌++◌, map, arith,
}
use mathlib.Core.List.{Perm}
use stellartimelock_core.Common.Int.{ℤ, pos, ◌≤ℤ◌}
use stellartimelock_core.Common.Sort.{sort_by, IsSorted, sort_by-IsSorted, sort_by-perm}
use stellartimelock_core.Api.Vault.{
  Platform, Vault, VaultStatus, locked, unlocked, withdrawn, archived, is_archived, contains,
}
use stellartimelock_core.Api.Vault.Overlay.{build_archived_overlay}
use stellartimelock_core.Api.Vault.Overlay.Rows.{build_archived_overlay-contains}
use stellartimelock_core.Api.Vault.Sanitise.{sanitise}
use stellartimelock_core.Api.Session.{Session}
use stellartimelock_core.Api.Listing.{
  Sources, listed_before, list_vaults, finish, pick_live, simulate_step,
}

listed_before_total :
    {A : Type 0} (a b : Vault A) → (listed_before a b ≡ true) ⊎ (listed_before b a ≡ true)
listed_before_total a b = ground arith

listed_before_trans :
    {A : Type 0} (a b c : Vault A)
    → listed_before a b ≡ true
    → listed_before b c ≡ true
    → listed_before a c ≡ true
listed_before_trans a b c h k = ground arith

-- Of two rows the first may stand before the second: it is not archived and the second is, or both
-- are or neither is and the second was not created later.
abbrev pub MayPrecede : {A : Type 0} → Vault A → Vault A → Type 0
MayPrecede a b =
    ((a.status ≢ archived) × (b.status ≡ archived))
    ⊎ ((a.status ≡ archived) × (b.status ≡ archived) × (b.created_timestamp ≤ℤ a.created_timestamp))
    ⊎ ((a.status ≢ archived) × (b.status ≢ archived) × (b.created_timestamp ≤ℤ a.created_timestamp))

-- Each row may stand before all that follow it.
abbrev pub IsInOrder : {A : Type 0} → List (Vault A) → Type 0
IsInOrder [] = Unit
IsInOrder (v ∷ vs) = All (MayPrecede v) vs × IsInOrder vs

is_archived_lem :
    (s : VaultStatus)
    → (is_archived s ≡ true × s ≡ archived) ⊎ (is_archived s ≡ false × s ≢ archived)
is_archived_lem archived = inl (refl, refl)
is_archived_lem locked = inr (refl, λ e. cc)
is_archived_lem unlocked = inr (refl, λ e. cc)
is_archived_lem withdrawn = inr (refl, λ e. cc)

listed_before-MayPrecede : {A : Type 0} (a b : Vault A) → listed_before a b ≡ true → MayPrecede a b
listed_before-MayPrecede a b h = elim (is_archived_lem a.status) [
  | inl (x, old) ↦ elim (is_archived_lem b.status) [
    | inl (y, old') ↦ inr (inl (old, old', ground arith))
    | inr (y, live) ↦ absurd (ground arith)
  ]
  | inr (x, live) ↦ elim (is_archived_lem b.status) [
    | inl (y, old) ↦ inl (live, old)
    | inr (y, live') ↦ inr (inr (live, live', ground arith))
  ]
]

All-MayPrecede :
    {A : Type 0} (v : Vault A) (vs : List (Vault A))
    → All (λ w. listed_before v w ≡ true) vs
    → All (MayPrecede v) vs
All-MayPrecede v [] h = tt
All-MayPrecede v (w ∷ vs) h = (listed_before-MayPrecede v w h.0, All-MayPrecede v vs h.1)

IsSorted-IsInOrder : {A : Type 0} (vs : List (Vault A)) → IsSorted listed_before vs → IsInOrder vs
IsSorted-IsInOrder [] h = tt
IsSorted-IsInOrder (v ∷ vs) h = (All-MayPrecede v vs h.0, IsSorted-IsInOrder vs h.1)

module _ {A : Type 0} (pf : Platform A) (merge : List (Vault A) → List (Vault A) → List (Vault A))
    (day : ℕ → ℕ → ℕ → Option ℤ) (backend : Bool) (owner : String) (now_ms : ℕ) where
  -- The rows by the source that `listVaults` takes, after the sanitisation.
  abbrev pub live_rows : Sources A → Session A → List (Vault A)
  live_rows src s =
      let (simulated, s1) = simulate_step pf merge day backend owner now_ms src s in
      sanitise pf (pos (now_ms / 1000)) src.metas
        (pick_live pf merge day backend owner now_ms src simulated s1).0

  -- The rows for the backend's records that no live row has.
  abbrev pub overlay_rows : Sources A → List (Vault A) → List (Vault A)
  overlay_rows src live =
      (build_archived_overlay pf owner (pos (now_ms / 1000)) src.metas
        (map (λ v. v.vault_id) live)).0

  -- The list that `listVaults` returns is in order: no archived row stands before a row that is not,
  -- and of two rows that are both archived or both not, the later created one stands first. Its rows
  -- are, up to order, the sanitised live rows and the overlay rows, none lost and none doubled, and
  -- no overlay row has the id of a live row.
  pub list_vaults_order :
      (src : Sources A) (s : Session A)
      → let listed = (list_vaults pf merge day backend owner now_ms src s).0.vaults in
        let live = live_rows src s in
        IsInOrder listed
        × Perm listed (live ++ overlay_rows src live)
        × All
            (λ v. contains (map (λ w. w.vault_id) live) v.vault_id ≡ false)
            (overlay_rows src live)
  unfolding list_vaults finish
  list_vaults_order src s =
      let all = live_rows src s ++ overlay_rows src (live_rows src s) in
      (
        IsSorted-IsInOrder (sort_by listed_before all)
            (sort_by-IsSorted listed_before listed_before_total listed_before_trans all),
        sort_by-perm listed_before all,
        build_archived_overlay-contains pf owner (pos (now_ms / 1000)) src.metas
            (map (λ w. w.vault_id) (live_rows src s)),
      )
