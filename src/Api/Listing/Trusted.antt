-- ===== src/Api/Listing/Trusted.antt =====
-- What `listVaults` of src/api/soroban-client.ts shows.
use stellartimelock_core.Common.{
  ℕ, ◌/◌, String, Bool, true, ◌≡◌, ◌≢◌, ◌⊎◌, inl, inr, not, Bool-cases, Option, List, [], ◌∷◌, ◌++◌,
  map, keep, All, All-append, arith, is_some, str_eq_iff,
}
use stellartimelock_core.Common.Int.{ℤ, pos, ltb_ℤ}
use stellartimelock_core.Common.Sort.{sort_by-All}
use stellartimelock_core.Api.Vault.{Platform, Vault, archived, RemoteMeta, meta_by_id, contains}
use stellartimelock_core.Api.Vault.Overlay.{build_archived_overlay}
use stellartimelock_core.Api.Vault.Overlay.Rows.{build_archived_overlay_rows}
use stellartimelock_core.Api.Vault.Sanitise.{sanitise}
use stellartimelock_core.Api.Vault.Sanitise.Anchored.{sanitise-IsKnown}
use stellartimelock_core.Api.Session.{Session}
use stellartimelock_core.Api.Listing.{
  Sources, listed_before, list_vaults, finish, pick_live, simulate_step,
}

module _ {A : Type 0} where
  -- The backend has a record of the id.
  abbrev IsKnownId : List (RemoteMeta A) → String → Type 0
  IsKnownId metas id = is_some (meta_by_id metas id) ≡ true

  IsKnownId-cons :
      (r : RemoteMeta A) (metas rs : List (RemoteMeta A))
      → All (λ x. IsKnownId metas x.vault_id) rs
      → All (λ x. IsKnownId (r ∷ metas) x.vault_id) rs
  IsKnownId-cons r metas [] h = tt
  IsKnownId-cons r metas (x ∷ rs) h = (ground (arith, h.0), IsKnownId-cons r metas rs h.1)

  All-IsKnownId : (rs : List (RemoteMeta A)) → All (λ x. IsKnownId rs x.vault_id) rs
  All-IsKnownId [] = tt
  All-IsKnownId (r ∷ rs) =
      (ground (arith, str_eq_iff r.vault_id r.vault_id), IsKnownId-cons r rs rs (All-IsKnownId rs))

  All-ids :
      (Q : String → Type 0) (p : RemoteMeta A → Bool) (rs : List (RemoteMeta A))
      → All (λ x. Q x.vault_id) rs
      → All Q (map (λ r. r.vault_id) (keep p rs))
  All-ids Q p [] h = tt
  All-ids Q p (r ∷ rs) h = elim (Bool-cases (p r)) [
    | inl kept ↦ rw kept (h.0, All-ids Q p rs h.1)
    | inr dropped ↦ rw dropped (All-ids Q p rs h.1)
  ]

  All-of_ids :
      (Q : String → Type 0) (R : Vault A → Type 0) (vs : List (Vault A))
      → ((v : Vault A) → Q v.vault_id → R v)
      → All Q (map (λ v. v.vault_id) vs)
      → All R vs
  All-of_ids Q R [] f h = tt
  All-of_ids Q R (v ∷ vs) f h = (f v h.0, All-of_ids Q R vs f h.1)

  -- A row that can be shown: known to the backend, or with both timestamps set and not archived.
  abbrev pub IsTrusted : List (RemoteMeta A) → Vault A → Type 0
  IsTrusted metas v =
      (is_some (meta_by_id metas v.vault_id) ≡ true)
      ⊎ (((ltb_ℤ (pos 0) v.unlock_timestamp ≡ true) × (ltb_ℤ (pos 0) v.created_timestamp ≡ true))
          × (v.status ≢ archived))

module _ {A : Type 0} (pf : Platform A) (merge : List (Vault A) → List (Vault A) → List (Vault A))
    (day : ℕ → ℕ → ℕ → Option ℤ) (backend : Bool) (owner : String) (now_ms : ℕ) where
  overlay-IsTrusted :
      (now : ℤ) (metas : List (RemoteMeta A)) (ids : List String)
      → All (IsTrusted metas) (build_archived_overlay pf owner now metas ids).0
  overlay-IsTrusted now metas ids =
      let (eq, rows, dismissed) = build_archived_overlay_rows pf owner now metas ids in
      All-of_ids (λ id. is_some (meta_by_id metas id) ≡ true) (IsTrusted metas)
        (build_archived_overlay pf owner now metas ids).0 (λ v h. inl h)
        (rw eq (
          All-ids (λ id. is_some (meta_by_id metas id) ≡ true) (λ r. not (contains ids r.vault_id))
            metas (All-IsKnownId metas)))

  -- No ghost is listed: each row that `listVaults` returns, by whatever sources and whatever they
  -- answer, is known to the backend, or it is not archived and both its timestamps are set.
  pub list_vaults-IsTrusted :
      (src : Sources A) (s : Session A)
      → All (IsTrusted src.metas) (list_vaults pf merge day backend owner now_ms src s).0.vaults
  unfolding list_vaults finish
  list_vaults-IsTrusted src s =
      let now = pos (now_ms / 1000) in
      let (simulated, s1) = simulate_step pf merge day backend owner now_ms src s in
      let rows = (pick_live pf merge day backend owner now_ms src simulated s1).0 in
      let live = sanitise pf now src.metas rows in
      let overlay =
        (build_archived_overlay pf owner now src.metas (map (λ v. v.vault_id) live)).0 in
      sort_by-All listed_before (IsTrusted src.metas) (live ++ overlay) (
        All-append (IsTrusted src.metas) live overlay (sanitise-IsKnown pf now src.metas rows)
          (overlay-IsTrusted now src.metas (map (λ v. v.vault_id) live)))
