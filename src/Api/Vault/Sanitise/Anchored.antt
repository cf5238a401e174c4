-- ===== src/Api/Vault/Sanitise/Anchored.antt =====
-- What the sanitisation pass of `listVaults` (src/api/soroban-client.ts) lets through.
use stellartimelock_core.Common.{
  true, false, ◌≡◌, ◌≢◌, ◌⊎◌, refl, none, some, List, [], ◌∷◌, All, arith, or_else, is_some,
}
use stellartimelock_core.Common.Int.{ℤ, pos, leb_ℤ, ltb_ℤ, ◌≤ℤ◌}
use stellartimelock_core.Api.Vault.{
  Platform, Vault, unlocked, archived, RemoteMeta, is_text, meta_by_id,
}
use stellartimelock_core.Api.Vault.Sanitise.{
  looks_zero, has_snapshot, rebuild, sanitise_row, is_anchored, sanitise,
}

module _ {A : Type 0} (pf : Platform A) (now_sec : ℤ) (metas : List (RemoteMeta A)) where
  -- The backend has a record of the row's id.
  abbrev pub IsKnown : Vault A → Type 0
  IsKnown v = is_some (meta_by_id metas v.vault_id) ≡ true

  -- Both timestamps of the row are set.
  abbrev pub IsDated : Vault A → Type 0
  IsDated v = (ltb_ℤ (pos 0) v.unlock_timestamp ≡ true) × (ltb_ℤ (pos 0) v.created_timestamp ≡ true)

  row-IsKnown :
      (v : Vault A)
      → is_anchored pf now_sec metas (sanitise_row pf now_sec metas v) ≡ true
      → IsKnown (sanitise_row pf now_sec metas v)
        ⊎ (IsDated (sanitise_row pf now_sec metas v)
            × ((sanitise_row pf now_sec metas v).status ≢ archived))
  unfolding sanitise_row is_anchored looks_zero
  row-IsKnown v h = ground arith

  -- A row that the pass lets through is known to the backend, or it is not archived and both its
  -- timestamps are set.
  pub sanitise-IsKnown :
      (vs : List (Vault A))
      → All (λ v. IsKnown v ⊎ (IsDated v × (v.status ≢ archived))) (sanitise pf now_sec metas vs)
  unfolding sanitise
  sanitise-IsKnown [] = tt
  sanitise-IsKnown (v ∷ vs) = ground (arith, sanitise-IsKnown vs, row-IsKnown v)

  -- Rows that are not archived and have both timestamps set pass unchanged.
  sanitise_of_IsDated :
      (vs : List (Vault A))
      → All (λ v. IsDated v × (v.status ≢ archived)) vs
      → sanitise pf now_sec metas vs ≡ vs
  unfolding sanitise sanitise_row is_anchored looks_zero
  sanitise_of_IsDated [] h = refl
  sanitise_of_IsDated (v ∷ vs) h = ground (arith, sanitise_of_IsDated vs h.1)

  -- A row whose unlock time is not set, with a record that has a positive balance, no unlock time
  -- and neither of the marks "withdrawn" and "archived", comes out unlocked, with the unlock time
  -- still not set.
  rebuilt_without_unlock :
      (v : Vault A) (m : RemoteMeta A)
      → v.status ≢ archived
      → leb_ℤ v.unlock_timestamp (pos 0) ≡ true
      → meta_by_id metas v.vault_id ≡ some m
      → m.unlock_timestamp ≡ none
      → pf.is_positive (or_else m.balance_xlm pf.zero_xlm) ≡ true
      → is_text m.on_chain_status "withdrawn" ≡ false
      → is_text m.on_chain_status "archived" ≡ false
      → pos 0 ≤ℤ now_sec
      → let row = sanitise_row pf now_sec metas v in
        (row.status ≡ unlocked) × (leb_ℤ row.unlock_timestamp (pos 0) ≡ true)
  unfolding sanitise_row looks_zero has_snapshot rebuild
  rebuilt_without_unlock v m a z e u b w x t = ground arith
