-- ===== src/Api/Metadata/Stored.antt =====
-- What `getVaultMeta` of src/api/soroban-client.ts returns, and what it leaves on the device.
use stellartimelock_core.Common.{
  String, ◌≡◌, ◌⊎◌, inl, inr, refl, Bool, true, false, not, ◌||◌, Option, none, some, find,
  if◌then◌else◌, str_eq_refl, arith,
}
use stellartimelock_core.Api.Vault.{VaultMeta, RemoteMeta}
use stellartimelock_core.Api.Metadata.{
  Answer, threw, not_ok, rows, Metas, meta_key, load_meta, save_meta_local, non_empty, hydrated,
  is_vault, ask_backend, get_vault_meta,
}
use stellartimelock_core.Api.Metadata.Hydrated.{load_meta-save}

module _ {A : Type 0} (owner vault_id : String) where
  -- What is returned is stored, and keeps a description; or nothing is returned or stored.
  abbrev pub Stores : Metas A → Option (VaultMeta A) × Metas A → Type 0
  Stores s (none, t) = t ≡ s
  Stores s (some m, t) =
      (load_meta owner vault_id t ≡ m)
      × ((non_empty (load_meta owner vault_id s).description ≡ false)
          ⊎ (m.description ≡ (load_meta owner vault_id s).description))

  ask_backend-Stores :
      (answer : Answer A) (s : Metas A)
      → Stores s (ask_backend owner vault_id (load_meta owner vault_id s) answer s)
  unfolding ask_backend
  ask_backend-Stores threw s = refl
  ask_backend-Stores not_ok s = (refl, inr refl)
  ask_backend-Stores (rows remotes) s = go (find (is_vault vault_id) remotes)
    where
      local : VaultMeta A
      local = load_meta owner vault_id s

      kept :
          (b : Bool)
          → non_empty local.description ≡ b
          → (hit : RemoteMeta A)
          → (non_empty local.description ≡ false)
            ⊎ ((hydrated local hit).description ≡ local.description)
      kept true h hit = inr (ground arith)
      kept false h hit = inl h

      go :
          (o : Option (RemoteMeta A))
          → Stores s (elim o as (λ x. Option (VaultMeta A) × Metas A) [
            | none ↦ (some local, s)
            | some hit ↦
                (some (hydrated local hit), save_meta_local owner vault_id (hydrated local hit) s)
          ])
      go none = (refl, inr refl)
      go (some hit) =
          let m = hydrated local hit in
          (
            grind (
              arith,
              load_meta-save owner vault_id vault_id m s,
              str_eq_refl (meta_key owner vault_id),
            ),
            kept (non_empty local.description) refl hit,
          )

  -- Metadata that is returned is what the device then holds, with the description that it held
  -- before if that was not empty; if none is returned the device holds what it did.
  pub get_vault_meta-Stores :
      (backend : Bool) (answer : Answer A) (s : Metas A)
      → Stores s (get_vault_meta backend owner vault_id answer s)
  unfolding get_vault_meta
  get_vault_meta-Stores backend answer s =
      go (non_empty (load_meta owner vault_id s).withdrawal_destination || not backend)
    where
      go :
          (b : Bool)
          → Stores s (
              if b
              then (some (load_meta owner vault_id s), s)
              else ask_backend owner vault_id (load_meta owner vault_id s) answer s)
      go true = (refl, inr refl)
      go false = ask_backend-Stores answer s
