-- ===== src/Api/Listing/Totals.antt =====
-- What `summary` of src/api/soroban-client.ts adds up.
use stellartimelock_core.Common.{
  ◌+◌, Bool, true, false, ◌≡◌, ◌||◌, List, [], ◌∷◌, keep, arith, length,
}
use stellartimelock_core.Api.Vault.{Platform, Vault, VaultStatus, locked, unlocked}
use stellartimelock_core.Api.Listing.{Summary, no_rows, count_row, add_up, summary}

-- The three kinds of rows that `summary` tells apart.
abbrev is_locked : VaultStatus → Bool
is_locked locked = true
is_locked _ = false

abbrev is_unlocked : VaultStatus → Bool
is_unlocked unlocked = true
is_unlocked _ = false

module _ {A : Type 0} (pf : Platform A) where
  -- Balances added from the left, as a loop does it.
  abbrev pub total : A → List (Vault A) → A
  total t [] = t
  total t (v ∷ vs) = total (pf.add t v.balance) vs

  add_up_lem :
      (vs : List (Vault A)) (t : Summary A)
      → let s = add_up pf vs t in
        (s.total_locked ≡ total t.total_locked (keep (λ v. is_locked v.status) vs))
        × (s.total_unlocked ≡ total t.total_unlocked (keep (λ v. is_unlocked v.status) vs))
        × (s.active_vaults + s.completed_vaults
            ≡ length vs + (t.active_vaults + t.completed_vaults))
        × (s.active_vaults
            ≡ t.active_vaults + length (keep (λ v. is_locked v.status || is_unlocked v.status) vs))
  unfolding add_up count_row
  add_up_lem [] t = ground arith
  add_up_lem (v ∷ vs) t = ground (arith, add_up_lem vs (count_row pf v t))

  -- What `summary` returns: the balances of the locked rows added up, and of the unlocked rows; the
  -- rows that are locked or unlocked counted as active, and all others as completed.
  summary_lem :
      (vs : List (Vault A))
      → let s = summary pf vs in
        (s.total_locked ≡ total pf.zero_xlm (keep (λ v. is_locked v.status) vs))
        × (s.total_unlocked ≡ total pf.zero_xlm (keep (λ v. is_unlocked v.status) vs))
        × (s.active_vaults ≡ length (keep (λ v. is_locked v.status || is_unlocked v.status) vs))
        × (s.active_vaults + s.completed_vaults ≡ length vs)
  unfolding summary
  summary_lem vs = ground (arith, add_up_lem vs (no_rows pf))
