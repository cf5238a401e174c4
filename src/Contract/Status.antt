-- ===== src/Contract/Status.antt =====
-- The status that src/api/soroban-client.ts shows for a vault that it has read from the contract,
-- against what contracts/xlm_vault/src/lib.rs answers to a withdrawal.
use stellartimelock_core.Common.{
  ℕ, ◌≡◌, inl, inr, ◌∙◌, Bool-cases, Option-cases, Bool, true, false, Option, none, some,
  str_eq_refl, ltb, arith, if◌then◌else◌,
}
use stellartimelock_core.Common.Action.{Result, ok, err}
use stellartimelock_core.Common.Int.{pos}
use stellartimelock_core.Api.Vault.{
  Platform, ContractVault, VaultStatus, locked, unlocked, withdrawn, archived, status_for, by_time,
}
use stellartimelock_core.Contract
use stellartimelock_core.Contract.Host.{
  Error, still_locked, already_withdrawn, Failure, code, trap, Address, Vault, Chain, Token,
}

-- The vault as `decodeVault` reads it.
abbrev pub read : Vault → ContractVault
read v = record {
  vault_id = v.vault_id;
  owner = v.owner;
  name = v.name;
  balance = v.balance;
  unlock_timestamp = v.unlock_timestamp;
  created_timestamp = v.created_timestamp;
  withdrawn = v.withdrawn;
}

-- The contract's error, if the call ended with one.
abbrev pub refusal : {A C : Type 0} → Result Failure A × C → Option Error
refusal (err (code e), c) = some e
refusal (err trap, c) = none
refusal (ok a, c) = none

-- The error that a status announces.
abbrev pub announced : VaultStatus → Option Error
announced locked = some still_locked
announced withdrawn = some already_withdrawn
announced unlocked = none
announced archived = none

by_time_lem :
    (now unlock : ℕ)
    → by_time (pos now) (pos unlock) ≡ (if ltb now unlock then locked else unlocked)
by_time_lem now unlock = ground arith

module _ {L A : Type 0} (tk : Token L) (self : Address) (auth : Address → Bool)
    (pf : Platform A) where
  withdraw_withdrawn :
      (id : ℕ) (v : Vault) (c : Chain L)
      → auth v.owner ≡ true
      → c.vaults id ≡ some v
      → v.withdrawn ≡ true
      → refusal (Contract.withdraw tk self auth v.owner id c) ≡ some already_withdrawn
  unfolding Contract.withdraw
  withdraw_withdrawn id v c a f w = simp (a, f, w, str_eq_refl v.owner)

  withdraw_locked :
      (id : ℕ) (v : Vault) (c : Chain L)
      → auth v.owner ≡ true
      → c.vaults id ≡ some v
      → v.withdrawn ≡ false
      → ltb c.now v.unlock_timestamp ≡ true
      → refusal (Contract.withdraw tk self auth v.owner id c) ≡ some still_locked
  unfolding Contract.withdraw
  withdraw_locked id v c a f w l = simp (a, f, w, l, str_eq_refl v.owner)

  withdraw_unlocked :
      (id : ℕ) (v : Vault) (c : Chain L)
      → auth v.owner ≡ true
      → c.vaults id ≡ some v
      → v.withdrawn ≡ false
      → ltb c.now v.unlock_timestamp ≡ false
      → refusal (Contract.withdraw tk self auth v.owner id c) ≡ none
  unfolding Contract.withdraw
  withdraw_unlocked id v c a f w l = elim (Option-cases c.token) [
    | inl t ↦ simp (a, f, w, l, t, str_eq_refl v.owner)
    | inr (asset, t) ↦ elim (Option-cases (tk.transfer asset self v.owner v.balance c.ledger)) [
      | inl m ↦ simp (a, f, w, l, t, m, str_eq_refl v.owner)
      | inr (ledger, m) ↦ simp (a, f, w, l, t, m, str_eq_refl v.owner)
    ]
  ]

  -- At a clock that agrees with the ledger's, the status shown for a vault announces just what the
  -- contract answers to a withdrawal by its owner: locked, that it is still locked; withdrawn, that it
  -- was withdrawn already; unlocked, no error of the contract's own.
  pub withdraw-status_for :
      (id : ℕ) (v : Vault) (c : Chain L)
      → auth v.owner ≡ true
      → c.vaults id ≡ some v
      → refusal (Contract.withdraw tk self auth v.owner id c)
        ≡ announced (status_for pf (read v) (pos c.now))
  unfolding status_for
  withdraw-status_for id v c a f = elim (Bool-cases v.withdrawn) [
    | inl w ↦ withdraw_withdrawn id v c a f w ∙ simp (w)
    | inr w ↦ elim (Bool-cases (ltb c.now v.unlock_timestamp)) [
      | inl l ↦ withdraw_locked id v c a f w l ∙ simp (w, l, by_time_lem c.now v.unlock_timestamp)
      | inr l ↦ withdraw_unlocked id v c a f w l ∙ simp (w, l, by_time_lem c.now v.unlock_timestamp)
    ]
  ]
