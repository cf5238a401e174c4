-- ===== src/Contract/Due.antt =====
-- A vault of contracts/xlm_vault/src/lib.rs that is due can be withdrawn.
use stellartimelock_core.Common.{
  ℕ, ◌≤◌, ◌<◌, ◌≡◌, inl, inr, Option-cases, Bool, true, false, some, str_eq_refl, arith,
}
use stellartimelock_core.Common.Action.{ok}
use stellartimelock_core.Common.Int.{ℤ, pos, ◌≤ℤ◌}
use stellartimelock_core.Contract.Host.{Address, Vault, Chain, Token, IsLawful}
use stellartimelock_core.Contract
use stellartimelock_core.Contract.Effects.{new_id, withdraw_run, after_withdraw}
use stellartimelock_core.Contract.Steps.{Reach, IsNew}
use stellartimelock_core.Contract.Solvent.{IsSound, Reach-IsSound, below_new}
use stellartimelock_core.Contract.Total.{held, held-le-total, total}

module _ {L : Type 0} (tk : Token L) (self : Address) where
  -- The token contract does not refuse to transfer what the contract has.
  abbrev pub NeverRefuses : Type 0
  NeverRefuses =
      (asset who : Address) (amount : ℤ) (l : L)
      → pos 0 ≤ℤ amount
      → amount ≤ℤ tk.balance asset l self
      → (l' : L) × (tk.transfer asset self who amount l ≡ some l')

  all_held : (c : Chain L) → IsSound tk self c → (id : ℕ) → pos 0 ≤ℤ held (c.vaults id)
  all_held c s id = elim (Option-cases (c.vaults id)) [
    | inl nothing ↦ rw nothing (omega arith)
    | inr (v, e) ↦ rw e ((s.stored id v e).not_negative)
  ]

  has_asset :
      (c : Chain L) (id : ℕ)
      → IsSound tk self c
      → id < new_id c
      → (asset : Address) × (c.token ≡ some asset)
  has_asset c id s lt = elim (Option-cases c.token) [
    | inl missing ↦ absurd (omega (arith, s.idle missing))
    | inr found ↦ found
  ]

  covered :
      (c : Chain L) (id : ℕ) (v : Vault) (asset : Address)
      → IsSound tk self c
      → c.vaults id ≡ some v
      → c.token ≡ some asset
      → v.balance ≤ℤ tk.balance asset c.ledger self
  covered c id v asset s f t =
      let part =
        held-le-total c.vaults (all_held c s) id (new_id c) (below_new tk self c id v s f) in
      let part' : v.balance ≤ℤ total c.vaults (new_id c) = rw f at part in
      omega (arith, part', s.solvent asset t)

  -- Whatever has happened on a deployed contract, a vault that is not withdrawn and whose unlock time
  -- has come pays all that it holds to its owner when the owner asks, if the token contract does not
  -- refuse transfers of what the contract has and is lawful.
  pub withdraw-Pays :
      (lawful : IsLawful tk) (grants : NeverRefuses) (auth : Address → Bool) (b c : Chain L)
      → IsNew b
      → Reach tk self b c
      → (id : ℕ) (v : Vault) → c.vaults id ≡ some v
      → v.withdrawn ≡ false
      → v.unlock_timestamp ≤ c.now
      → auth v.owner ≡ true
      → (asset : Address) × (ledger : L) × (c.token ≡ some asset)
        × (tk.transfer asset self v.owner v.balance c.ledger ≡ some ledger)
        × (Contract.withdraw tk self auth v.owner id c
            ≡ (ok v.balance, after_withdraw v.owner id v ledger c))
  withdraw-Pays lawful grants auth b c new r id v f w l a =
      let s = Reach-IsSound tk self lawful b c new r in
      let (asset, t) = has_asset c id s (below_new tk self c id v s f) in
      let (ledger, m) =
        grants asset v.owner v.balance c.ledger (s.stored id v f).not_negative
          (covered c id v asset s f t) in
      (
        asset,
        ledger,
        t,
        m,
        withdraw_run tk self auth v.owner id v c asset ledger a f (str_eq_refl v.owner) w
            (ground arith) t m,
      )
