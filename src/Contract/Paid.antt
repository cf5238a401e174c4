-- ===== src/Contract/Paid.antt =====
-- Who is paid by contracts/xlm_vault/src/lib.rs, and when.
use stellartimelock_core.Common.{
  ℕ, ◌≤◌, ◌≡◌, ◌≢◌, sym, ap, ◌∙◌, ◌⊎◌, inl, inr, Bool, true, false, Option, some, arith,
}
use mathlib.Core.Path.{subst}
use stellartimelock_core.Common.Int.{ℤ, pos, pos_part, neg_part, ◌+ℤ◌, ◌-ℤ◌, ◌≤ℤ◌, leb_ℤ, int_laws}
use stellartimelock_core.Contract.Host.{Address, Vault, Chain, Token, IsLawful, put_vault}
use stellartimelock_core.Contract.Effects.{
  Effect, changed, rejected, initialised, created, deposited, extended, emptied,
}
use stellartimelock_core.Contract.Call.{Call}
use stellartimelock_core.Contract.Calls.{perform}
use stellartimelock_core.Contract.Calls.Effective.{perform-Effect}
use stellartimelock_core.Contract.Solvent.{some_inj}

abbrev pub emptied_vault : Vault → Vault
emptied_vault v = record v { balance = pos 0; withdrawn = true }

module _ {L : Type 0} (tk : Token L) (self : Address) (auth : Address → Bool) where
  -- Between the chains `c` and `d` the contract has paid all that a vault held, and nothing else, to
  -- its owner, who had authorised the call, after the unlock time.
  pub record IsPayout (asset : Address) (id : ℕ) (v : Vault) (c d : Chain L) : Type 0 where
    pub there : c.vaults id ≡ some v
    pub authorised : auth v.owner ≡ true
    pub not_before : v.withdrawn ≡ false
    pub due : v.unlock_timestamp ≤ c.now
    pub emptied : d.vaults id ≡ some (emptied_vault v)
    pub paid : tk.balance asset d.ledger self ≡ tk.balance asset c.ledger self -ℤ v.balance
    pub received :
        tk.balance asset d.ledger v.owner ≡ tk.balance asset c.ledger v.owner +ℤ v.balance

  abbrev pub Pays : Address → Chain L → Chain L → Type 0
  Pays asset c d =
      (tk.balance asset c.ledger self ≤ℤ tk.balance asset d.ledger self)
      ⊎ ((id : ℕ) × (v : Vault) × IsPayout asset id v c d)

  others : auth self ≡ false → (who : Address) → auth who ≡ true → who ≢ self
  others foreign who h e = cc

  at_self : (id : ℕ) (w : Vault) (vaults : ℕ → Option Vault) → put_vault id w vaults id ≡ some w
  at_self id w vaults = ground arith

  paid_in :
      (lawful : IsLawful tk) (foreign : auth self ≡ false) (who asset other : Address) (amount : ℤ)
      (c : Chain L) (ledger : L)
      → auth who ≡ true
      → leb_ℤ amount (pos 0) ≡ false
      → c.token ≡ some asset
      → c.token ≡ some other
      → tk.transfer asset who self amount c.ledger ≡ some ledger
      → tk.balance other c.ledger self ≤ℤ tk.balance other ledger self
  paid_in lawful foreign who asset other amount c ledger a p t h m =
      let e : asset ≡ other = some_inj (sym t ∙ h) in
      let funds = (lawful.moves asset who self amount c.ledger ledger (others foreign who a) m).1 in
      subst (λ x. tk.balance x c.ledger self ≤ℤ tk.balance x ledger self) e
        (let more : pos 0 ≤ℤ amount = ground arith in
          omega (int_laws, ap pos_part funds, ap neg_part funds))

  Effect-Pays :
      (lawful : IsLawful tk) (foreign : auth self ≡ false) (other : Address) {c d : Chain L}
      {call : Call}
      → Effect tk self auth c call d
      → c.token ≡ some other
      → Pays other c d
  Effect-Pays lawful foreign other (rejected none_fits) h = inl (omega arith)
  Effect-Pays lawful foreign other (changed (initialised token e)) h = inl (omega arith)
  Effect-Pays lawful foreign other {c}
        (changed (created owner name amount unlock asset ledger a p l t m n)) h =
      inl (paid_in lawful foreign owner asset other amount c ledger a p t h m)
  Effect-Pays lawful foreign other {c}
        (changed (deposited caller id v amount asset ledger a p f o w t m n)) h =
      inl (paid_in lawful foreign caller asset other amount c ledger a p t h m)
  Effect-Pays lawful foreign other (changed (extended caller id v seconds a p f o w n)) h =
      inl (omega arith)
  Effect-Pays lawful foreign other {c} (changed (emptied caller id v asset ledger a f o w l t m))
        h =
      let e : asset ≡ other = some_inj (sym t ∙ h) in
      let authorised = rw (sym o) at a in
      let not_self : self ≢ v.owner = λ z. others foreign v.owner authorised (sym z) in
      let m' : tk.transfer other self v.owner v.balance c.ledger ≡ some ledger = rw (sym e, o) m in
      let funds = lawful.moves other self v.owner v.balance c.ledger ledger not_self m' in
      inr (
        id,
        v,
        record {
          there = f;
          authorised = authorised;
          not_before = w;
          due = l;
          emptied = at_self id (emptied_vault v) c.vaults;
          paid = funds.0;
          received = funds.1;
        },
      )

  -- A call that the contract has not authorised lowers its balance of a lawful token only as a
  -- withdrawal: by all that one vault
  -- holds, paid to the vault's owner, who has authorised the call, once its unlock time has come, and
  -- the vault is withdrawn then.
  pub perform-Pays :
      (lawful : IsLawful tk) (foreign : auth self ≡ false) (asset : Address) (call : Call)
      (c : Chain L)
      → c.token ≡ some asset
      → Pays asset c (perform tk self auth call c)
  perform-Pays lawful foreign asset call c h =
      Effect-Pays lawful foreign asset (perform-Effect tk self auth call c) h
