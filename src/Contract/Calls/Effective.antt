-- ===== src/Contract/Calls/Effective.antt =====
-- A call of contracts/xlm_vault/src/lib.rs makes the change that Effects has for it just when it can.
use stellartimelock_core.Common.{
  ℕ, ◌+◌, ◌≡◌, refl, sym, ap, ◌∙◌, String, Bool, true, false, none, some, str_eq, str_eq_iff, leb,
  ltb, ◌==◌, or_else, arith, Option-cases, ◌≢◌, inl, inr,
}
use mathlib.Core.Path.{subst}
use stellartimelock_core.Common.Action.{Result, ok, err}
use stellartimelock_core.Common.Int.{ℤ, pos, leb_ℤ, ◌+ℤ◌}
use stellartimelock_core.Contract.Host.{
  Failure, Address, Vault, Chain, Token, checked_u64, checked_i128, settle,
}
use stellartimelock_core.Contract
use stellartimelock_core.Contract.Effects.{
  Change, initialised, created, deposited, extended, emptied, Effect, changed, rejected, after_init,
  after_create, after_deposit, after_extend, after_withdraw, new_id, init_run, create_run,
  deposit_run, extend_run, withdraw_run,
}
use stellartimelock_core.Contract.Call.{Call, init, create_vault, deposit, extend_lock, withdraw}
use stellartimelock_core.Contract.Calls.{discard, attempt, perform}

discard_ok :
    {A C : Type 0} (x : Result Failure A × C) (d : C)
    → discard x ≡ (ok tt, d)
    → (a : A) × (x ≡ (ok a, d))
discard_ok (ok a, c) d h = (a, ap (λ r. (ok a, r.1)) h)
discard_ok (err e, c) d h = absurd (cc h)

module _ {L : Type 0} (tk : Token L) (self : Address) (auth : Address → Bool) where
  -- The chain that a call leaves is the one that its run is known to end in.
  change_of :
      {A : Type 0} (call : Call) (c d d' : Chain L) (x : Result Failure A × Chain L) (a a' : A)
      → x ≡ (ok a, d)
      → x ≡ (ok a', d')
      → Change tk self auth c call d'
      → Change tk self auth c call d
  change_of call c d d' x a a' h k e =
      subst (Change tk self auth c call) (ap (λ r. r.1) (sym k ∙ h)) e

  create_fits :
      (owner : Address) (name : String) (amount : ℤ) (unlock : ℕ) (c d : Chain L) (id : ℕ)
      → Contract.create_vault tk self auth owner name amount unlock c ≡ (ok id, d)
      → (asset : Address) × (ledger : L) × (auth owner ≡ true)
        × (leb_ℤ amount (pos 0) ≡ false)
        × (leb unlock c.now ≡ false)
        × (c.token ≡ some asset)
        × (tk.transfer asset owner self amount c.ledger ≡ some ledger)
        × (checked_u64 (new_id c + 1) ≡ some (new_id c + 1))
  unfolding Contract.create_vault checked_u64
  create_fits owner name amount unlock c d id h = (
    or_else c.token "",
    or_else (tk.transfer (or_else c.token "") owner self amount c.ledger) c.ledger,
    ground arith,
    ground arith,
    ground arith,
    ground arith,
    ground arith,
    ground arith,
  )

  create-Change :
      (owner : Address) (name : String) (amount : ℤ) (unlock : ℕ) (c d : Chain L) (id : ℕ)
      → Contract.create_vault tk self auth owner name amount unlock c ≡ (ok id, d)
      → Change tk self auth c (create_vault owner name amount unlock) d
  create-Change owner name amount unlock c d id h =
      let (asset, ledger, a, p, l, t, m, n) = create_fits owner name amount unlock c d id h in
      change_of _ c d (after_create owner name amount unlock ledger c) _ id (new_id c) h
        (create_run tk self auth owner name amount unlock c asset ledger t m a p l n)
        (created owner name amount unlock asset ledger a p l t m n)

  deposit_missing :
      (caller : Address) (id : ℕ) (amount : ℤ) (c d : Chain L)
      → Contract.deposit tk self auth caller id amount c ≡ (ok tt, d)
      → c.vaults id ≢ none
  unfolding Contract.deposit
  deposit_missing caller id amount c d h = ground arith

  deposit_fits :
      (caller : Address) (id : ℕ) (amount : ℤ) (c d : Chain L) (v : Vault)
      → Contract.deposit tk self auth caller id amount c ≡ (ok tt, d)
      → c.vaults id ≡ some v
      → (asset : Address) × (ledger : L) × (auth caller ≡ true)
        × (leb_ℤ amount (pos 0) ≡ false)
        × (str_eq v.owner caller ≡ true)
        × (v.withdrawn ≡ false)
        × (c.token ≡ some asset)
        × (tk.transfer asset caller self amount c.ledger ≡ some ledger)
        × (checked_i128 (v.balance +ℤ amount) ≡ some (v.balance +ℤ amount))
  unfolding Contract.deposit checked_i128
  deposit_fits caller id amount c d v h f = (
    or_else c.token "",
    or_else (tk.transfer (or_else c.token "") caller self amount c.ledger) c.ledger,
    ground arith,
    ground arith,
    ground arith,
    ground arith,
    ground arith,
    ground arith,
    ground arith,
  )

  deposit-Change :
      (caller : Address) (id : ℕ) (amount : ℤ) (c d : Chain L)
      → Contract.deposit tk self auth caller id amount c ≡ (ok tt, d)
      → Change tk self auth c (deposit caller id amount) d
  deposit-Change caller id amount c d h = elim (Option-cases (c.vaults id)) [
    | inl missing ↦ absurd (deposit_missing caller id amount c d h missing)
    | inr (v, f) ↦
        let (asset, ledger, a, p, o, w, t, m, n) = deposit_fits caller id amount c d v h f in
        change_of _ c d (after_deposit caller id v amount ledger c) _ tt tt h
          (deposit_run tk self auth caller id v amount c asset ledger a p f o w t m n)
          (deposited caller id v amount asset ledger a p f ((str_eq_iff v.owner caller).0 o) w t m
            n)
  ]

  extend_missing :
      (caller : Address) (id seconds : ℕ) (c d : Chain L) (unlock : ℕ)
      → Contract.extend_lock tk self auth caller id seconds c ≡ (ok unlock, d)
      → c.vaults id ≢ none
  unfolding Contract.extend_lock
  extend_missing caller id seconds c d unlock h = ground arith

  extend_fits :
      (caller : Address) (id seconds : ℕ) (c d : Chain L) (v : Vault) (unlock : ℕ)
      → Contract.extend_lock tk self auth caller id seconds c ≡ (ok unlock, d)
      → c.vaults id ≡ some v
      → (auth caller ≡ true)
        × ((seconds == 0) ≡ false)
        × (str_eq v.owner caller ≡ true)
        × (v.withdrawn ≡ false)
        × (checked_u64 (v.unlock_timestamp + seconds) ≡ some (v.unlock_timestamp + seconds))
  unfolding Contract.extend_lock checked_u64
  extend_fits caller id seconds c d v unlock h f =
      (ground arith, ground arith, ground arith, ground arith, ground arith)

  extend-Change :
      (caller : Address) (id seconds : ℕ) (c d : Chain L) (unlock : ℕ)
      → Contract.extend_lock tk self auth caller id seconds c ≡ (ok unlock, d)
      → Change tk self auth c (extend_lock caller id seconds) d
  extend-Change caller id seconds c d unlock h = elim (Option-cases (c.vaults id)) [
    | inl missing ↦ absurd (extend_missing caller id seconds c d unlock h missing)
    | inr (v, f) ↦
        let (a, p, o, w, n) = extend_fits caller id seconds c d v unlock h f in
        change_of _ c d (after_extend caller id v seconds c) _ unlock (v.unlock_timestamp + seconds)
          h (extend_run tk self auth caller id v seconds c a p f o w n)
          (extended caller id v seconds a (ground arith) f ((str_eq_iff v.owner caller).0 o) w n)
  ]

  withdraw_missing :
      (caller : Address) (id : ℕ) (c d : Chain L) (amount : ℤ)
      → Contract.withdraw tk self auth caller id c ≡ (ok amount, d)
      → c.vaults id ≢ none
  unfolding Contract.withdraw
  withdraw_missing caller id c d amount h = ground arith

  withdraw_fits :
      (caller : Address) (id : ℕ) (c d : Chain L) (v : Vault) (amount : ℤ)
      → Contract.withdraw tk self auth caller id c ≡ (ok amount, d)
      → c.vaults id ≡ some v
      → (asset : Address) × (ledger : L) × (auth caller ≡ true)
        × (str_eq v.owner caller ≡ true)
        × (v.withdrawn ≡ false)
        × (ltb c.now v.unlock_timestamp ≡ false)
        × (c.token ≡ some asset)
        × (tk.transfer asset self caller v.balance c.ledger ≡ some ledger)
  unfolding Contract.withdraw
  withdraw_fits caller id c d v amount h f = (
    or_else c.token "",
    or_else (tk.transfer (or_else c.token "") self caller v.balance c.ledger) c.ledger,
    ground arith,
    ground arith,
    ground arith,
    ground arith,
    ground arith,
    ground arith,
  )

  withdraw-Change :
      (caller : Address) (id : ℕ) (c d : Chain L) (amount : ℤ)
      → Contract.withdraw tk self auth caller id c ≡ (ok amount, d)
      → Change tk self auth c (withdraw caller id) d
  withdraw-Change caller id c d amount h = elim (Option-cases (c.vaults id)) [
    | inl missing ↦ absurd (withdraw_missing caller id c d amount h missing)
    | inr (v, f) ↦
        let (asset, ledger, a, o, w, l, t, m) = withdraw_fits caller id c d v amount h f in
        change_of _ c d (after_withdraw caller id v ledger c) _ amount v.balance h
          (withdraw_run tk self auth caller id v c asset ledger a f o w l t m)
          (emptied caller id v asset ledger a f ((str_eq_iff v.owner caller).0 o) w (ground arith) t
            m)
  ]

  init_fits :
      (token : Address) (c d : Chain L)
      → Contract.init tk self token c ≡ (ok tt, d)
      → c.token ≡ none
  unfolding Contract.init
  init_fits token c d h = elim (Option-cases c.token) [
    | inl empty ↦ empty
    | inr (t, e) ↦ absurd (cc (rw e at h))
  ]

  init-Change :
      (token : Address) (c d : Chain L)
      → Contract.init tk self token c ≡ (ok tt, d)
      → Change tk self auth c (init token) d
  init-Change token c d h =
      let e = init_fits token c d h in
      change_of _ c d (after_init token c) _ tt tt h (init_run tk self auth token c e)
        (initialised token e)

  attempt-Change :
      (call : Call) (c d : Chain L)
      → attempt tk self auth call c ≡ (ok tt, d)
      → Change tk self auth c call d
  unfolding attempt
  attempt-Change (init token) c d h = init-Change token c d (discard_ok _ d h).1
  attempt-Change (create_vault owner name amount unlock) c d h =
      create-Change owner name amount unlock c d _ (discard_ok _ d h).1
  attempt-Change (deposit caller id amount) c d h =
      deposit-Change caller id amount c d (discard_ok _ d h).1
  attempt-Change (extend_lock caller id seconds) c d h =
      extend-Change caller id seconds c d _ (discard_ok _ d h).1
  attempt-Change (withdraw caller id) c d h = withdraw-Change caller id c d _ (discard_ok _ d h).1

  Change-attempt :
      {c d : Chain L} {call : Call}
      → Change tk self auth c call d
      → attempt tk self auth call c ≡ (ok tt, d)
  unfolding attempt
  Change-attempt {c} (initialised token e) = ap discard (init_run tk self auth token c e)
  Change-attempt {c} (created owner name amount unlock asset ledger a p l t m n) =
      ap discard (create_run tk self auth owner name amount unlock c asset ledger t m a p l n)
  Change-attempt {c} (deposited caller id v amount asset ledger a p f o w t m n) = ap discard (
      deposit_run tk self auth caller id v amount c asset ledger a p f
        ((str_eq_iff v.owner caller).1 o) w t m n)
  Change-attempt {c} (extended caller id v seconds a p f o w n) = ap discard (
      extend_run tk self auth caller id v seconds c a (ground arith) f
        ((str_eq_iff v.owner caller).1 o) w n)
  Change-attempt {c} (emptied caller id v asset ledger a f o w l t m) = ap discard (
      withdraw_run tk self auth caller id v c asset ledger a f ((str_eq_iff v.owner caller).1 o) w
        (ground arith) t m)

  settle-Effect :
      (call : Call) (c : Chain L) (x : Result Failure (Unit {0}) × Chain L)
      → attempt tk self auth call c ≡ x
      → Effect tk self auth c call (settle c x)
  settle-Effect call c (ok a, d) h = changed (attempt-Change call c d h)
  settle-Effect call c (err e, d) h =
      rejected (λ other change. absurd (cc (h, Change-attempt change)))

  -- A call makes the change that belongs to it, with its own arguments, when that change's guards
  -- hold; when there is no change that it can make, the chain stays as it is, the host taking back
  -- what was written.
  pub perform-Effect :
      (call : Call) (c : Chain L) → Effect tk self auth c call (perform tk self auth call c)
  unfolding perform
  perform-Effect call c = settle-Effect call c (attempt tk self auth call c) refl
