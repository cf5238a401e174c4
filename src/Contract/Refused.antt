-- ===== src/Contract/Refused.antt =====
-- What is left by a call of contracts/xlm_vault/src/lib.rs that fails, before the host takes it back.
use stellartimelock_core.Common.{ℕ, ◌+◌, ◌≡◌, ◌⊎◌, inl, String, Bool, none, or_else, arith}
use stellartimelock_core.Common.Action.{Result, ok, err}
use stellartimelock_core.Common.Int.{ℤ}
use stellartimelock_core.Contract.Host.{
  Error, invalid_amount, Failure, code, Address, Chain, Token, checked_u64,
}
use stellartimelock_core.Contract
use stellartimelock_core.Contract.Call.{Call, init, create_vault, deposit, extend_lock, withdraw}
use stellartimelock_core.Contract.Calls.{discard, attempt}

discard_err :
    {A C : Type 0} (x : Result Failure A × C) (e : Failure) (d : C)
    → discard x ≡ (err e, d)
    → x ≡ (err e, d)
discard_err (ok a, c) e d h = cc
discard_err (err e', c) e d h = ground arith

module _ {L : Type 0} (tk : Token L) (self : Address) (auth : Address → Bool) where
  deposit_refused :
      (caller : Address) (id : ℕ) (amount : ℤ) (c d : Chain L) (e : Error)
      → Contract.deposit tk self auth caller id amount c ≡ (err (code e), d)
      → d ≡ c
  unfolding Contract.deposit
  deposit_refused caller id amount c d e h = ground arith

  extend_refused :
      (caller : Address) (id seconds : ℕ) (c d : Chain L) (e : Failure)
      → Contract.extend_lock tk self auth caller id seconds c ≡ (err e, d)
      → d ≡ c
  unfolding Contract.extend_lock
  extend_refused caller id seconds c d e h = ground arith

  withdraw_refused :
      (caller : Address) (id : ℕ) (c d : Chain L) (e : Error)
      → Contract.withdraw tk self auth caller id c ≡ (err (code e), d)
      → d ≡ c
  unfolding Contract.withdraw
  withdraw_refused caller id c d e h = ground arith

  create_refused :
      (owner : Address) (name : String) (amount : ℤ) (unlock : ℕ) (c d : Chain L) (e : Error)
      → Contract.create_vault tk self auth owner name amount unlock c ≡ (err (code e), d)
      → (d ≡ c)
        ⊎ ((e ≡ invalid_amount)
            × (checked_u64 (or_else c.next_id 0 + 1) ≡ none)
            × (d ≡ record c { ledger = d.ledger }))
  unfolding Contract.create_vault
  create_refused owner name amount unlock c d e h = ground arith

  init_refused :
      (token : Address) (c d : Chain L) (e : Failure)
      → Contract.init tk self token c ≡ (err e, d)
      → d ≡ c
  unfolding Contract.init
  init_refused token c d e h = ground arith

  -- An error of the contract's own leaves the chain as it was, also without the host, unless the
  -- call was a creation for which there is no next id: that one may have moved tokens, nothing else.
  attempt_refused :
      (call : Call) (c d : Chain L) (e : Error)
      → attempt tk self auth call c ≡ (err (code e), d)
      → (d ≡ c)
        ⊎ ((e ≡ invalid_amount)
            × (checked_u64 (or_else c.next_id 0 + 1) ≡ none)
            × (d ≡ record c { ledger = d.ledger }))
  unfolding attempt
  attempt_refused (init token) c d e h = inl (init_refused token c d _ (discard_err _ _ d h))
  attempt_refused (create_vault owner name amount unlock) c d e h =
      create_refused owner name amount unlock c d e (discard_err _ _ d h)
  attempt_refused (deposit caller id amount) c d e h =
      inl (deposit_refused caller id amount c d e (discard_err _ _ d h))
  attempt_refused (extend_lock caller id seconds) c d e h =
      inl (extend_refused caller id seconds c d _ (discard_err _ _ d h))
  attempt_refused (withdraw caller id) c d e h =
      inl (withdraw_refused caller id c d e (discard_err _ _ d h))
