-- ===== src/Contract/Owned.antt =====
-- The index of each owner's vaults in contracts/xlm_vault/src/lib.rs.
use stellartimelock_core.Common.{
  ℕ, zero, suc, ◌+◌, ◌≤◌, ◌≡◌, refl, sym, ap, ◌∙◌, inl, inr, Bool-cases, Bool, false, Option, none,
  some, List, [], ◌∷◌, ◌++◌, str_eq, str_eq_iff, or_else, arith, ◌==◌, if◌then◌else◌,
}
use stellartimelock_core.Common.Action.{ok}
use stellartimelock_core.Contract.Host.{
  Address, Vault, Chain, Token, IsLawful, put_vault, put_owned,
}
use stellartimelock_core.Contract
use stellartimelock_core.Contract.Call.{Call}
use stellartimelock_core.Contract.Effects.{
  Effect, changed, rejected, initialised, created, deposited, extended, emptied, new_id, new_vault,
}
use stellartimelock_core.Contract.Calls.Effective.{perform-Effect}
use stellartimelock_core.Contract.Steps.{Step, called, passed, moved, Reach, here, next, IsNew}
use stellartimelock_core.Contract.Solvent.{IsSound, Reach-IsSound}

abbrev pub owned_by : Address → Option Vault → Bool
owned_by who none = false
owned_by who (some v) = str_eq v.owner who

-- The ids below `n` of the vaults that are `who`'s, each once, in ascending order.
pub ids_of : (ℕ → Option Vault) → Address → ℕ → List ℕ
ids_of vaults who zero = []
ids_of vaults who (suc n) =
    if owned_by who (vaults n) then ids_of vaults who n ++ n ∷ [] else ids_of vaults who n

ids_none : (vaults : ℕ → Option Vault) (who : Address) → ids_of vaults who 0 ≡ []
unfolding ids_of
ids_none vaults who = refl

module _ (who : Address) (k : ℕ) (w : Vault) (vaults : ℕ → Option Vault) where
  ids_above : (n : ℕ) → n ≤ k → ids_of (put_vault k w vaults) who n ≡ ids_of vaults who n
  unfolding ids_of
  ids_above zero h = refl
  ids_above (suc n) h = ground (arith, ids_above n)

  ids_new :
      ids_of (put_vault k w vaults) who (k + 1)
      ≡ (if str_eq w.owner who then ids_of vaults who k ++ k ∷ [] else ids_of vaults who k)
  unfolding ids_of
  ids_new = let step : k + 1 ≡ suc k = omega arith in rw step (ground (arith, ids_above k))

  ids_same :
      (v : Vault)
      → vaults k ≡ some v
      → w.owner ≡ v.owner
      → (n : ℕ) → ids_of (put_vault k w vaults) who n ≡ ids_of vaults who n
  unfolding ids_of
  ids_same v f o zero = refl
  ids_same v f o (suc n) = elim (Bool-cases (n == k)) [
    | inl at ↦ let e : n ≡ k = ground arith in rw (at, ids_same v f o n, o) (rw e (rw f refl))
    | inr off ↦ rw (off, ids_same v f o n) refl
  ]

module _ {L : Type 0} (tk : Token L) (self : Address) where
  abbrev IsIndexed : Chain L → Type 0
  IsIndexed c = (who : Address) → or_else (c.owned who) [] ≡ ids_of c.vaults who (new_id c)

  created_index :
      (c : Chain L) (owner who : Address) (w : Vault)
      → w.owner ≡ owner
      → IsIndexed c
      → or_else (put_owned owner (or_else (c.owned owner) [] ++ new_id c ∷ []) c.owned who) [] ≡ (
          if str_eq w.owner who
          then ids_of c.vaults who (new_id c) ++ new_id c ∷ []
          else ids_of c.vaults who (new_id c))
  created_index c owner who w o i = elim (Bool-cases (str_eq owner who)) [
    | inl his ↦
        let e : owner ≡ who = (str_eq_iff owner who).0 his in
        rw (o, his) (rw e (ap (λ l. l ++ new_id c ∷ []) (i who)))
    | inr not_his ↦ rw (o, not_his) (i who)
  ]

  module _ (auth : Address → Bool) where
    Effect-IsIndexed :
        {c d : Chain L} {call : Call}
        → Effect tk self auth c call d
        → IsSound tk self c
        → IsIndexed c
        → IsIndexed d
    Effect-IsIndexed {c} (rejected none_fits) s i who = i who
    Effect-IsIndexed {c} (changed (initialised token e)) s i who = rw (sym (s.idle e)) (i who)
    Effect-IsIndexed {c} (changed (created owner name amount unlock asset ledger a p l t m n)) s i
          who =
        created_index c owner who (new_vault (new_id c) owner name amount unlock c.now) refl i
        ∙ sym
            (ids_new who (new_id c) (new_vault (new_id c) owner name amount unlock c.now) c.vaults)
    Effect-IsIndexed {c} (changed (deposited caller id v amount asset ledger a p f o w t m n)) s i
          who =
        i who ∙ sym (ids_same who id _ c.vaults v f refl (new_id c))
    Effect-IsIndexed {c} (changed (extended caller id v seconds a p f o w n)) s i who =
        i who ∙ sym (ids_same who id _ c.vaults v f refl (new_id c))
    Effect-IsIndexed {c} (changed (emptied caller id v asset ledger a f o w l t m)) s i who =
        i who ∙ sym (ids_same who id _ c.vaults v f refl (new_id c))

  Step-IsIndexed :
      {c d : Chain L} → Step tk self c d → IsSound tk self c → IsIndexed c → IsIndexed d
  Step-IsIndexed {c} (called auth call foreign) s i =
      Effect-IsIndexed auth (perform-Effect tk self auth call c) s i
  Step-IsIndexed (passed later le) s i = i
  Step-IsIndexed (moved ledger more) s i = i

  Reach-IsIndexed :
      (lawful : IsLawful tk) {c d : Chain L} → IsNew c → Reach tk self c d → IsIndexed d
  Reach-IsIndexed lawful new here who = rw (new.no_index who, new.no_id) (sym (ids_none _ who))
  Reach-IsIndexed lawful {c} new (next {d} r step) who =
      Step-IsIndexed step (Reach-IsSound tk self lawful c d new r) (Reach-IsIndexed lawful new r)
        who

  -- On a deployed contract, however it was called, `list_owned` gives the ids of the owner's vaults,
  -- all of them, each once, in ascending order, withdrawn ones included, and changes nothing,
  -- for a lawful token.
  pub list_owned_ids :
      (lawful : IsLawful tk) (b c : Chain L)
      → IsNew b
      → Reach tk self b c
      → (who : Address)
      → Contract.list_owned tk self who c ≡ (ok (ids_of c.vaults who (new_id c)), c)
  unfolding Contract.list_owned
  list_owned_ids lawful b c new r who =
      ap (λ (l : List ℕ). (ok l, c)) (Reach-IsIndexed lawful new r who)
