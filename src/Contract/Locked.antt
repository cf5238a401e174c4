-- ===== src/Contract/Locked.antt =====
-- What a vault of contracts/xlm_vault/src/lib.rs keeps over time.
use stellartimelock_core.Common.{
  ℕ, ◌≤◌, ◌≡◌, ◌≢◌, refl, sym, ap, ◌∙◌, inl, inr, Bool-cases, Bool, true, false, Option, some,
  arith, ◌==◌,
}
use mathlib.Core.Path.{subst}
use stellartimelock_core.Common.Int.{pos, ◌≤ℤ◌, int_laws}
use stellartimelock_core.Contract.Host.{Address, Vault, Chain, Token, IsLawful, put_vault}
use stellartimelock_core.Contract.Call.{Call}
use stellartimelock_core.Contract.Effects.{
  Effect, changed, rejected, initialised, created, deposited, extended, emptied,
}
use stellartimelock_core.Contract.Calls.Effective.{perform-Effect}
use stellartimelock_core.Contract.Steps.{Step, called, passed, moved, Reach, here, next, IsNew}
use stellartimelock_core.Contract.Solvent.{
  IsSound, Step-IsSound, Reach-IsSound, below_new, some_inj,
}

-- The vault `v` has become `w` at the time `now`: it is the same owner's, its unlock time has not
-- gone back, withdrawn it stays as it is, it has lost nothing if it is not withdrawn, and it was not
-- withdrawn before its unlock time.
pub record IsKept (v w : Vault) (now : ℕ) : Type 0 where
  pub same_owner : w.owner ≡ v.owner
  pub same_creation : w.created_timestamp ≡ v.created_timestamp
  pub never_shortened : v.unlock_timestamp ≤ w.unlock_timestamp
  pub final : v.withdrawn ≡ true → w ≡ v
  pub nothing_lost : w.withdrawn ≡ false → v.balance ≤ℤ w.balance
  pub locked : v.withdrawn ≡ false → w.withdrawn ≡ true → v.unlock_timestamp ≤ now

differ : false ≢ true
differ h = cc

pub kept : (v : Vault) (now : ℕ) → IsKept v v now
kept v now = record {
  same_owner = refl;
  same_creation = refl;
  never_shortened = omega arith;
  final = λ h. refl;
  nothing_lost = λ h. omega arith;
  locked = λ h k. absurd (differ (sym h ∙ k));
}

IsKept-trans :
    (u v w : Vault) (early late : ℕ)
    → early ≤ late
    → IsKept u v early
    → IsKept v w late
    → IsKept u w late
IsKept-trans u v w early late le first second = record {
  same_owner = second.same_owner ∙ first.same_owner;
  same_creation = second.same_creation ∙ first.same_creation;
  never_shortened = omega arith;
  final = λ h. let e = first.final h in second.final (ap (λ x. x.withdrawn) e ∙ h) ∙ e;
  nothing_lost = λ h. elim (Bool-cases v.withdrawn) [
    | inl done ↦ absurd (differ (sym h ∙ ap (λ x. x.withdrawn) (second.final done) ∙ done))
    | inr open_still ↦ omega (arith, second.nothing_lost h, first.nothing_lost open_still)
  ];
  locked = λ h k. elim (Bool-cases v.withdrawn) [
    | inl done ↦ omega (arith, first.locked h done)
    | inr open_still ↦ omega (arith, second.locked open_still k)
  ];
}

-- The vault of an id as it was kept.
abbrev pub Kept : ℕ → Vault → (ℕ → Option Vault) → ℕ → Type 0
Kept id v vaults now = (w : Vault) × (vaults id ≡ some w) × IsKept v w now

-- A write to the vault `k`.
Kept-by_write :
    (vaults : ℕ → Option Vault) (now k id : ℕ) (old new v : Vault)
    → vaults k ≡ some old
    → IsKept old new now
    → vaults id ≡ some v
    → Kept id v (put_vault k new vaults) now
Kept-by_write vaults now k id old new v f keep h = elim (Bool-cases (id == k)) [
  | inl at ↦
      let here_it_is : id ≡ k = ground arith in
      let same : old ≡ v = some_inj (sym f ∙ rw (sym here_it_is) h) in
      (new, rw at refl, subst (λ x. IsKept x new now) same keep)
  | inr off ↦ (v, rw off h, kept v now)
]

module _ {L : Type 0} (tk : Token L) (self : Address) where
  module _ (auth : Address → Bool) where
    Effect-Kept :
        {c d : Chain L} {call : Call}
        → Effect tk self auth c call d
        → IsSound tk self c
        → (id : ℕ) (v : Vault) → c.vaults id ≡ some v
        → Kept id v d.vaults d.now
    Effect-Kept {c} (rejected none_fits) s id v h = (v, h, kept v c.now)
    Effect-Kept {c} (changed (initialised token e)) s id v h = (v, h, kept v c.now)
    Effect-Kept {c} (changed (created owner name amount unlock asset ledger a p l t m n)) s id v h =
        (v, ground (arith, below_new tk self c id v s h), kept v c.now)
    Effect-Kept {c} (changed (deposited caller k old amount asset ledger a p f o w t m n)) s id v
          h =
        Kept-by_write c.vaults c.now k id old _ v f
          (record {
            same_owner = refl;
            same_creation = refl;
            never_shortened = omega arith;
            final = λ done. absurd (differ (sym w ∙ done));
            nothing_lost = λ still. let more : pos 0 ≤ℤ amount = ground arith in omega int_laws;
            locked = λ h k. absurd (differ (sym h ∙ k));
          })
          h
    Effect-Kept {c} (changed (extended caller k old seconds a p f o w n)) s id v h =
        Kept-by_write c.vaults c.now k id old _ v f
          (record {
            same_owner = refl;
            same_creation = refl;
            never_shortened = omega arith;
            final = λ done. absurd (differ (sym w ∙ done));
            nothing_lost = λ still. omega arith;
            locked = λ h k. absurd (differ (sym h ∙ k));
          })
          h
    Effect-Kept {c} (changed (emptied caller k old asset ledger a f o w l t m)) s id v h =
        Kept-by_write c.vaults c.now k id old _ v f
          (record {
            same_owner = refl;
            same_creation = refl;
            never_shortened = omega arith;
            final = λ done. absurd (differ (sym w ∙ done));
            nothing_lost = λ still. absurd (differ (sym still));
            locked = λ h k. l;
          })
          h

    Effect-later : {c d : Chain L} {call : Call} → Effect tk self auth c call d → c.now ≤ d.now
    Effect-later (rejected none_fits) = omega arith
    Effect-later (changed (initialised token e)) = omega arith
    Effect-later (changed (created owner name amount unlock asset ledger a p l t m n)) = omega arith
    Effect-later (changed (deposited caller k old amount asset ledger a p f o w t m n)) =
        omega arith
    Effect-later (changed (extended caller k old seconds a p f o w n)) = omega arith
    Effect-later (changed (emptied caller k old asset ledger a f o w l t m)) = omega arith

  Step-Kept :
      {c d : Chain L}
      → Step tk self c d
      → IsSound tk self c
      → (id : ℕ) (v : Vault) → c.vaults id ≡ some v
      → Kept id v d.vaults d.now
  Step-Kept {c} (called auth call foreign) s id v h =
      Effect-Kept auth (perform-Effect tk self auth call c) s id v h
  Step-Kept (passed later le) s id v h = (v, h, kept v later)
  Step-Kept {c} (moved ledger more) s id v h = (v, h, kept v c.now)

  pub Step-later : {c d : Chain L} → Step tk self c d → c.now ≤ d.now
  Step-later {c} (called auth call foreign) = Effect-later auth (perform-Effect tk self auth call c)
  Step-later (passed later le) = le
  Step-later (moved ledger more) = omega arith

  IsSound-Kept :
      (lawful : IsLawful tk) {c d : Chain L}
      → Reach tk self c d
      → IsSound tk self c
      → (id : ℕ) (v : Vault) → c.vaults id ≡ some v
      → IsSound tk self d × Kept id v d.vaults d.now
  IsSound-Kept lawful {c} here s id v h = (s, (v, h, kept v c.now))
  IsSound-Kept lawful (next r step) s id v h =
      let (sound, (w, e, keep)) = IsSound-Kept lawful r s id v h in
      let (x, e', keep') = Step-Kept step sound id w e in
      (
        Step-IsSound tk self lawful step sound,
        (x, e', IsKept-trans v w x _ _ (Step-later step) keep keep'),
      )

  -- Once a vault is made on a deployed contract, it is there ever after, its owner's; its unlock time
  -- never goes back; it loses nothing before it is withdrawn, is not withdrawn before the unlock time
  -- that it had, and is never written again after that, for a lawful token.
  pub Reach-Kept :
      (lawful : IsLawful tk) (b c d : Chain L)
      → IsNew b
      → Reach tk self b c
      → Reach tk self c d
      → (id : ℕ) (v : Vault) → c.vaults id ≡ some v
      → Kept id v d.vaults d.now
  Reach-Kept lawful b c d new before after id v h =
      (IsSound-Kept lawful after (Reach-IsSound tk self lawful b c new before) id v h).1
