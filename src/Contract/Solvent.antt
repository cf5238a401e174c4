-- ===== src/Contract/Solvent.antt =====
-- The contract of contracts/xlm_vault/src/lib.rs has at least what its vaults hold.
use stellartimelock_core.Common.{
  ℕ, ◌+◌, ◌≤◌, ◌<◌, ◌≡◌, ◌≢◌, refl, sym, ap, ◌∙◌, inl, inr, Bool-cases, Bool, true, false, Option,
  none, some, List, arith, ◌==◌, or_else,
}
use mathlib.Core.Path.{subst}
use native.Mathlib.Decide.{dec_lt}
use stellartimelock_core.Common.Int.{ℤ, pos, ◌+ℤ◌, ◌≤ℤ◌, leb_ℤ, int_laws}
use stellartimelock_core.Contract.Host.{Address, Vault, Event, Chain, Token, IsLawful, put_vault}
use stellartimelock_core.Contract.Call.{Call}
use stellartimelock_core.Contract.Effects.{
  Effect, changed, rejected, initialised, created, deposited, extended, emptied, new_id, new_vault,
}
use stellartimelock_core.Contract.Calls.Effective.{perform-Effect}
use stellartimelock_core.Contract.Steps.{Step, called, passed, moved, Reach, here, next, IsNew}
use stellartimelock_core.Contract.Total.{
  total, total_none, total_put_new, total_change, still_covered, up_from, back_from,
}

-- A vault under its own id that holds nothing below zero, and nothing once withdrawn.
pub record IsStored (id : ℕ) (v : Vault) : Type 0 where
  pub own_id : v.vault_id ≡ id
  pub not_negative : pos 0 ≤ℤ v.balance
  pub withdrawn_is_empty : v.withdrawn ≡ true → v.balance ≡ pos 0

pub some_inj : {A : Type 0} {a b : A} → some a ≡ some b → a ≡ b
some_inj h = cc

pub none-ne-some : {A : Type 0} {a : A} → none ≢ some a
none-ne-some h = cc

grows : (a b : ℤ) → pos 0 ≤ℤ a → leb_ℤ b (pos 0) ≡ false → pos 0 ≤ℤ a +ℤ b
grows a b h p = let positive : pos 0 ≤ℤ b = ground arith in omega int_laws

put-IsStored :
    (k : ℕ) (w : Vault) (vaults : ℕ → Option Vault)
    → IsStored k w
    → ((id : ℕ) (v : Vault) → vaults id ≡ some v → IsStored id v)
    → (id : ℕ) (v : Vault) → put_vault k w vaults id ≡ some v
    → IsStored id v
put-IsStored k w vaults s all id v h = elim (Bool-cases (id == k)) [
  | inl at ↦
      let e : k ≡ id = ground arith in
      let g : w ≡ v = some_inj (rw at at h) in
      subst (λ x. IsStored id x) g (subst (λ j. IsStored j w) e s)
  | inr off ↦ all id v (rw off at h)
]

put-fresh :
    (k n : ℕ) (w : Vault) (vaults : ℕ → Option Vault)
    → k < n
    → ((id : ℕ) → n ≤ id → vaults id ≡ none)
    → (id : ℕ) → n ≤ id
    → put_vault k w vaults id ≡ none
put-fresh k n w vaults lt all id h = ground (arith, all id)

module _ {L : Type 0} (tk : Token L) (self : Address) where
  pub record IsSound (c : Chain L) : Type 0 where
    pub fresh : (id : ℕ) → new_id c ≤ id → c.vaults id ≡ none
    pub idle : c.token ≡ none → new_id c ≡ 0
    pub stored : (id : ℕ) (v : Vault) → c.vaults id ≡ some v → IsStored id v
    pub solvent :
        (asset : Address)
        → c.token ≡ some asset
        → total c.vaults (new_id c) ≤ℤ tk.balance asset c.ledger self

  pub below_new :
      (c : Chain L) (id : ℕ) (v : Vault) → IsSound c → c.vaults id ≡ some v → id < new_id c
  below_new c id v s f = elim (dec_lt id (new_id c)) [
    | yes h ↦ h
    | no h ↦ absurd (none-ne-some (sym (s.fresh id (omega arith)) ∙ f))
  ]

  module _ (lawful : IsLawful tk) (auth : Address → Bool) (foreign : auth self ≡ false) where
    others : (who : Address) → auth who ≡ true → who ≢ self
    others who h e = cc

    -- A vault's entry written anew, with the tokens moved to match.
    rewritten :
        (c : Chain L) (id : ℕ) (v w : Vault) (ledger : L) (events : List Event) (a b : ℤ)
        → IsSound c
        → c.vaults id ≡ some v
        → IsStored id w
        → w.balance +ℤ a ≡ v.balance +ℤ b
        → ((asset : Address) (before after : ℤ)
            → c.token ≡ some asset
            → before ≤ℤ tk.balance asset c.ledger self
            → after +ℤ a ≡ before +ℤ b
            → after ≤ℤ tk.balance asset ledger self)
        → IsSound (record c { vaults = put_vault id w c.vaults; ledger = ledger; events = events })
    rewritten c id v w ledger events a b s f good change paid =
        let lt : id < new_id c = below_new c id v s f in
        record {
          fresh = put-fresh id (new_id c) w c.vaults lt s.fresh;
          idle = s.idle;
          stored = put-IsStored id w c.vaults good s.stored;
          solvent = λ asset h.
              paid asset (total c.vaults (new_id c)) _ h (s.solvent asset h)
                (total_change id v w c.vaults (new_id c) a b lt f change);
        }

    -- What is paid in covers what the sum has grown by.
    pays_in :
        (who asset : Address) (amount : ℤ) (l l' : L) (before after : ℤ)
        → auth who ≡ true
        → tk.transfer asset who self amount l ≡ some l'
        → before ≤ℤ tk.balance asset l self
        → after +ℤ pos 0 ≡ before +ℤ amount
        → after ≤ℤ tk.balance asset l' self
    pays_in who asset amount l l' before after a m covered grown =
        let funds = (lawful.moves asset who self amount l l' (others who a) m).1 in
        still_covered before after _ _ (pos 0) amount grown (up_from _ _ amount funds) covered

    -- What is paid out was held for that vault.
    pays_out :
        (who asset : Address) (amount : ℤ) (l l' : L) (before after : ℤ)
        → auth who ≡ true
        → tk.transfer asset self who amount l ≡ some l'
        → before ≤ℤ tk.balance asset l self
        → after +ℤ amount ≡ before +ℤ pos 0
        → after ≤ℤ tk.balance asset l' self
    pays_out who asset amount l l' before after a m covered fallen =
        let not_self : self ≢ who = λ e. others who a (sym e) in
        let funds = (lawful.moves asset self who amount l l' not_self m).0 in
        still_covered before after _ _ amount (pos 0) fallen (back_from _ _ amount funds) covered

    Effect-IsSound :
        {c d : Chain L} {call : Call} → Effect tk self auth c call d → IsSound c → IsSound d
    Effect-IsSound {c} (rejected none_fits) s = s
    Effect-IsSound {c} (changed (initialised token e)) s = record {
      fresh = λ id h. s.fresh id (omega (arith, s.idle e));
      idle = λ h. refl;
      stored = s.stored;
      solvent = λ asset h. rw (total_none c.vaults) (lawful.not_negative asset c.ledger self);
    }
    Effect-IsSound {c} (changed (created owner name amount unlock asset ledger a p l t m n)) s =
        record {
          fresh = λ id h.
              put-fresh (new_id c) (new_id c + 1) _ c.vaults (omega arith)
                (λ j k. s.fresh j (omega arith)) id h;
          idle = λ h. cc;
          stored =
              put-IsStored (new_id c) _ c.vaults
                (record {
                  own_id = refl;
                  not_negative = ground arith;
                  withdrawn_is_empty = λ h. cc;
                })
                s.stored;
          solvent = λ other h.
              pays_in owner other amount c.ledger ledger (total c.vaults (new_id c)) _ a
                (subst (λ x. tk.transfer x owner self amount c.ledger ≡ some ledger)
                  (some_inj (sym t ∙ h)) m)
                (s.solvent other h)
                (up_from _ _ amount (
                  total_put_new (new_id c) (new_vault (new_id c) owner name amount unlock c.now)
                    c.vaults));
        }
    Effect-IsSound {c} (changed (deposited caller id v amount asset ledger a p f o w t m n)) s =
        rewritten c id v _ ledger _ (pos 0) amount s f
          (let old = s.stored id v f in
            record {
              own_id = old.own_id;
              not_negative = grows v.balance amount old.not_negative p;
              withdrawn_is_empty = λ h. cc;
            })
          (omega int_laws)
          (λ other before after h. pays_in caller other amount c.ledger ledger before after a (
            subst (λ x. tk.transfer x caller self amount c.ledger ≡ some ledger)
              (some_inj (sym t ∙ h)) m))
    Effect-IsSound {c} (changed (extended caller id v seconds a p f o w n)) s =
        let old = s.stored id v f in
        rewritten c id v _ c.ledger _ (pos 0) (pos 0) s f
          (record {
            own_id = old.own_id;
            not_negative = old.not_negative;
            withdrawn_is_empty = old.withdrawn_is_empty;
          })
          refl
          (λ other before after h covered same.
            still_covered before after _ _ (pos 0) (pos 0) same refl covered)
    Effect-IsSound {c} (changed (emptied caller id v asset ledger a f o w l t m)) s =
        rewritten c id v _ ledger _ v.balance (pos 0) s f
          (record {
            own_id = (s.stored id v f).own_id;
            not_negative = omega arith;
            withdrawn_is_empty = λ h. refl;
          })
          (omega int_laws)
          (λ other before after h. pays_out caller other v.balance c.ledger ledger before after a (
            subst (λ x. tk.transfer x self caller v.balance c.ledger ≡ some ledger)
              (some_inj (sym t ∙ h)) m))

  pub Step-IsSound : IsLawful tk → {c d : Chain L} → Step tk self c d → IsSound c → IsSound d
  Step-IsSound lawful {c} (called auth call foreign) s =
      Effect-IsSound lawful auth foreign (perform-Effect tk self auth call c) s
  Step-IsSound lawful {c} (passed later h) s = record {
    fresh = s.fresh;
    idle = s.idle;
    stored = s.stored;
    solvent = s.solvent;
  }
  Step-IsSound lawful {c} (moved ledger more) s = record {
    fresh = s.fresh;
    idle = s.idle;
    stored = s.stored;
    solvent = λ asset h. omega (arith, s.solvent asset h, more asset);
  }

  IsNew-IsSound : {c : Chain L} → IsNew c → IsSound c
  IsNew-IsSound new = record {
    fresh = λ id h. new.no_vault id;
    idle = λ h. ap (λ n. or_else n 0) new.no_id;
    stored = λ id v h. absurd (none-ne-some (sym (new.no_vault id) ∙ h));
    solvent = λ asset h. absurd (none-ne-some (sym new.no_token ∙ h));
  }

  -- However a deployed contract is called by others than itself, its balance of the token covers the
  -- sum of what its vaults hold; none holds less than zero, and none that is withdrawn holds anything,
  -- for a lawful token of which nobody else takes from the contract.
  pub Reach-IsSound : IsLawful tk → (c d : Chain L) → IsNew c → Reach tk self c d → IsSound d
  Reach-IsSound lawful c d new here = IsNew-IsSound new
  Reach-IsSound lawful c d new (next r step) =
      Step-IsSound lawful step (Reach-IsSound lawful c _ new r)
