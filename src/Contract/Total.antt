-- ===== src/Contract/Total.antt =====
-- The sum of what the vaults of contracts/xlm_vault/src/lib.rs hold, and how a write changes it.
use stellartimelock_core.Common.{
  ℕ, suc, zero, ◌+◌, ◌≤◌, ◌<◌, ◌≡◌, refl, ap, ◌∙◌, inl, inr, Bool-cases, Option, none, some, arith,
  ◌==◌,
}
use native.Mathlib.Decide.{dec_lt}
use stellartimelock_core.Common.Int.{ℤ, pos, pos_part, neg_part, ◌+ℤ◌, ◌-ℤ◌, ◌≤ℤ◌, int_laws}
use stellartimelock_core.Contract.Host.{Vault, put_vault}

abbrev pub held : Option Vault → ℤ
held none = pos 0
held (some v) = v.balance

-- The sum over the ids below `n`.
pub total : (ℕ → Option Vault) → ℕ → ℤ
total vaults zero = pos 0
total vaults (suc n) = total vaults n +ℤ held (vaults n)

pub total_none : (vaults : ℕ → Option Vault) → total vaults 0 ≡ pos 0
unfolding total
total_none vaults = refl

total_put_above :
    (k : ℕ) (w : Vault) (vaults : ℕ → Option Vault) (n : ℕ)
    → n ≤ k
    → total (put_vault k w vaults) n ≡ total vaults n
unfolding total
total_put_above k w vaults zero h = refl
total_put_above k w vaults (suc n) h = ground (arith, total_put_above k w vaults n)

-- A vault that is new adds what it holds.
pub total_put_new :
    (k : ℕ) (w : Vault) (vaults : ℕ → Option Vault)
    → total (put_vault k w vaults) (k + 1) ≡ total vaults k +ℤ w.balance
unfolding total
total_put_new k w vaults =
    let step : k + 1 ≡ suc k = omega arith in rw step (ground (arith, total_put_above k w vaults k))

swap : (a b c : ℤ) → a +ℤ b +ℤ c ≡ a +ℤ c +ℤ b
swap a b c = omega int_laws

-- A write to a vault changes the sum by the change of what it holds.
pub total_put :
    (k : ℕ) (w : Vault) (vaults : ℕ → Option Vault) (n : ℕ)
    → k < n
    → total (put_vault k w vaults) n +ℤ held (vaults k) ≡ total vaults n +ℤ w.balance
unfolding total
total_put k w vaults zero h = elim h [ ]
total_put k w vaults (suc n) h = elim (Bool-cases (n == k)) [
  | inl last ↦
      let e : n ≡ k = ground arith in
      rw last (
        rw e (
          ap (λ t. t +ℤ w.balance +ℤ held (vaults k)) (total_put_above k w vaults k (omega arith))
          ∙ swap (total vaults k) w.balance (held (vaults k))))
  | inr below ↦ rw below (
      swap (total (put_vault k w vaults) n) (held (vaults n)) (held (vaults k))
      ∙ ap (λ t. t +ℤ held (vaults n)) (total_put k w vaults n (ground arith))
      ∙ swap (total vaults n) w.balance (held (vaults n)))
]

-- A sum that was covered stays covered if what is there grows as it does.
pub still_covered :
    (before after funds funds' a b : ℤ)
    → after +ℤ a ≡ before +ℤ b
    → funds' +ℤ a ≡ funds +ℤ b
    → before ≤ℤ funds
    → after ≤ℤ funds'
still_covered before after funds funds' a b h k covered =
    omega (int_laws, ap pos_part h, ap neg_part h, ap pos_part k, ap neg_part k)

pub back_from : (x y a : ℤ) → x ≡ y -ℤ a → x +ℤ a ≡ y +ℤ pos 0
back_from x y a h = rw h (omega int_laws)

pub up_from : (x y a : ℤ) → x ≡ y +ℤ a → x +ℤ pos 0 ≡ y +ℤ a
up_from x y a h = rw h (omega int_laws)

-- As `total_put`, by the change itself.
pub total_change :
    (k : ℕ) (v w : Vault) (vaults : ℕ → Option Vault) (n : ℕ) (a b : ℤ)
    → k < n
    → vaults k ≡ some v
    → w.balance +ℤ a ≡ v.balance +ℤ b
    → total (put_vault k w vaults) n +ℤ a ≡ total vaults n +ℤ b
total_change k v w vaults n a b h e change =
    let put = total_put k w vaults n h in
    let read : held (vaults k) ≡ v.balance = ap held e in
    omega (
      int_laws,
      ap pos_part put,
      ap neg_part put,
      ap pos_part read,
      ap neg_part read,
      ap pos_part change,
      ap neg_part change,
    )

module _ (vaults : ℕ → Option Vault) (all : (id : ℕ) → pos 0 ≤ℤ held (vaults id)) where
  total_not_negative : (n : ℕ) → pos 0 ≤ℤ total vaults n
  unfolding total
  total_not_negative zero = omega arith
  total_not_negative (suc n) = omega (int_laws, total_not_negative n, all n)

  -- One of the vaults holds no more than the sum, where none holds less than zero.
  pub held-le-total : (k n : ℕ) → k < n → held (vaults k) ≤ℤ total vaults n
  unfolding total
  held-le-total k zero h = elim h [ ]
  held-le-total k (suc n) h = elim (dec_lt k n) [
    | yes below ↦ omega (int_laws, held-le-total k n below, all n)
    | no last ↦ let e : k ≡ n = omega arith in rw e (omega (int_laws, total_not_negative n))
  ]
