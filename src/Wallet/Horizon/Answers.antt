-- ===== src/Wallet/Horizon/Answers.antt =====
-- What a balance of src/wallet/horizon.ts is to be for each answer of Horizon, apart from the code.
use stellartimelock_core.Common.{
  ℕ, String, ◌≡◌, ◌≢◌, ◌⊎◌, true, false, Option, none, some, or_else, List, [], ◌∷◌, str_eq,
}
use stellartimelock_core.Common.Action.{Result, ok, err}
use stellartimelock_core.Common.Int.{ℤ, pos, ◌+ℤ◌, ◌-ℤ◌, max_ℤ}
use stellartimelock_core.Wallet.Horizon.{
  Numbers, Response, HorizonState, funded, unfunded, HorizonBalance, HorizonBalanceRow,
  HorizonAccount, Server,
}

-- What is used of JavaScript's numbers: 0 is finite, and Math.max(0, a) is 0 where a <= 0, and else a.
pub record IsNumeric {A : Type 0} (num : Numbers A) : Type 0 where
  pub zero_finite : num.is_finite num.zero ≡ true
  pub floor_at_zero :
      (a : A)
      → (num.at_most_zero a ≡ true × num.max_zero a ≡ num.zero)
        ⊎ (num.at_most_zero a ≡ false × num.max_zero a ≡ a)

-- The first of the rows that is of lumens, if there is one.
pub data Native : List HorizonBalanceRow → Option HorizonBalanceRow → Type 0 where
  nowhere : Native [] none
  first :
      {row : HorizonBalanceRow} {rows : List HorizonBalanceRow}
      → str_eq row.asset_type "native" ≡ true
      → Native (row ∷ rows) (some row)
  later :
      {row : HorizonBalanceRow} {rows : List HorizonBalanceRow} {o : Option HorizonBalanceRow}
      → str_eq row.asset_type "native" ≡ false
      → Native rows o
      → Native (row ∷ rows) o

-- The reserve's units of half a lumen: two, and one for each entry and each that is sponsored for
-- others, less those that others sponsor, and not less than none.
abbrev pub units_of : HorizonAccount → ℤ
units_of account = max_ℤ (pos 0) (
    pos 2
    +ℤ max_ℤ (pos 0) (or_else account.subentry_count (pos 0))
    +ℤ max_ℤ (pos 0) (or_else account.num_sponsoring (pos 0))
    -ℤ max_ℤ (pos 0) (or_else account.num_sponsored (pos 0)))

module _ {A : Type 0} (num : Numbers A) where
  -- What is shown for a number: the number itself if it is finite, and else 0.
  abbrev pub IsShown : A → A → Type 0
  IsShown a shown =
      (num.is_finite a ≡ true × shown ≡ a) ⊎ (num.is_finite a ≡ false × shown ≡ num.zero)

  abbrev pub TotalIs : Option HorizonBalanceRow → A → Type 0
  TotalIs none total = total ≡ num.zero
  TotalIs (some row) total = IsShown (num.number row.balance) total

  -- What is owed is for selling and for buying.
  abbrev pub LiabilitiesAre : Option HorizonBalanceRow → A → Type 0
  LiabilitiesAre none owed = owed ≡ num.zero
  LiabilitiesAre (some row) owed =
      IsShown
        (num.add (num.number (or_else row.selling_liabilities "0"))
          (num.number (or_else row.buying_liabilities "0")))
        owed

  -- What may be spent: what is left, if that is above zero, and else 0.
  abbrev pub IsSpendable : A → A → Type 0
  IsSpendable left spendable =
      (num.at_most_zero left ≡ true × spendable ≡ num.zero)
      ⊎ (num.at_most_zero left ≡ false × spendable ≡ left)

  -- The balance that an account has.
  pub record IsOf (account : HorizonAccount) (b : HorizonBalance A) : Type 0 where
    pub state_is : b.state ≡ funded
    pub native : Option HorizonBalanceRow
    pub native_is : Native account.balances native
    pub total_is : TotalIs native b.total
    pub liabilities_are : LiabilitiesAre native b.liabilities
    pub units : ℕ
    pub units_are : pos units ≡ units_of account
    pub reserve_is : b.reserve ≡ num.halves units
    pub spendable_is : IsSpendable (num.sub (num.sub b.total b.reserve) b.liabilities) b.spendable
    pub available_is : b.available ≡ b.spendable
    pub amounts_are_finite : (num.is_finite b.total ≡ true) × (num.is_finite b.liabilities ≡ true)
    pub no_error : b.error ≡ none

  -- A balance without amounts.
  pub record IsEmpty (state : HorizonState) (message : Option String) (b : HorizonBalance A)
      : Type 0 where
    pub state_is : b.state ≡ state
    pub total_is : b.total ≡ num.zero
    pub reserve_is : b.reserve ≡ num.zero
    pub liabilities_are : b.liabilities ≡ num.zero
    pub spendable_is : b.spendable ≡ num.zero
    pub available_is : b.available ≡ num.zero
    pub error_is : b.error ≡ message

  module _ {E W : Type 0} (server : Server E W) where
    -- The balance for an answer: one that did not come, a 404, another failure, and a body.
    pub data Describes (b : HorizonBalance A) : Result E (Response E HorizonAccount) → Type 0 where
      unreachable :
          {e : E} → IsEmpty HorizonState.error (some (server.message e)) b → Describes b (err e)
      missing :
          {res : Response E HorizonAccount}
          → res.status ≡ 404
          → IsEmpty unfunded none b
          → Describes b (ok res)
      refused :
          {res : Response E HorizonAccount}
          → res.status ≢ 404
          → res.ok ≡ false
          → IsEmpty HorizonState.error (some (server.horizon_status res.status)) b
          → Describes b (ok res)
      unreadable :
          {res : Response E HorizonAccount} {e : E}
          → res.status ≢ 404
          → res.ok ≡ true
          → res.body ≡ err e
          → IsEmpty HorizonState.error (some (server.message e)) b
          → Describes b (ok res)
      read :
          {res : Response E HorizonAccount} {account : HorizonAccount}
          → res.status ≢ 404
          → res.ok ≡ true
          → res.body ≡ ok account
          → IsOf account b
          → Describes b (ok res)
