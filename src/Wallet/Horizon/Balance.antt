-- ===== src/Wallet/Horizon/Balance.antt =====
-- What `fetchHorizonBalance` of src/wallet/horizon.ts makes of each answer of Horizon.
use stellartimelock_core.Common.{
  ℕ, String, ◌≡◌, ◌≢◌, refl, inl, inr, Bool-cases, true, Option, ◌==◌, none, some, or_else, List,
  [], ◌∷◌, find, str_eq, arith,
}
use stellartimelock_core.Common.Action.{Result, ok, err, Result-cases}
use stellartimelock_core.Common.Int.{ℤ, pos, ◌+ℤ◌, ◌-ℤ◌, max_ℤ}
use stellartimelock_core.Wallet.Horizon.{
  Numbers, Response, HorizonState, funded, unfunded, HorizonBalance, HorizonBalanceRow,
  HorizonAccount, Server, reserve_units, empty_result, finite, funded_result, is_native, total_of,
  liabilities_of, base_reserve, compute_reserve_xlm, balance_of_response, fetch_horizon_balance,
}
use stellartimelock_core.Wallet.Horizon.Answers.{
  IsNumeric, Native, nowhere, first, later, IsShown, TotalIs, LiabilitiesAre, IsOf, IsEmpty,
  Describes, unreachable, missing, refused, unreadable, read,
}

reserve_units_lem :
    (s p q : ℤ)
    → pos (reserve_units s p q)
      ≡ max_ℤ (pos 0) (pos 2 +ℤ max_ℤ (pos 0) s +ℤ max_ℤ (pos 0) p -ℤ max_ℤ (pos 0) q)
unfolding ◌+ℤ◌ ◌-ℤ◌
reserve_units_lem s p q = ground arith

module _ {A : Type 0} (num : Numbers A) (numeric : IsNumeric num) where
  find-Native : (rows : List HorizonBalanceRow) → Native rows (find (is_native num) rows)
  find-Native [] = nowhere
  find-Native (row ∷ rows) = elim (Bool-cases (str_eq row.asset_type "native")) [
    | inl here ↦ rw (here, find) (first here)
    | inr there ↦ rw (there, find) (later there (find-Native rows))
  ]

  finite-IsShown : (a : A) → IsShown num a (finite num a)
  finite-IsShown a = ground arith

  finite_zero : finite num num.zero ≡ num.zero
  finite_zero = ground arith

  finite-is_finite : (a : A) → num.is_finite (finite num a) ≡ true
  finite-is_finite a = ground (arith, numeric.zero_finite)

  total_of-TotalIs : (o : Option HorizonBalanceRow) → TotalIs num o (finite num (total_of num o))
  total_of-TotalIs none = finite_zero
  total_of-TotalIs (some row) = finite-IsShown _

  liabilities_of-LiabilitiesAre :
      (o : Option HorizonBalanceRow) → LiabilitiesAre num o (finite num (liabilities_of num o))
  liabilities_of-LiabilitiesAre none = finite_zero
  liabilities_of-LiabilitiesAre (some row) = finite-IsShown _

  funded_result-IsOf :
      (public_key : String) (account : HorizonAccount) (now : ℕ)
      → IsOf num account (funded_result num public_key account now)
  unfolding funded_result compute_reserve_xlm
  funded_result-IsOf public_key account now =
      let native = find (is_native num) account.balances in
      record {
        state_is = refl;
        native = native;
        native_is = find-Native account.balances;
        total_is = total_of-TotalIs native;
        liabilities_are = liabilities_of-LiabilitiesAre native;
        units = _;
        units_are =
            reserve_units_lem (or_else account.subentry_count (pos 0))
              (or_else account.num_sponsoring (pos 0)) (or_else account.num_sponsored (pos 0));
        reserve_is = refl;
        spendable_is = numeric.floor_at_zero _;
        available_is = refl;
        amounts_are_finite = (finite-is_finite _, finite-is_finite _);
        no_error = refl;
      }

  empty_result-IsEmpty :
      (public_key : String) (state : HorizonState) (message : Option String) (now : ℕ)
      → state ≢ funded
      → IsEmpty num state message (empty_result num public_key state message now)
  unfolding empty_result
  empty_result-IsEmpty public_key state message now other = record {
    state_is = refl;
    total_is = refl;
    reserve_is = without_reserve state other;
    liabilities_are = refl;
    spendable_is = refl;
    available_is = refl;
    error_is = refl;
  }
    where
      without_reserve : (state : HorizonState) → state ≢ funded → base_reserve num state ≡ num.zero
      without_reserve funded other = absurd (other refl)
      without_reserve unfunded other = refl
      without_reserve HorizonState.error other = refl

  module _ {E W : Type 0} (server : Server E W) where
    balance_of_response-Describes :
        (public_key : String) (res : Response E HorizonAccount) (now : ℕ)
        → Describes num server (balance_of_response num server public_key res now) (ok res)
    unfolding balance_of_response
    balance_of_response-Describes public_key res now = elim (Bool-cases (res.status == 404)) [
      | inl gone ↦ rw gone (missing (ground arith) (empty_result-IsEmpty _ _ _ _ (λ e. cc)))
      | inr there ↦ elim (Bool-cases res.ok) [
        | inr bad ↦
            rw (there, bad) (refused (ground arith) refl (empty_result-IsEmpty _ _ _ _ (λ e. cc)))
        | inl good ↦ elim (Result-cases res.body) [
          | inl (account, body) ↦
              rw (there, good, body)
                (read (ground arith) refl refl (funded_result-IsOf _ account _))
          | inr (e, body) ↦
              rw (there, good, body)
                (unreadable (ground arith) refl refl (empty_result-IsEmpty _ _ _ _ (λ e. cc)))
        ]
      ]
    ]

    -- The balance is what the answer of Horizon describes. An account has the total and the
    -- liabilities, for selling and for buying, of its first row of lumens, 0 where there is none or
    -- the number is not finite; the reserve of its units of half a lumen; and to spend what is left,
    -- or 0 if that is not above 0. A 404 is an account without funds; an answer that does not come,
    -- another failure and a body that cannot be read are errors with their message; in these cases
    -- every amount is 0.
    pub fetch_horizon_balance-Describes :
        (public_key : String) (w : W)
        → Describes num server
            (fetch_horizon_balance num server public_key w).0
            (server.account public_key w).0
    unfolding fetch_horizon_balance
    fetch_horizon_balance-Describes public_key w = go (server.account public_key w)
      where
        go :
            (o : Result E (Response E HorizonAccount) × W)
            → Describes num server
                (elim o.0 as (λ x. HorizonBalance A × W) [
                  | err e ↦ (
                    empty_result num public_key HorizonState.error
                        (some (server.message e))
                        (server.now o.1),
                    o.1,
                  )
                  | ok res ↦ (balance_of_response num server public_key res (server.now o.1), o.1)
                ]).0
                o.0
        go (err e, w') = unreachable (empty_result-IsEmpty _ _ _ _ (λ e. cc))
        go (ok res, w') = balance_of_response-Describes public_key res (server.now w')
