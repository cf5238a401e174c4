-- ===== src/Wallet/Horizon.antt =====
-- `computeReserveXlm`, `fetchHorizonBalance` and `fundViaFriendbot` of src/wallet/horizon.ts.
pub mod Payments
pub mod Answers
pub mod Balance
pub mod Lookups
pub mod Memos
pub mod Listed
mod Tests
use stellartimelock_core.Common.{
  ℕ, ◌+◌, ◌-◌, String, Bool, true, false, Option, none, some, List, [], ◌∷◌, ◌++◌, find, ◌==◌,
  or_else, if◌then◌else◌, str_eq,
}
use stellartimelock_core.Common.Action.{Result, ok, err, Action}
use stellartimelock_core.Common.Int.{ℤ, pos, pos_part}
use stellartimelock_core.Common.Text.{codes}

-- What the code uses of JavaScript's numbers: `Number`, `parseFloat`, `isFinite`, `n * 0.5` of a
-- natural number, and the arithmetic of amounts.
pub record Numbers (A : Type 0) : Type 0 where
  pub zero : A
  pub number : String → A
  pub parse_float : String → A
  pub is_finite : A → Bool
  -- a <= 0
  pub at_most_zero : A → Bool
  pub halves : ℕ → A
  pub add : A → A → A
  pub sub : A → A → A
  -- Math.max(0, a)
  pub max_zero : A → A

-- A `Response`, with what reading its body gives or throws: an account without balances is a throw.
pub record Response (E B : Type 0) : Type 0 where
  pub ok : Bool
  pub status : ℕ
  pub body : Result E B

pub data HorizonState : Type 0 where
  funded unfunded error : HorizonState

pub record HorizonBalance (A : Type 0) : Type 0 where
  pub public_key : String
  pub state : HorizonState
  pub total : A
  pub reserve : A
  pub liabilities : A
  pub spendable : A
  pub available : A
  pub subentries : ℤ
  pub fetched_at : ℕ
  pub error : Option String

pub record HorizonBalanceRow : Type 0 where
  pub asset_type : String
  pub balance : String
  pub buying_liabilities : Option String
  pub selling_liabilities : Option String

pub record HorizonAccount : Type 0 where
  pub subentry_count : Option ℤ
  pub num_sponsoring : Option ℤ
  pub num_sponsored : Option ℤ
  pub balances : List HorizonBalanceRow

-- `fetch` of the URLs of the active deployment, none where it has no friendbot, and the clock.
pub record Server (E W : Type 0) : Type 0 where
  pub now : W → ℕ
  pub account : String → Action E W (Response E HorizonAccount)
  pub network : String
  pub friendbot : Option (String → Action E W (Response E (List ℕ)))
  -- e instanceof Error ? e.message : String(e); `Horizon ${n}` and `Friendbot ${n}`
  pub message : E → String
  pub horizon_status : ℕ → String
  pub friendbot_status : ℕ → List ℕ

abbrev pub account_base_units : ℕ
account_base_units = 2

-- The reserve in units of 0.5 XLM; a count or a difference below 0 counts as 0.
abbrev pub reserve_units : ℤ → ℤ → ℤ → ℕ
reserve_units subentries num_sponsoring num_sponsored =
    account_base_units + pos_part subentries + pos_part num_sponsoring - pos_part num_sponsored

module _ {A : Type 0} (num : Numbers A) where
  pub compute_reserve_xlm : ℤ → ℤ → ℤ → A
  compute_reserve_xlm subentries num_sponsoring num_sponsored =
      num.halves (reserve_units subentries num_sponsoring num_sponsored)

  abbrev pub base_reserve : HorizonState → A
  base_reserve funded = num.halves account_base_units
  base_reserve unfunded = num.zero
  base_reserve HorizonState.error = num.zero

  pub empty_result : String → HorizonState → Option String → ℕ → HorizonBalance A
  empty_result public_key state message now = record {
    public_key = public_key;
    state = state;
    total = num.zero;
    reserve = base_reserve state;
    liabilities = num.zero;
    spendable = num.zero;
    available = num.zero;
    subentries = pos 0;
    fetched_at = now;
    error = message;
  }

  abbrev pub finite : A → A
  finite a = if num.is_finite a then a else num.zero

  abbrev pub is_native : HorizonBalanceRow → Bool
  is_native row = str_eq row.asset_type "native"

  abbrev pub total_of : Option HorizonBalanceRow → A
  total_of none = num.zero
  total_of (some row) = num.number row.balance

  abbrev pub liabilities_of : Option HorizonBalanceRow → A
  liabilities_of none = num.zero
  liabilities_of (some row) =
      num.add (num.number (or_else row.selling_liabilities "0"))
        (num.number (or_else row.buying_liabilities "0"))

  pub funded_result : String → HorizonAccount → ℕ → HorizonBalance A
  unfolding compute_reserve_xlm
  funded_result public_key account now =
      let native = find is_native account.balances in
      let subentries = or_else account.subentry_count (pos 0) in
      let reserve =
        compute_reserve_xlm subentries (or_else account.num_sponsoring (pos 0))
          (or_else account.num_sponsored (pos 0)) in
      let spendable =
        num.max_zero
          (num.sub (num.sub (finite (total_of native)) reserve) (finite (liabilities_of native))) in
      record {
        public_key = public_key;
        state = funded;
        total = finite (total_of native);
        reserve = reserve;
        liabilities = finite (liabilities_of native);
        spendable = spendable;
        available = spendable;
        subentries = subentries;
        fetched_at = now;
        error = none;
      }

  module _ {E W : Type 0} (server : Server E W) where
    balance_of_response : String → Response E HorizonAccount → ℕ → HorizonBalance A
    unfolding empty_result funded_result
    balance_of_response public_key res now =
        if res.status == 404
        then empty_result public_key unfunded none now
        else if res.ok
        then elim res.body [
          | ok account ↦ funded_result public_key account now
          | err e ↦ empty_result public_key HorizonState.error (some (server.message e)) now
        ]
        else empty_result public_key HorizonState.error (some (server.horizon_status res.status))
            now

    pub fetch_horizon_balance : String → W → HorizonBalance A × W
    unfolding balance_of_response
    fetch_horizon_balance public_key w =
        let (r, w') = server.account public_key w in
        elim r [
          | err e ↦ (
            empty_result public_key HorizonState.error (some (server.message e)) (server.now w'),
            w',
          )
          | ok res ↦ (balance_of_response public_key res (server.now w'), w')
        ]

pub record Funding : Type 0 where
  pub ok : Bool
  pub detail : List ℕ

-- body.slice(0, n)
abbrev slice : ℕ → List ℕ → List ℕ
slice ℕ.zero s = []
slice (ℕ.suc n) [] = []
slice (ℕ.suc n) (c ∷ s) = c ∷ slice n s

-- a || b
abbrev non_empty_or : List ℕ → List ℕ → List ℕ
non_empty_or [] b = b
non_empty_or (c ∷ s) b = c ∷ s

module _ {E W : Type 0} (server : Server E W) where
  friendbot_answer : Response E (List ℕ) → Funding
  friendbot_answer res =
      if res.ok
      then record { ok = true; detail = codes "Account funded with 10,000 testnet XLM." }
      else elim res.body [
        | err e ↦ record { ok = false; detail = codes (server.message e) }
        | ok body ↦ record {
          ok = false;
          detail = non_empty_or (slice 240 body) (server.friendbot_status res.status);
        }
      ]

  pub fund_via_friendbot : String → W → Funding × W
  unfolding friendbot_answer
  fund_via_friendbot public_key w = elim server.friendbot [
    | none ↦ (
      record {
        ok = false;
        detail =
            codes "Friendbot is not available on "
            ++ codes server.network
            ++ codes ". Fund this account with real XLM from an exchange or another wallet.";
      },
      w,
    )
    | some fetch ↦
        let (r, w') = fetch public_key w in
        elim r [
          | err e ↦ (record { ok = false; detail = codes (server.message e) }, w')
          | ok res ↦ (friendbot_answer res, w')
        ]
  ]
