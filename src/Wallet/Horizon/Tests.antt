-- ===== src/Wallet/Horizon/Tests.antt =====
-- An account with 30 XLM, and two payments of one transaction; an amount is its text's length.
use stellartimelock_core.Common.{
  ℕ, arith, str_eq, if◌then◌else◌, ◌+◌, ◌-◌, ◌*◌, ◌==◌, ◌≡◌, refl, true, false, none, some, [], ◌∷◌,
  length,
}
use stellartimelock_core.Common.Text.{codes}
use stellartimelock_core.Common.Int.{ℤ, pos, ◌+ℤ◌, ◌-ℤ◌, leb_ℤ, max_ℤ}
use stellartimelock_core.Common.Action.{ok}
use stellartimelock_core.Wallet.Horizon.{Numbers, HorizonAccount, Server, fetch_horizon_balance}
use stellartimelock_core.Wallet.Horizon.Answers.{IsNumeric, Describes}
use stellartimelock_core.Wallet.Horizon.Balance.{fetch_horizon_balance-Describes}
use stellartimelock_core.Wallet.Horizon.Payments.{HorizonPaymentOp, Ledger, fetch_wallet_payments}

abbrev lengths : Numbers ℕ
lengths = record {
  zero = 0;
  number = λ s. length (codes s);
  parse_float = λ s. length (codes s);
  is_finite = λ n. true;
  at_most_zero = λ n. n == 0;
  halves = λ n. n;
  add = λ a b. a + b;
  sub = λ a b. a - b;
  max_zero = λ a. a;
}

abbrev account : HorizonAccount
account = record {
  subentry_count = some (pos 1);
  num_sponsoring = none;
  num_sponsored = none;
  balances =
      record {
        asset_type = "native";
        balance = "30.0000000";
        buying_liabilities = none;
        selling_liabilities = some "0";
      }
      ∷ [];
}

abbrev horizon : Server (Unit {0}) ℕ
horizon = record {
  now = λ w. w;
  account = λ k w. (ok (record { ok = true; status = 200; body = ok account }), w);
  network = "mainnet";
  friendbot = none;
  message = λ e. "offline";
  horizon_status = λ n. "Horizon";
  friendbot_status = λ n. [];
}

-- Amounts in units of half a lumen.
abbrev half_lumens : Numbers ℤ
half_lumens = record {
  zero = pos 0;
  number = λ s. if str_eq s "30.0000000" then pos 60 else pos 0;
  parse_float = λ s. pos 0;
  is_finite = λ a. true;
  at_most_zero = λ a. leb_ℤ a (pos 0);
  halves = λ n. pos n;
  add = λ a b. a +ℤ b;
  sub = λ a b. a -ℤ b;
  max_zero = λ a. max_ℤ (pos 0) a;
}

half_lumens-IsNumeric : IsNumeric half_lumens
half_lumens-IsNumeric = record { zero_finite = refl; floor_at_zero = λ a. ground arith }

fetch_horizon_balance-Describes_example :
    Describes half_lumens horizon
      (fetch_horizon_balance half_lumens horizon "G1" 5).0
      (horizon.account "G1" 5).0
fetch_horizon_balance-Describes_example =
    fetch_horizon_balance-Describes half_lumens half_lumens-IsNumeric horizon "G1" 5

-- Thirty lumens, less three units of half a lumen.
spends_the_rest : (fetch_horizon_balance half_lumens horizon "G1" 5).0.spendable ≡ pos 57
unfolding fetch_horizon_balance ◌+ℤ◌ ◌-ℤ◌
spends_the_rest = refl

abbrev payment : HorizonPaymentOp
payment = record {
  id = "1";
  transaction_hash = "h";
  created_at = none;
  type = "payment";
  asset_type = some "native";
  amount = some "12";
  from = some "G1";
  to = some "G2";
  starting_balance = none;
  funder = none;
  account = none;
}

abbrev ledger : Ledger (Unit {0}) ℕ
ledger = record {
  payments =
      λ k n w. (ok (record { ok = true; status = 200; body = ok (payment ∷ payment ∷ []) }), w);
  transaction = λ h w. (
    ok (record {
      ok = true;
      status = 200;
      body = ok (record { memo = some "rent"; memo_type = none });
    }),
    w + 1,
  );
  unix_of = λ s. none;
}

asked_once : (fetch_wallet_payments lengths ledger "G1" 40 0).1 ≡ "h" ∷ []
unfolding fetch_wallet_payments stellartimelock_core.Common.Dict.lookup
    stellartimelock_core.Common.Dict.insert
asked_once = refl
