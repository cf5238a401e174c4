-- ===== src/Api/Tests.antt =====
-- Concrete data for the tests of src/api: amounts in stroops, a backend's records, vaults, events.
mod Write
mod Read
mod Listed
use stellartimelock_core.Common.{ℕ, ◌+◌, String, Bool, ltb, Option, none, some}
use stellartimelock_core.Common.Int.{ℤ, pos, negsuc}
use stellartimelock_core.Api.Vault.{Platform, Vault, locked, RemoteMeta}
use stellartimelock_core.Api.Events.{EventKind, ParsedEvent}

abbrev pub stroops : Platform ℕ
stroops = record {
  zero_xlm = 0;
  add = λ a b. a + b;
  is_positive = λ a. ltb 0 a;
  of_stroops = λ n. elim n [ pos k ↦ k | negsuc k ↦ 0 ];
  date_parse = λ s. some (pos 5000);
}

-- Every date is a thousand seconds after the epoch.
abbrev pub day : ℕ → ℕ → ℕ → Option ℤ
day y m d = some (pos 1000000)

abbrev pub meta : String → Option String → Option ℕ → Option ℤ → RemoteMeta ℕ
meta id status balance unlock = record {
  vault_id = id;
  description = none;
  template = none;
  target_amount = none;
  name = some "Savings";
  withdrawal_destination = none;
  withdrawal_destination_label = none;
  withdrawal_memo = none;
  bill_id = none;
  balance_xlm = balance;
  unlock_timestamp = unlock;
  on_chain_status = status;
  created_at = none;
  updated_at = none;
}

abbrev pub vault : String → ℤ → Vault ℕ
vault id unlock = record {
  vault_id = id;
  owner_public_key = "G1";
  name = "Savings";
  description = "";
  template = "custom";
  balance = 50;
  target_amount = none;
  unlock_timestamp = unlock;
  created_timestamp = pos 10;
  status = locked;
}

abbrev pub event : String → EventKind → ℤ → ParsedEvent ℕ
event id kind at = record {
  tx_id = "t";
  vault_id = id;
  owner_public_key = "G1";
  kind = kind;
  amount = 5;
  note = "unlock 2030-01-02";
  timestamp = at;
  created_at = "";
}
