-- ===== src/Api/History/Tests.antt =====
-- Histories of one vault with an event in memory, and of one that only the backend knows.
use stellartimelock_core.Common.{ℕ, ◌+◌, true, String, none, some, [], ◌∷◌}
use stellartimelock_core.Common.Action.{ok, err}
use stellartimelock_core.Common.Int.{pos}
use stellartimelock_core.Api.Errors.{error}
use stellartimelock_core.Api.Vault.{Platform, RemoteMeta}
use stellartimelock_core.Api.Events.{ParsedEvent, deposit, Decoder}
use stellartimelock_core.Api.Events.Fetch.{EventSource, Fetcher, fetch_contract_events}
use stellartimelock_core.Api.History.{of_vault, of_owner, vault_transactions, all_transactions}
use stellartimelock_core.Api.History.Rows.{IsHistory, histories-AreHistories}

abbrev stroops : Platform ℕ
stroops = record {
  zero_xlm = 0;
  add = λ a b. a + b;
  is_positive = λ a. true;
  of_stroops = λ n. 5;
  date_parse = λ s. none;
}

-- Values are texts, and an event's value is a tuple that begins with the vault's id.
abbrev texts : Decoder String String
texts = record {
  to_native = λ v. ok v;
  text_of = λ n. n;
  array_of = λ n. some (n ∷ "5" ∷ []);
  big_int = λ n. ok (pos 5);
  day_of = λ n. ok "2030-01-02";
  time_of = λ s. pos 2000;
}

abbrev one_deposit : ParsedEvent ℕ
one_deposit = record {
  tx_id = "t";
  vault_id = "1";
  owner_public_key = "G1";
  kind = deposit;
  amount = 5;
  note = "";
  timestamp = pos 2;
  created_at = "";
}

abbrev offline : EventSource ℕ String ℕ
offline = record {
  now = λ w. w;
  contract_id = λ w. "C1";
  fallbacks = λ w. 0;
  is_rpc_transport_error = λ e. true;
  rotate_rpc_url = λ e w. w;
  get_latest_ledger = λ w. (err (error "timeout"), w);
  get_events = λ c n w. (err (error "timeout"), w);
  read_item = λ w. (none, w);
  write_item = λ p w. w;
  remove_item = λ w. w;
}

abbrev old_vault : RemoteMeta ℕ
old_vault = record {
  vault_id = "7";
  description = none;
  template = none;
  target_amount = none;
  name = some "Rent";
  withdrawal_destination = none;
  withdrawal_destination_label = none;
  withdrawal_memo = none;
  bill_id = none;
  balance_xlm = none;
  unlock_timestamp = none;
  on_chain_status = none;
  created_at = none;
  updated_at = none;
}

abbrev fetcher : Fetcher ℕ ℕ
fetcher = record { event_cache = some (0, one_deposit ∷ []); world = 0 }

histories-AreHistories_example :
    IsHistory stroops texts offline
      (λ o w. (some (old_vault ∷ []), w))
      (of_vault stroops "1")
      (vault_transactions stroops texts offline (λ o w. (some (old_vault ∷ []), w)) "1" fetcher)
      (fetch_contract_events stroops texts offline fetcher)
    × IsHistory stroops texts offline
        (λ o w. (some (old_vault ∷ []), w))
        (of_owner stroops "G1")
        (all_transactions stroops texts offline (λ o w. (some (old_vault ∷ []), w)) "G1" fetcher)
        (fetch_contract_events stroops texts offline fetcher)
histories-AreHistories_example =
    histories-AreHistories stroops texts offline (λ o w. (some (old_vault ∷ []), w)) "1" "G1"
      fetcher
