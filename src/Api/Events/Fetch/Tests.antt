-- ===== src/Api/Events/Fetch/Tests.antt =====
-- `fetchContractEvents` of src/api/soroban-client.ts on an RPC of two pages, and on one that is down.
use stellartimelock_core.Common.{
  ℕ, ◌+◌, ◌<◌, ◌≡◌, refl, String, true, Option, none, some, [], ◌∷◌, is_some, arith,
}
use stellartimelock_core.Common.Action.{ok, err}
use stellartimelock_core.Common.Int.{pos}
use stellartimelock_core.Api.Errors.{error, fault}
use stellartimelock_core.Api.Failover.{failover, failover_from}
use stellartimelock_core.Api.Vault.{Platform}
use stellartimelock_core.Api.Events.{
  ParsedEvent, deposit, EventResponse, Decoder, parse_event, parse_topics, parse_value,
  amount_and_note,
}
use stellartimelock_core.Api.Events.Fetch.{
  EventSource, Fetcher, collected, parse_all, fetch_pages, read_disk_cache, from_disk, from_ledger,
  from_network, fetch_contract_events,
}
use stellartimelock_core.Api.Events.Fetch.Bounds.{HasPageLimit, fetch_pages_bounds}

abbrev stroops : Platform ℕ
stroops = record {
  zero_xlm = 0;
  add = λ a b. a + b;
  is_positive = λ a. true;
  of_stroops = λ n. 5;
  date_parse = λ s. none;
}

-- Values are texts, and an event's value is a tuple that begins with the vault's id.
abbrev texts : Decoder String String
texts = record {
  to_native = λ v. ok v;
  text_of = λ n. n;
  array_of = λ n. some (n ∷ "5" ∷ []);
  big_int = λ n. ok (pos 5);
  day_of = λ n. ok "2030-01-02";
  time_of = λ s. pos 2000;
}

abbrev response : EventResponse String
response = record {
  topic = "deposit" ∷ "G1" ∷ [];
  value = "1";
  tx_hash = "t";
  ledger_closed_at = "";
}

abbrev parsed : ParsedEvent ℕ
parsed = record {
  tx_id = "t";
  vault_id = "1";
  owner_public_key = "G1";
  kind = deposit;
  amount = 5;
  note = "";
  timestamp = pos 2;
  created_at = "";
}

abbrev next_cursor : Option String → Option String
next_cursor none = some "c"
next_cursor (some c) = none

-- The world is the clock; the disk holds one event.
abbrev two_pages : EventSource ℕ String ℕ
two_pages = record {
  now = λ w. w;
  contract_id = λ w. "C";
  fallbacks = λ w. 1;
  is_rpc_transport_error = λ e. true;
  rotate_rpc_url = λ e w. w;
  get_latest_ledger = λ w. (ok 100, w);
  get_events =
      λ cursor start w. (ok (record { events = response ∷ []; cursor = next_cursor cursor }), w);
  read_item = λ w. (
    some (record {
      contract_id = "C";
      fetched_at = w;
      latest_ledger = 9;
      start_ledger = 1;
      events = parsed ∷ [];
    }),
    w,
  );
  write_item = λ p w. w;
  remove_item = λ w. w;
}

abbrev down : EventSource ℕ String ℕ
down = record two_pages { get_latest_ledger = λ w. (err (error "timeout"), w) }

abbrev idle : Fetcher ℕ ℕ
idle = record { event_cache = none; world = 50 }

two_pages_limit : HasPageLimit stroops texts two_pages
two_pages_limit cursor start w page h = ground arith

both_pages :
    (fetch_pages stroops texts two_pages 2 1 20 none [] 50).0 ≡ collected (parsed ∷ parsed ∷ [])
unfolding fetch_pages parse_all parse_event parse_topics parse_value amount_and_note failover
    failover_from
both_pages = refl

fetch_pages_bounds_example : 2 < 1200
fetch_pages_bounds_example =
    fetch_pages_bounds stroops texts two_pages two_pages_limit 1 1 20 none [] 50
      (parsed ∷ parsed ∷ []) (omega arith) both_pages

-- Amounts do not decode.
abbrev garbled : Decoder String String
garbled = record texts { big_int = λ n. err (error "bad") }

disk_is_readable : (w : ℕ) → is_some (read_disk_cache stroops garbled two_pages w).0 ≡ true
unfolding read_disk_cache
disk_is_readable w = ground arith

does_not_decode :
    (fetch_contract_events stroops garbled two_pages idle).0 ≡ err (fault (error "bad"))
unfolding fetch_contract_events from_network from_ledger fetch_pages parse_all parse_event
    parse_topics parse_value amount_and_note failover failover_from
does_not_decode = refl

-- With the RPC down the events on disk are returned.
offline_events : (fetch_contract_events stroops texts down idle).0 ≡ ok (parsed ∷ [])
unfolding fetch_contract_events from_network from_disk read_disk_cache failover failover_from
offline_events = refl
