-- ===== src/Contract/Replayed/Tests.antt =====
-- The events of a vault as a client reads them, and an extension beyond what its dates reach.
use Prim.Native.String as NativeString
use stellartimelock_core.Common.{
  ℕ, zero, suc, ◌*◌, ◌≡◌, refl, sym, ap, ◌∙◌, String, true, false, Option, none, some, List, [],
  ◌∷◌, map, leb, arith, if◌then◌else◌,
}
use stellartimelock_core.Common.Action.{Result, ok, err}
use stellartimelock_core.Common.Dict.{lookup}
use stellartimelock_core.Common.Int.{ℤ, pos, ◌+ℤ◌}
use stellartimelock_core.Api.Errors.{Fault, error, fault}
use stellartimelock_core.Api.Failover.{failover, failover_from}
use stellartimelock_core.Api.Vault.{Platform}
use stellartimelock_core.Api.Events.{
  ParsedEvent, create, deposit, Decoder, parse_event, parse_value,
}
use stellartimelock_core.Api.Events.Fetch.{EventSource, Page, Fetcher, fetch_contract_events}
use stellartimelock_core.Api.Events.Replay.{date_note_to_sec, replay}
use stellartimelock_core.Contract
use stellartimelock_core.Contract.Host.{Value, u64, i128, checked_u64, checked_i128}
use stellartimelock_core.Contract.Calls.{attempt, perform}
use stellartimelock_core.Contract.Effects.{after_extend}
use stellartimelock_core.Contract.Seen.{Encoding, Agrees, key, row, shown, happened}
use stellartimelock_core.Contract.Shown.{DaysBeginEarly, Shows, seen}
use stellartimelock_core.Contract.Replayed.{replay-Shows}
use stellartimelock_core.Contract.Undated.{extend_lock_stops_fetch}
use stellartimelock_core.Contract.Tests.{
  coins, coins-IsLawful, empty_chain, empty_chain-IsNew, filled, filled_reached, made, made_vault,
  rent, alice_only,
}

data Native : Type 0 where
  text : String → Native
  value : Value → Native
  tuple : List Value → Native

-- A number by as many strokes.
tally : ℕ → String
tally zero = NativeString.[]
tally (suc n) = NativeString.◌∷◌ "|" (tally n)

strokes : String → ℕ
strokes NativeString.[] = 0
strokes (NativeString.◌∷◌ c s) = suc (strokes s)

strokes-tally : (n : ℕ) → strokes (tally n) ≡ n
unfolding tally strokes
strokes-tally zero = refl
strokes-tally (suc n) = ap suc (strokes-tally n)

abbrev text_of : Native → String
text_of (text s) = s
text_of (value (u64 n)) = tally n
text_of (value (i128 a)) = ""
text_of (tuple vs) = ""

abbrev day_of : Option Native → Result Fault String
day_of (some (value (u64 t))) =
    if leb t 8640000000000 then ok "2020-01-01" else err (error "RangeError")
day_of _ = err (error "RangeError")

abbrev big_int : Option Native → Result Fault ℤ
big_int (some (value (i128 a))) = ok a
big_int _ = err (error "SyntaxError")

abbrev array_of : Native → Option (List Native)
array_of (tuple vs) = some (map value vs)
array_of _ = none

abbrev decoder : Decoder Native Native
decoder = record {
  to_native = λ v. ok v;
  text_of = text_of;
  array_of = array_of;
  big_int = big_int;
  day_of = day_of;
  time_of = λ s. pos (strokes s * 1000);
}

abbrev encoding : Encoding Native Native
encoding = record {
  symbol = text;
  address = text;
  tuple = tuple;
  native = value;
  tx_hash = λ ev. "t";
  closed_at = tally;
}

agreeing : Agrees encoding decoder
agreeing = record {
  symbols = λ s. (text s, refl, refl);
  addresses = λ s. (text s, refl, refl);
  tuples = λ vs. (tuple vs, refl, refl);
  ids = λ m n h. sym (strokes-tally m) ∙ ap strokes h ∙ strokes-tally n;
  amounts = λ a. refl;
  times = λ t. ap (λ n. pos (n * 1000)) (strokes-tally t);
}

abbrev stroops : Platform ℤ
stroops = record {
  zero_xlm = pos 0;
  add = λ a b. a +ℤ b;
  is_positive = λ a. true;
  of_stroops = λ a. a;
  date_parse = λ s. none;
}

-- On a platform that reads no date back every unlock time is 0.
no_dates : (note : String) → date_note_to_sec stroops (λ y m d. none) note ≡ pos 0
unfolding date_note_to_sec
no_dates note = ground arith

days_early : DaysBeginEarly encoding decoder agreeing stroops (λ y m d. none)
days_early t s h = (rw (no_dates _) (omega arith), rw (no_dates _) (omega arith))

-- The log of a creation and a deposit, as the client reads it.
abbrev filled_log : List (ParsedEvent ℤ)
filled_log =
    shown encoding stroops decoder agreeing (happened "create" "alice" [] 50) create 0 (pos 30)
      "unlock 2020-01-01"
    ∷ shown encoding stroops decoder agreeing (happened "deposit" "alice" [] 50) deposit 0 (pos 5)
        ""
    ∷ []

filled_seen : seen encoding decoder agreeing stroops (λ y m d. none) filled.events ≡ ok filled_log
unfolding seen parse_event parse_value perform attempt Contract.init Contract.create_vault
    Contract.deposit checked_u64 checked_i128 ◌+ℤ◌ tally strokes
filled_seen = refl

replay-Shows_example :
    Shows encoding decoder agreeing stroops
      (λ y m d. none)
      (filled.vaults 0)
      (lookup
        (key encoding stroops decoder agreeing 0)
        (replay stroops (λ y m d. none) filled_log []))
replay-Shows_example =
    replay-Shows encoding decoder agreeing stroops (λ y m d. none) coins "vault" days_early
      coins-IsLawful empty_chain filled filled_log 0 empty_chain-IsNew filled_reached filled_seen

abbrev page : Page Native
page = record {
  events = row encoding (happened "extend" "alice" (u64 0 ∷ u64 9000000000000 ∷ []) made.now) ∷ [];
  cursor = none;
}

-- An RPC with one page.
abbrev rpc : EventSource (Unit {0}) Native ℤ
rpc = record {
  now = λ w. 1000;
  contract_id = λ w. "C1";
  fallbacks = λ w. 0;
  is_rpc_transport_error = λ e. false;
  rotate_rpc_url = λ e w. w;
  get_latest_ledger = λ w. (ok 500, w);
  get_events = λ cursor start w. (ok page, w);
  read_item = λ w. (none, w);
  write_item = λ p w. w;
  remove_item = λ w. w;
}

abbrev client : Fetcher (Unit {0}) ℤ
client = record { event_cache = none; world = tt }

extend_lock_stops_fetch_example :
    (Contract.extend_lock coins "vault" alice_only "alice" 0 8999999999920 made
      ≡ (ok 9000000000000, after_extend "alice" 0 rent 8999999999920 made))
    × ((e' : Fault) × (fetch_contract_events stroops decoder rpc client ≡ (err (fault e'), client)))
unfolding failover failover_from
extend_lock_stops_fetch_example =
    extend_lock_stops_fetch coins "vault" encoding decoder agreeing stroops rpc alice_only 0 rent
      8999999999920 made (error "RangeError") client 500 tt tt page [] [] refl made_vault refl
      (omega arith) (omega arith) refl refl refl refl refl
