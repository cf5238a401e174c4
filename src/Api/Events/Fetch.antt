-- ===== src/Api/Events/Fetch.antt =====
-- `fetchContractEvents` of src/api/soroban-client.ts with its two caches: in memory, and on disk.
pub mod Bounds
pub mod Cached
pub mod Undecodable
mod Tests
use stellartimelock_core.Common.{
  ℕ, zero, suc, ◌+◌, ◌-◌, ◌*◌, String, Bool, true, false, not, ◌||◌, Option, none, some, List, [],
  ◌∷◌, ◌++◌, length, str_eq, ltb, leb, if◌then◌else◌,
}
use stellartimelock_core.Common.Action.{Result, ok, err, Action}
use Prim.Native.Nat.{max}
use stellartimelock_core.Api.Errors.{
  Fault, Thrown, soroban, fault, build, simulate, soroban_network_error,
}
use stellartimelock_core.Api.Failover.{failover}
use stellartimelock_core.Api.Vault.{Platform}
use stellartimelock_core.Api.Events.{ParsedEvent, EventResponse, Decoder, parse_event}

abbrev pub event_ledgers_window : ℕ
event_ledgers_window = 17280

abbrev pub event_page_limit : ℕ
event_page_limit = 200

abbrev pub max_events : ℕ
max_events = 1000

abbrev pub max_pages : ℕ
max_pages = 20

abbrev pub event_cache_ms : ℕ
event_cache_ms = 8000

abbrev pub event_disk_ttl_ms : ℕ
event_disk_ttl_ms = 24 * 60 * 60 * 1000

pub record Page (ScVal : Type 0) : Type 0 where
  pub events : List (EventResponse ScVal)
  pub cursor : Option String

pub record PersistedEvents (A : Type 0) : Type 0 where
  pub contract_id : String
  pub fetched_at : ℕ
  pub latest_ledger : ℕ
  pub start_ledger : ℕ
  pub events : List (ParsedEvent A)

-- The network and the platform: the clock, the active deployment, the RPC with its failover, and
-- the disk. `read_item` is the stored item under the deployment's key, parsed, `none` where there is
-- none or it cannot be read; `get_events` asks for a page of `event_page_limit` events at a cursor
-- or, without one, at a ledger.
pub record EventSource (W ScVal A : Type 0) : Type 0 where
  pub now : W → ℕ
  pub contract_id : W → String
  pub fallbacks : W → ℕ
  pub is_rpc_transport_error : Fault → Bool
  pub rotate_rpc_url : Fault → W → W
  pub get_latest_ledger : Action Fault W ℕ
  pub get_events : Option String → ℕ → Action Fault W (Page ScVal)
  pub read_item : W → Option (PersistedEvents A) × W
  pub write_item : PersistedEvents A → W → W
  pub remove_item : W → W

-- How the loop over the pages ends: with events, with an RPC error, or with an event that does not
-- decode, which is thrown.
pub data PagesEnd (A : Type 0) : Type 0 where
  collected : List (ParsedEvent A) → PagesEnd A
  unreachable : Fault → PagesEnd A
  undecodable : Fault → PagesEnd A

-- `eventCache`, and what lies outside.
pub record Fetcher (W A : Type 0) : Type 0 where
  pub event_cache : Option (ℕ × List (ParsedEvent A))
  pub world : W

-- `!cursor`
abbrev no_cursor : Option String → Bool
no_cursor none = true
no_cursor (some c) = str_eq c ""

abbrev same_cursor : Option String → Option String → Bool
same_cursor (some c) (some d) = str_eq c d
same_cursor _ _ = false

abbrev add_event :
    {A : Type 0} → Option (ParsedEvent A) → List (ParsedEvent A) → List (ParsedEvent A)
add_event none evs = evs
add_event (some ev) evs = ev ∷ evs

module _ {W ScVal Native A : Type 0} (pf : Platform A) (dec : Decoder ScVal Native)
    (src : EventSource W ScVal A) where
  -- the events of a page that are the contract's
  pub parse_all : List (EventResponse ScVal) → Result Fault (List (ParsedEvent A))
  parse_all [] = ok []
  parse_all (ev ∷ evs) = elim (parse_event pf dec ev) [
    | err e ↦ err e
    | ok parsed ↦ elim (parse_all evs) [ err e ↦ err e | ok rest ↦ ok (add_event parsed rest) ]
  ]

  -- The loop over the pages, with the events so far and `left` pages to come.
  pub fetch_pages :
      (total start left : ℕ) → Option String → List (ParsedEvent A) → W → PagesEnd A × W
  unfolding parse_all
  fetch_pages total start zero cursor acc w = (collected acc, w)
  fetch_pages total start (suc left) cursor acc w = elim (leb max_events (length acc)) [
    | true ↦ (collected acc, w)
    | false ↦
        let (r, w') =
          failover src.is_rpc_transport_error src.rotate_rpc_url (src.get_events cursor start) total
            w in
        elim r [
          | err e ↦ (unreachable e, w')
          | ok page ↦ elim (parse_all page.events) [
            | err e ↦ (undecodable e, w')
            | ok more ↦ elim (no_cursor page.cursor || same_cursor page.cursor cursor) [
              | true ↦ (collected (acc ++ more), w')
              | false ↦ fetch_pages total start left page.cursor (acc ++ more) w'
            ]
          ]
        ]
  ]

  -- `readDiskCache`: the stored events, unless they are another contract's or too old.
  pub read_disk_cache : W → Option (List (ParsedEvent A)) × W
  read_disk_cache w =
      let (item, w') = src.read_item w in
      elim item [
        | none ↦ (none, w')
        | some p ↦
            if not (str_eq p.contract_id (src.contract_id w'))
              || ltb event_disk_ttl_ms (src.now w' - p.fetched_at)
            then (none, w')
            else (some p.events, w')
      ]

  -- The events on disk, or the error.
  pub from_disk : Thrown → Fetcher W A → Result Thrown (List (ParsedEvent A)) × Fetcher W A
  unfolding read_disk_cache
  from_disk e f =
      let (disk, w) = read_disk_cache f.world in
      elim disk [
        | none ↦ (err e, record f { world = w })
        | some evs ↦ (ok evs, record f { event_cache = some (src.now w, evs); world = w })
      ]

  -- The pages from the latest ledger on.
  pub from_ledger :
      (total latest : ℕ) → Fetcher W A → Result Thrown (List (ParsedEvent A)) × Fetcher W A
  unfolding fetch_pages from_disk
  from_ledger total latest f =
      let start = max 1 (latest - event_ledgers_window) in
      let (ended, w) = fetch_pages total start max_pages none [] f.world in
      elim ended [
        | unreachable e ↦
            from_disk (soroban (soroban_network_error "getEvents" simulate e))
              (record f { world = w })
        | undecodable e ↦ (err (fault e), record f { world = w })
        | collected evs ↦
            let saved : PersistedEvents A = record {
              contract_id = src.contract_id w;
              fetched_at = src.now w;
              latest_ledger = latest;
              start_ledger = start;
              events = evs;
            } in
            (ok evs, record { event_cache = some (src.now w, evs); world = src.write_item saved w })
      ]

  pub from_network : Fetcher W A → Result Thrown (List (ParsedEvent A)) × Fetcher W A
  unfolding from_disk from_ledger
  from_network f =
      let total = 1 + src.fallbacks f.world in
      let (r, w) =
        failover src.is_rpc_transport_error src.rotate_rpc_url src.get_latest_ledger total
          f.world in
      elim r [
        | err e ↦
            from_disk (soroban (soroban_network_error "getEvents" build e)) (record f { world = w })
        | ok latest ↦ from_ledger total latest (record f { world = w })
      ]

  pub fetch_contract_events : Fetcher W A → Result Thrown (List (ParsedEvent A)) × Fetcher W A
  unfolding from_network
  fetch_contract_events f = elim f.event_cache [
    | none ↦ from_network f
    | some (at, evs) ↦
        if ltb (src.now f.world - at) event_cache_ms then (ok evs, f) else from_network f
  ]

  pub invalidate_all_caches : Fetcher W A → Fetcher W A
  invalidate_all_caches f = record { event_cache = none; world = src.remove_item f.world }
