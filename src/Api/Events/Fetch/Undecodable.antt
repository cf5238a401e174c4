-- ===== src/Api/Events/Fetch/Undecodable.antt =====
-- An event that does not decode, in `fetchContractEvents` of src/api/soroban-client.ts.
use Prim.Native.Nat.{max}
use stellartimelock_core.Common.{
  ℕ, ◌+◌, ◌-◌, ◌≡◌, ap, ◌∙◌, inl, inr, none, List, [], ◌∷◌, ◌++◌, arith,
}
use stellartimelock_core.Common.Action.{ok, err, Result-cases}
use stellartimelock_core.Api.Errors.{Fault, fault}
use stellartimelock_core.Api.Failover.{failover}
use stellartimelock_core.Api.Vault.{Platform}
use stellartimelock_core.Api.Events.{EventResponse, Decoder, parse_event}
use stellartimelock_core.Api.Events.Fetch.{
  EventSource, Page, Fetcher, event_ledgers_window, max_pages, parse_all, fetch_pages, from_ledger,
  from_network, fetch_contract_events, undecodable,
}

abbrev pub rounds : {W ScVal A : Type 0} → EventSource W ScVal A → Fetcher W A → ℕ
rounds src f = 1 + src.fallbacks f.world

abbrev pub start_of : ℕ → ℕ
start_of latest = max 1 (latest - event_ledgers_window)

module _ {W ScVal Native A : Type 0} (pf : Platform A) (dec : Decoder ScVal Native)
    (src : EventSource W ScVal A) (bad : EventResponse ScVal) (e : Fault)
    (refused : parse_event pf dec bad ≡ err e) where
  parse_all_refused :
      (before after : List (EventResponse ScVal))
      → (e' : Fault) × (parse_all pf dec src (before ++ bad ∷ after) ≡ err e')
  unfolding parse_all
  parse_all_refused [] after = (e, cc refused)
  parse_all_refused (ev ∷ before) after =
      let (e', h) = parse_all_refused before after in
      elim (Result-cases (parse_event pf dec ev)) [
        | inl (parsed, good) ↦ (e', cc (good, h))
        | inr (e'', not_good) ↦ (e'', cc not_good)
      ]

  first_page :
      (total start : ℕ) (w w' : W) (page : Page ScVal) (before after : List (EventResponse ScVal))
      {e' : Fault}
      → failover src.is_rpc_transport_error src.rotate_rpc_url (src.get_events none start) total w
        ≡ (ok page, w')
      → page.events ≡ before ++ bad ∷ after
      → parse_all pf dec src (before ++ bad ∷ after) ≡ err e'
      → fetch_pages pf dec src total start max_pages none [] w ≡ (undecodable e', w')
  unfolding fetch_pages
  first_page total start w w' page before after paged holds h =
      cc (paged, ap (parse_all pf dec src) holds ∙ h)

  pages_refused :
      (total latest : ℕ) (f : Fetcher W A) (w w' : W) (e' : Fault)
      → fetch_pages pf dec src total (start_of latest) max_pages none [] w ≡ (undecodable e', w')
      → from_ledger pf dec src total latest (record f { world = w })
        ≡ (err (fault e'), record f { world = w' })
  unfolding from_ledger
  pages_refused total latest f w w' e' h = ground arith

  -- If the first page has it, the whole fetch throws, and the cache is left as it was.
  pub fetch_contract_events_refused :
      (f : Fetcher W A) (latest : ℕ) (w w' : W) (page : Page ScVal)
      (before after : List (EventResponse ScVal))
      → f.event_cache ≡ none
      → failover src.is_rpc_transport_error src.rotate_rpc_url src.get_latest_ledger
          (rounds src f)
          f.world
        ≡ (ok latest, w)
      → failover src.is_rpc_transport_error src.rotate_rpc_url
          (src.get_events none (start_of latest))
          (rounds src f)
          w
        ≡ (ok page, w')
      → page.events ≡ before ++ bad ∷ after
      → (e' : Fault) × (fetch_contract_events pf dec src f
          ≡ (err (fault e'), record f { world = w' }))
  unfolding fetch_contract_events from_network
  fetch_contract_events_refused f latest w w' page before after empty ledger paged holds =
      let (e', h) = parse_all_refused before after in
      let first : fetch_pages pf dec src (rounds src f) (start_of latest) max_pages none [] w
          ≡ (undecodable e', w') =
        first_page (rounds src f) (start_of latest) w w' page before after paged holds h in
      let asked : from_ledger pf dec src (rounds src f) latest (record f { world = w })
          ≡ (err (fault e'), record f { world = w' }) =
        pages_refused (rounds src f) latest f w w' e' first in
      (e', ground arith)
