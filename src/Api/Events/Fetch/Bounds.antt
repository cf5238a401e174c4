-- ===== src/Api/Events/Fetch/Bounds.antt =====
-- How many events `fetchContractEvents` of src/api/soroban-client.ts can collect.
use stellartimelock_core.Common.{
  ℕ, zero, suc, ◌+◌, ◌≤◌, ◌<◌, Bool, ◌≡◌, ◌∙◌, Option, List, [], ◌∷◌, ◌++◌, length, length-append,
  String, arith, inl, inr,
}
use stellartimelock_core.Common.Action.{Result, ok, Action, Result-cases}
use stellartimelock_core.Api.Errors.{Fault}
use stellartimelock_core.Api.Failover.{
  failover, failover-Tries, Tries, returns, refused, exhausted, rotated,
}
use stellartimelock_core.Api.Vault.{Platform}
use stellartimelock_core.Api.Events.{ParsedEvent, EventResponse, Decoder}
use stellartimelock_core.Api.Events.Fetch.{
  EventSource, Page, collected, parse_all, fetch_pages, max_events, event_page_limit,
}

-- What a run of the retry loop returns, the call returned.
Tries-returned :
    {S A : Type 0} (is_transport : Fault → Bool) (rotate : Fault → S → S) (op : Action Fault S A)
    (n : ℕ) (s t : S) (r : Result Fault A) (a : A)
    → Tries is_transport rotate op n s r t
    → r ≡ ok a
    → (u : S) × ((op u).0 ≡ ok a)
Tries-returned is_transport rotate op n s t r a (returns h) e = (s, h ∙ e)
Tries-returned is_transport rotate op n s t r a (refused h k) e = absurd (ground arith)
Tries-returned is_transport rotate op n s t r a (exhausted h) e = absurd (ground arith)
Tries-returned is_transport rotate op n s t r a (rotated h k more) e =
    Tries-returned is_transport rotate op _ _ t r a more e

module _ {W ScVal Native A : Type 0} (pf : Platform A) (dec : Decoder ScVal Native)
    (src : EventSource W ScVal A) where
  parse_all-length :
      (evs : List (EventResponse ScVal)) (out : List (ParsedEvent A))
      → parse_all pf dec src evs ≡ ok out
      → length out ≤ length evs
  unfolding parse_all
  parse_all-length [] out h = ground arith
  parse_all-length (ev ∷ evs) out h = elim (Result-cases (parse_all pf dec src evs)) [
    | inl (rest, e) ↦ ground (arith, parse_all-length evs rest e)
    | inr (x, e) ↦ ground arith
  ]

  -- A page that the RPC returns has no more events than the limit that the request gives.
  abbrev pub HasPageLimit : Type 0
  HasPageLimit =
      (cursor : Option String) (start : ℕ) (w : W) (page : Page ScVal)
      → (src.get_events cursor start w).0 ≡ ok page
      → length page.events ≤ event_page_limit

  module _ (limit : HasPageLimit) where
    asked-length :
        (n start : ℕ) (cursor : Option String) (w : W) (page : Page ScVal)
        → (failover src.is_rpc_transport_error src.rotate_rpc_url
            (src.get_events cursor start)
            (1 + n)
            w).0
          ≡ ok page
        → length page.events ≤ event_page_limit
    asked-length n start cursor w page h =
        let op = src.get_events cursor start in
        let tries = failover-Tries src.is_rpc_transport_error src.rotate_rpc_url op n w in
        let (u, e) =
          Tries-returned src.is_rpc_transport_error src.rotate_rpc_url op n w _ _ page tries h in
        limit cursor start u page e

    -- If no page has more events than the limit of 200 that is asked for, the page loop, begun with
    -- fewer than 1200 events, ends with fewer than 1200, however many pages there are.
    pub fetch_pages_bounds :
        (n start left : ℕ) (cursor : Option String) (acc : List (ParsedEvent A)) (w : W)
        (out : List (ParsedEvent A))
        → length acc < max_events + event_page_limit
        → (fetch_pages pf dec src (1 + n) start left cursor acc w).0 ≡ collected out
        → length out < max_events + event_page_limit
    unfolding fetch_pages
    fetch_pages_bounds n start zero cursor acc w out few h = ground arith
    fetch_pages_bounds n start (suc left) cursor acc w out few h =
        let run =
          failover src.is_rpc_transport_error src.rotate_rpc_url (src.get_events cursor start)
            (1 + n) w in
        elim (Result-cases run.0) [
          | inr (x, e) ↦ ground arith
          | inl (page, e) ↦ elim (Result-cases (parse_all pf dec src page.events)) [
            | inr (x, e') ↦ ground arith
            | inl (more, e') ↦ ground (
              arith,
              length-append acc more,
              asked-length n start cursor w page e,
              parse_all-length page.events more e',
              fetch_pages_bounds n start left page.cursor (acc ++ more) run.1 out,
            )
          ]
        ]
