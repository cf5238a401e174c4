-- ===== src/Contract/Undated.antt =====
-- One extension on contracts/xlm_vault/src/lib.rs can stop `fetchContractEvents` of
-- src/api/soroban-client.ts for everyone: the contract bounds an unlock time by u64 only, and
-- `parseEvent` throws for a time beyond what the platform's dates reach.
use stellartimelock_core.Common.{
  ℕ, ◌+◌, ◌<◌, ◌≡◌, Bool, true, false, none, some, List, [], ◌∷◌, ◌++◌, str_eq_refl, ◌^◌, arith,
}
use stellartimelock_core.Common.Action.{ok, err}
use stellartimelock_core.Api.Errors.{Fault, fault}
use stellartimelock_core.Api.Failover.{failover}
use stellartimelock_core.Api.Vault.{Platform}
use stellartimelock_core.Api.Events.{EventResponse, Decoder}
use stellartimelock_core.Api.Events.Fetch.{EventSource, Page, Fetcher, fetch_contract_events}
use stellartimelock_core.Api.Events.Fetch.Undecodable.{
  rounds, start_of, fetch_contract_events_refused,
}
use stellartimelock_core.Contract
use stellartimelock_core.Contract.Host.{Address, Vault, u64, Chain, Token, checked_u64}
use stellartimelock_core.Contract.Effects.{after_extend, extend_run}
use stellartimelock_core.Contract.Seen.{Encoding, Agrees, row, happened, parse_extend_undated}

module _ {L W ScVal Native A : Type 0} (tk : Token L) (self : Address) (enc : Encoding ScVal Native)
    (dec : Decoder ScVal Native) (agrees : Agrees enc dec) (pf : Platform A)
    (src : EventSource W ScVal A) where
  -- The owner of a vault that is not withdrawn can extend it to any unlock time of 64 bits. Where
  -- that time is no date of the platform's, the event makes a fetch by any client throw whose first
  -- page holds it, whatever else is on the page, and its cache in memory, empty before, stays so.
  pub extend_lock_stops_fetch :
      (auth : Address → Bool) (id : ℕ) (v : Vault) (seconds : ℕ) (c : Chain L) (e : Fault)
      (f : Fetcher W A) (latest : ℕ) (w w' : W) (page : Page ScVal)
      (before after : List (EventResponse ScVal))
      → auth v.owner ≡ true
      → c.vaults id ≡ some v
      → v.withdrawn ≡ false
      → 0 < seconds
      → v.unlock_timestamp + seconds < 2 ^ 64
      → dec.day_of (some (enc.native (u64 (v.unlock_timestamp + seconds)))) ≡ err e
      → f.event_cache ≡ none
      → failover src.is_rpc_transport_error src.rotate_rpc_url src.get_latest_ledger
          (rounds src f)
          f.world
        ≡ (ok latest, w)
      → failover src.is_rpc_transport_error src.rotate_rpc_url
          (src.get_events none (start_of latest))
          (rounds src f)
          w
        ≡ (ok page, w')
      → page.events
        ≡ before
          ++ row enc
              (happened "extend" v.owner (u64 id ∷ u64 (v.unlock_timestamp + seconds) ∷ []) c.now)
            ∷ after
      → (Contract.extend_lock tk self auth v.owner id seconds c
          ≡ (ok (v.unlock_timestamp + seconds), after_extend v.owner id v seconds c))
        × ((e' : Fault) × (fetch_contract_events pf dec src f
              ≡ (err (fault e'), record f { world = w' })))
  unfolding checked_u64
  extend_lock_stops_fetch auth id v seconds c e f latest w w' page before after a h n more fits
        undated empty ledger paged holds =
      (
        extend_run tk self auth v.owner id v seconds c a (ground arith) h (str_eq_refl v.owner) n
            (ground arith),
        fetch_contract_events_refused pf dec src _ e
            (parse_extend_undated enc pf dec agrees v.owner id (v.unlock_timestamp + seconds) c.now
              e undated)
            f latest w w' page before after empty ledger paged holds,
      )
