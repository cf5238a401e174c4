-- ===== src/Api/Events/Fetch/Cached.antt =====
-- What `fetchContractEvents` of src/api/soroban-client.ts leaves in its cache in memory.
use stellartimelock_core.Common.{
  ℕ, Bool, true, false, is_some, ◌≡◌, Option, none, some, List, arith,
}
use stellartimelock_core.Common.Action.{Result, ok, err}
use stellartimelock_core.Api.Errors.{Thrown, soroban, fault}
use stellartimelock_core.Api.Vault.{Platform}
use stellartimelock_core.Api.Events.{ParsedEvent, Decoder}
use stellartimelock_core.Api.Events.Fetch.{
  EventSource, Fetcher, from_disk, from_ledger, from_network, fetch_contract_events,
  read_disk_cache,
}

-- The events in the cache, whenever they were put there.
abbrev pub held : {A : Type 0} → Option (ℕ × List (ParsedEvent A)) → Option (List (ParsedEvent A))
held none = none
held (some (at, evs)) = some evs

-- Events that are returned are the cached ones; after a throw the cache is as it was.
abbrev pub Caches :
    {W A : Type 0} → Fetcher W A → Result Thrown (List (ParsedEvent A)) × Fetcher W A → Type 0
Caches f (ok evs, f') = held f'.event_cache ≡ some evs
Caches f (err e, f') = f'.event_cache ≡ f.event_cache

abbrev pub is_fault : Thrown → Bool
is_fault (fault f) = true
is_fault (soroban e) = false

module _ {W ScVal Native A : Type 0} (pf : Platform A) (dec : Decoder ScVal Native)
    (src : EventSource W ScVal A) where
  from_disk-Caches : (e : Thrown) (f : Fetcher W A) → Caches f (from_disk pf dec src e f)
  unfolding from_disk
  from_disk-Caches e f = ground arith

  from_ledger-Caches :
      (total latest : ℕ) (f : Fetcher W A) → Caches f (from_ledger pf dec src total latest f)
  unfolding from_ledger from_disk
  from_ledger-Caches total latest f = ground arith

  from_network-Caches : (f : Fetcher W A) → Caches f (from_network pf dec src f)
  unfolding from_network from_disk from_ledger
  from_network-Caches f = ground arith

  -- Whatever the network and the disk answer, events that are returned are the events that the cache
  -- in memory then holds, and after a throw that cache is as it was.
  fetch_contract_events-Caches : (f : Fetcher W A) → Caches f (fetch_contract_events pf dec src f)
  unfolding fetch_contract_events
  fetch_contract_events-Caches f = ground (arith, from_network-Caches f)

  -- With readable events of this contract on disk that are not too old, no failure of the network
  -- makes the fetch throw: it throws only for an event that does not decode.
  fetch_contract_events_offline :
      (f : Fetcher W A) (e : Thrown)
      → ((w : W) → is_some (read_disk_cache pf dec src w).0 ≡ true)
      → (fetch_contract_events pf dec src f).0 ≡ err e
      → is_fault e ≡ true
  unfolding fetch_contract_events from_network from_ledger from_disk
  fetch_contract_events_offline f e readable thrown = grind (arith, readable)
