-- ===== src/Api/Single.antt =====
-- `getVault` of src/api/soroban-client.ts: one vault by its id, from four sources in turn.
pub mod Reach
use Prim.Native.String.{◌++◌}
use stellartimelock_core.Common.{
  ℕ, String, Bool, true, false, Option, none, some, List, [], ◌∷◌, find, str_eq, if◌then◌else◌,
}
use stellartimelock_core.Common.Action.{Result, ok, err}
use stellartimelock_core.Common.Int.{ℤ}
use stellartimelock_core.Api.Errors.{Fault, error}
use stellartimelock_core.Api.Vault.{Platform, Vault, RemoteMeta, ContractVault}
use stellartimelock_core.Api.Vault.Overlay.{build_archived_overlay}
use stellartimelock_core.Api.Events.{ParsedEvent}
use stellartimelock_core.Api.Session.{Session, is_xdr_parse_error, mark_simulate_broken}

-- What each source answers, if it is asked: the contract by simulation, with the local meta; the
-- events; the aggregation of an owner's events; the persisted cache of an owner; and the backend's
-- records of an owner, `none` where there is no backend or it is not reachable.
pub record Answers (A : Type 0) : Type 0 where
  pub simulation : Result Fault (Vault A)
  pub events : Result Fault (List (ParsedEvent A))
  pub aggregated : String → Result Fault (List (Vault A))
  pub cached : String → Result Fault (List (Vault A))
  pub remotes : String → Option (List (RemoteMeta A))

-- `if (inferredOwner)`
abbrev pub truthy : Option String → Option String
truthy none = none
truthy (some s) = if str_eq s "" then none else some s

module _ {A : Type 0} where
  -- `vaults.find((x) => x.vault_id === id)` in a `try`
  abbrev pub found : String → Result Fault (List (Vault A)) → Option (Vault A)
  found id (ok vs) = find (λ v. str_eq v.vault_id id) vs
  found id (err e) = none

  -- Step 1, and the session that it leaves
  simulate_one : Answers A → Session A → Option (Vault A) × Session A
  simulate_one ans s = if s.simulate_path_broken then (none, s) else elim ans.simulation [
    | ok v ↦ (some v, s)
    | err e ↦ (none, if is_xdr_parse_error e then mark_simulate_broken s else s)
  ]

  abbrev event_of : String → Answers A → Option (ParsedEvent A)
  event_of id ans = elim ans.events [ ok evs ↦ find (λ e. str_eq e.vault_id id) evs | err e ↦ none ]

  -- Step 2: the vault by the events, and the owner that is inferred.
  unfoldable pub by_events : String → Option String → Answers A → Option (Vault A) × Option String
  by_events id hint ans = elim (event_of id ans) [
    | none ↦ (none, hint)
    | some ev ↦ (found id (ans.aggregated ev.owner_public_key), some ev.owner_public_key)
  ]

  -- Step 3
  pub by_cache : String → Option String → Answers A → Option (Vault A)
  by_cache id owner ans = elim (truthy owner) [ none ↦ none | some o ↦ found id (ans.cached o) ]

  module _ (pf : Platform A) (now_sec : ℤ) where
    -- Step 4 for an owner, and the ids that are dismissed on the backend.
    remote_rows : String → String → Option (List (RemoteMeta A)) → Option (Vault A) × List String
    remote_rows id o none = (none, [])
    remote_rows id o (some rs) =
        let (overlay, dismissed) = build_archived_overlay pf o now_sec rs [] in
        (find (λ v. str_eq v.vault_id id) overlay, dismissed)

    by_remotes : String → Option String → Answers A → Option (Vault A) × List String
    unfolding remote_rows
    by_remotes id owner ans = elim (truthy owner) [
      | none ↦ (none, [])
      | some o ↦ remote_rows id o (ans.remotes o)
    ]

    abbrev pub not_reachable : String → Fault
    not_reachable id = error (
        "Vault " ++ id
        ++ " not reachable on-chain and not in local cache. Try again once the RPC has caught up.")

    last_step : String → Option String → Answers A → Result Fault (Vault A) × List String
    unfolding by_remotes
    last_step id owner ans =
        let (v, dismissed) = by_remotes id owner ans in
        elim v [ none ↦ (err (not_reachable id), dismissed) | some v ↦ (ok v, dismissed) ]

    -- Steps 2 to 4
    unfoldable pub fall_back :
        String → Option String → Answers A → Result Fault (Vault A) × List String
    unfolding by_events by_cache last_step
    fall_back id hint ans =
        let (from_events, owner) = by_events id hint ans in
        elim from_events [
          | some v ↦ (ok v, [])
          | none ↦ elim (by_cache id owner ans) [
            | some v ↦ (ok v, [])
            | none ↦ last_step id owner ans
          ]
        ]

    -- The vault, or the error thrown; the ids dismissed on the backend; and the session.
    pub get_vault :
        String
        → Option String
        → Answers A
        → Session A
        → (Result Fault (Vault A) × List String) × Session A
    unfolding simulate_one fall_back
    get_vault id hint ans s =
        let (simulated, s') = simulate_one ans s in
        elim simulated [ some v ↦ ((ok v, []), s') | none ↦ (fall_back id hint ans, s') ]
