-- ===== src/Api/Wake.antt =====
-- `wakeUpVault` of src/api/soroban-client.ts: restore an archived vault and extend its lifetime.
pub mod Submit
pub mod Finish
pub mod Moves
pub mod Steps
pub mod Ends
pub mod Accounts
pub mod Extended
mod Tests
use stellartimelock_core.Common.{
  ℕ, zero, suc, ◌+◌, ◌-◌, String, Bool, true, false, ◌||◌, Option, none, some, List, [], ◌∷◌, ◌++◌,
  or_else,
}
use stellartimelock_core.Common.Action.{Result, ok, err, Action, pure, throw, ◌>>=◌}
use stellartimelock_core.Api.Errors.{
  Fault, Thrown, soroban, fault, soroban_simulation_error, soroban_on_chain_error,
}
use stellartimelock_core.Api.Network.{Network, Simulation, failure, simulated}
use stellartimelock_core.Api.Invoke.{
  Client, poll_interval_ms, on_world, load_account, simulate_phase,
}
use Submit.{submit_one}

abbrev pub wake_method : String
wake_method = "wake_up"

-- const RE_SIM_ATTEMPTS
abbrev pub re_sim_attempts : ℕ
re_sim_attempts = 3

-- What the SDK builds and decodes for a wake-up. A preamble and the data of a transaction are
-- footprints. The world given is the one whose deployment is the active one when the call begins.
pub record Restoring (net : Network) : Type 1 where
  -- [scU64(BigInt(vaultId))]
  pub vault_params : String → Result Fault (List net.ScVal)
  -- the RestoreFootprint transaction of a preamble, and the ExtendFootprintTtl one of a footprint
  pub build_restore : net.Account → net.Footprint → net.World → Result Fault net.Transaction
  pub build_extend : net.Account → net.Footprint → net.World → Result Fault net.Transaction
  -- the preamble's keys, all of them read-only
  pub read_only_copy : net.Footprint → Result Fault net.Footprint

-- How far a wake-up has come: the last simulation, the footprint derived from the preamble, and the
-- transactions that went through.
pub record Progress (net : Network) : Type 0 where
  pub sim : Simulation net.ScVal net.Footprint
  pub extend_footprint : Option net.Footprint
  pub restored : Bool
  pub extended : Bool
  pub tx_hashes : List String

abbrev pub preamble_of : {V F : Type 0} → Simulation V F → Option F
preamble_of (failure e) = none
preamble_of (simulated v d p) = p

abbrev pub data_of : {V F : Type 0} → Simulation V F → Option F
data_of (failure e) = none
data_of (simulated v d p) = d

-- A success that reports no restore.
abbrev pub is_live : {V F : Type 0} → Simulation V F → Bool
is_live (simulated v d none) = true
is_live _ = false

-- `try { … } catch { undefined }`
abbrev pub attempt : {A : Type 0} → Result Fault A → Option A
attempt (ok a) = some a
attempt (err e) = none

-- The last of some hashes, "unknown" where there is none.
abbrev pub last_hash : List String → String
last_hash [] = "unknown"
last_hash (h ∷ []) = h
last_hash (h ∷ hs) = last_hash hs

module _ (net : Network) (sdk : Restoring net) (owner : String) where
  open net use {
    World, Account, Transaction, ScVal, Footprint, Signer, sleep, current_rpc_url,
    simulate_transaction, build_call,
  }

  -- What a call throws is thrown on as it is.
  abbrev pub bare : {A : Type 0} → Action Fault World A → Action Thrown (Client World) A
  bare m c =
      let (r, w) = m c.world in
      let c' = record c { world = w } in elim r [ ok a ↦ (ok a, c') | err e ↦ (err (fault e), c') ]

  abbrev pub computed : {A : Type 0} → Result Fault A → Action Fault World A
  computed r w = (r, w)

  -- `dep` is the deployment when the call began, that of the world `start`.
  module _ (start : World) (vault_id : String) where
    pub build_probe : Action Fault World Transaction
    build_probe = do
      source ← load_account net owner
      params ← computed (sdk.vault_params vault_id)
      computed (build_call source "get_vault" params start)

    -- One attempt of the loop after a restore: what it throws is caught.
    probe_again : World → Option (Simulation ScVal Footprint) × World
    unfolding build_probe
    probe_again w =
        let (r, w') =
          (do tx ← build_probe; λ v. simulate_transaction (current_rpc_url v) tx v)
            (sleep poll_interval_ms w) in
        (attempt r, w')

    -- The loop, for the attempts that are left: the first simulation that shows a live entry.
    pub re_simulate : ℕ → World → Option (Simulation ScVal Footprint) × World
    unfolding probe_again
    re_simulate zero w = (none, w)
    re_simulate (suc n) w =
        let (sim, w') = probe_again w in
        elim sim [
          | none ↦ re_simulate n w'
          | some s ↦ elim (is_live s) [ true ↦ (some s, w') | false ↦ re_simulate n w' ]
        ]

    -- Step A
    pub probe_step : Action Thrown (Client World) (Simulation ScVal Footprint)
    probe_step = do
      tx ← bare build_probe
      λ c. simulate_phase net (current_rpc_url c.world) wake_method tx c

    module _ (signer : Signer) where
      -- Once the restore is confirmed
      after_restore :
          Simulation ScVal Footprint
          → Footprint
          → String
          → Action Thrown (Client World) (Progress net)
      unfolding re_simulate
      after_restore sim preamble hash = do
        live ← bare (λ w. let (s, w') = re_simulate re_sim_attempts w in (ok s, w'))
        pure (record {
          sim = or_else live sim;
          extend_footprint = attempt (sdk.read_only_copy preamble);
          restored = true;
          extended = false;
          tx_hashes = hash ∷ [];
        })

      restore_with :
          Simulation ScVal Footprint
          → Footprint
          → Transaction
          → Action Thrown (Client World) (Progress net)
      unfolding after_restore
      restore_with sim preamble tx = do
        hash ← submit_one net wake_method signer tx
        after_restore sim preamble hash

      restore_from :
          Simulation ScVal Footprint → Footprint → Action Thrown (Client World) (Progress net)
      unfolding restore_with
      restore_from sim preamble = do
        source ← bare (load_account net owner)
        tx ← bare (computed (sdk.build_restore source preamble start))
        restore_with sim preamble tx

      -- Step B
      pub restore_step : Simulation ScVal Footprint → Action Thrown (Client World) (Progress net)
      unfolding restore_from
      restore_step sim = elim (preamble_of sim) [
        | some preamble ↦ restore_from sim preamble
        | none ↦ pure (record {
          sim = sim;
          extend_footprint = none;
          restored = false;
          extended = false;
          tx_hashes = [];
        })
      ]

      -- What a failed submission of the extension throws.
      abbrev pub extend_failure : Progress net → Thrown → Thrown
      extend_failure p e = elim p.restored [
        | true ↦ soroban (soroban_on_chain_error wake_method (last_hash p.tx_hashes))
        | false ↦ e
      ]

      abbrev pub rethrowing :
          {A : Type 0}
          → (Thrown → Thrown)
          → Action Thrown (Client World) A
          → Action Thrown (Client World) A
      rethrowing f m c = let (r, c') = m c in elim r [ ok a ↦ (ok a, c') | err e ↦ (err (f e), c') ]

      extend_with : Progress net → Transaction → Action Thrown (Client World) (Progress net)
      extend_with p tx = do
        hash ← rethrowing (extend_failure p) (submit_one net wake_method signer tx)
        pure (record p { extended = true; tx_hashes = p.tx_hashes ++ hash ∷ [] })

      extend_by : Footprint → Progress net → Action Thrown (Client World) (Progress net)
      unfolding extend_with
      extend_by footprint p = do
        source ← bare (load_account net owner)
        tx ← bare (computed (sdk.build_extend source footprint start))
        extend_with p tx

      -- The footprint of the extension: the last simulation's, or the preamble's.
      abbrev pub extend_data : Progress net → Option Footprint
      extend_data p = elim (data_of p.sim) [ some d ↦ some d | none ↦ p.extend_footprint ]

      -- Step C
      pub extend_step : Progress net → Action Thrown (Client World) (Progress net)
      unfolding extend_by
      extend_step p = elim (extend_data p) [ none ↦ pure p | some d ↦ extend_by d p ]

      -- "No action needed" is an error.
      pub something_done : Progress net → Action Thrown (Client World) (Progress net)
      something_done p = elim (p.restored || p.extended) [
        | true ↦ pure p
        | false ↦ throw (
            soroban (
              soroban_simulation_error wake_method
                "Vault is already live and has sufficient TTL. No action needed."))
      ]

      -- Steps A to C
      pub wake : Action Thrown (Client World) (Progress net)
      wake = do
        sim ← probe_step
        restored ← restore_step sim
        extended ← extend_step restored
        something_done extended
