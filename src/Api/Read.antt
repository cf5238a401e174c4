-- ===== src/Api/Read.antt =====
-- `invokeRead` of src/api/soroban-client.ts: a call of the contract that is only simulated.
mod Tests
use stellartimelock_core.Common.{ℕ, ◌+◌, ◌≡◌, String, Option, none, some, List, arith}
use stellartimelock_core.Common.Action.{Result, ok, err, Action, pure, throw, ◌>>=◌}
use stellartimelock_core.Api.Errors.{
  Fault, Thrown, soroban, fault, build, simulate, soroban_network_error, soroban_simulation_error,
}
use stellartimelock_core.Api.Failover.{failover}
use stellartimelock_core.Api.Network.{Network, Simulation, failure, simulated}
use stellartimelock_core.Api.Invoke.{Client, catching, on_world, reading, load_account}
use stellartimelock_core.Api.Invoke.Outcome.{Quiet, IsSilent, IsSilent-trans, Quiet-bind}

-- `sim_source` is the account of READ_SIM_SOURCE for the network of the active deployment.
module _ (net : Network) (sim_source : net.World → String) where
  open net use {World, Account, Transaction, ScVal, Footprint, current_rpc_url}

  simulate_anywhere : ℕ → Transaction → Action Fault World (Simulation ScVal Footprint)
  simulate_anywhere total tx =
      failover net.is_rpc_transport_error net.rotate_rpc_url
        (λ w. net.simulate_transaction (current_rpc_url w) tx w) total

  abbrev value_of : String → Simulation ScVal Footprint → Action Thrown (Client World) ScVal
  value_of method (failure e) = throw (soroban (soroban_simulation_error method e))
  value_of method (simulated none d p) =
      throw (soroban (soroban_simulation_error method "Empty simulation result"))
  value_of method (simulated (some v) d p) = pure v

  read_source : String → World → Action Thrown (Client World) Account
  read_source method start =
      catching (soroban_network_error method build) (on_world (load_account net (sim_source start)))

  read_call : String → List ScVal → World → Account → Action Thrown (Client World) Transaction
  read_call method params start source =
      catching (soroban_network_error method build)
        (reading (λ w. net.build_call source method params start))

  -- The rounds of the failover are counted when the call begins.
  read_simulation :
      String → World → Transaction → Action Thrown (Client World) (Simulation ScVal Footprint)
  unfolding simulate_anywhere
  read_simulation method start tx =
      catching (soroban_network_error method simulate)
        (on_world (simulate_anywhere (1 + net.fallbacks start) tx))

  pub invoke_read : String → List ScVal → Action Thrown (Client World) ScVal
  unfolding read_source read_call read_simulation
  invoke_read method params c =
      (do
        source ← read_source method c.world
        tx ← read_call method params c.world source
        sim ← read_simulation method c.world tx
        value_of method sim)
        c

  module _ (method : String) (start : World) (c : Client World) where
    read_source-Quiet : Quiet method 0 c (read_source method start c)
    unfolding read_source soroban_network_error
    read_source-Quiet = ground arith

    read_call-Quiet :
        (params : List ScVal) (source : Account)
        → Quiet method 0 c (read_call method params start source c)
    unfolding read_call soroban_network_error
    read_call-Quiet params source = ground arith

    read_simulation-Quiet :
        (tx : Transaction) → Quiet method 0 c (read_simulation method start tx c)
    unfolding read_simulation soroban_network_error
    read_simulation-Quiet tx = ground arith

    value_of-Quiet : (sim : Simulation ScVal Footprint) → Quiet method 0 c (value_of method sim c)
    unfolding soroban_simulation_error
    value_of-Quiet sim = ground arith

  Quiet-after :
      {B : Type 0} (method : String) (c c' : Client World) (o : Result Thrown B × Client World)
      → IsSilent 0 c c'
      → Quiet method 0 c' o
      → Quiet method 0 c o
  Quiet-after method c c' (ok b, c'') q r = IsSilent-trans q r
  Quiet-after method c c' (err (soroban e), c'') q r = (r.0, IsSilent-trans q r.1)
  Quiet-after method c c' (err (fault e), c'') q r = r

  -- One quiet step after another.
  Quiet-then :
      {A B : Type 0} (method : String) (c : Client World) (m : Action Thrown (Client World) A)
      (f : A → Action Thrown (Client World) B)
      → Quiet method 0 c (m c)
      → ((a : A) (c' : Client World) → Quiet method 0 c' (f a c'))
      → Quiet method 0 c ((m >>= f) c)
  Quiet-then method c m f quiet next =
      Quiet-bind (Quiet method 0 c) method 0 c m f quiet
        (λ a c' q. Quiet-after method c c' (f a c') q (next a c')) (λ e c' same q. (same, q))

  -- A read calls neither `sendTransaction` nor `getTransaction`, emits no receipt and holds no
  -- signer; and it throws nothing but a SorobanError for its method.
  invoke_read-Quiet :
      (method : String) (params : List ScVal) (c : Client World)
      → Quiet method 0 c (invoke_read method params c)
  unfolding invoke_read
  invoke_read-Quiet method params c =
      let w = c.world in
      Quiet-then method c (read_source method w)
        (λ source. read_call method params w source >>= λ tx.
          read_simulation method w tx >>= value_of method)
        (read_source-Quiet method w c)
        (λ source c₁.
          Quiet-then method c₁ (read_call method params w source)
            (λ tx. read_simulation method w tx >>= value_of method)
            (read_call-Quiet method w c₁ params source)
            (λ tx c₂.
              Quiet-then method c₂ (read_simulation method w tx) (value_of method)
                (read_simulation-Quiet method w c₂ tx) (λ sim c₃. value_of-Quiet method w c₃ sim)))
