-- ===== src/Api/Tests/Write.antt =====
-- A failing and a working network for the write pipeline of src/api/soroban-client.ts, and raw
-- simulation errors.
use stellartimelock_core.Common.{ℕ, suc, ◌+◌, ltb, if◌then◌else◌, String, true, none, some, [], ◌∷◌}
use stellartimelock_core.Common.Action.{ok, err, Action}
use stellartimelock_core.Api.Errors.{Fault, error}
use stellartimelock_core.Api.Failover.{failover, Tries, failover-Tries}
use stellartimelock_core.Api.Network.{Network, simulated, pending, success, not_found}
use stellartimelock_core.Api.Invoke.{Client, invoke_contract}
use stellartimelock_core.Api.Invoke.Ends.{Ends, invoke_contract-Ends}

-- A transaction is found at its third poll; the world counts the milliseconds slept.
abbrev slow_network : Network
slow_network = record {
  World = ℕ;
  Account = String;
  Transaction = String;
  ScVal = ℕ;
  Footprint = ℕ;
  Secret = String;
  Signer = String;
  now = λ w. w;
  sleep = λ n w. n + w;
  current_rpc_url = λ w. "https://rpc";
  fallbacks = λ w. 1;
  is_rpc_transport_error = λ e. true;
  rotate_rpc_url = λ e w. w;
  explorer_for_tx = λ h w. h;
  get_account = λ url k w. (ok k, w);
  simulate_transaction = λ url tx w. (ok (simulated (some 1) none none), w);
  send_transaction = λ url tx w. (ok (record { status = pending; hash = "h" }), w);
  get_transaction =
      λ url h w. (ok (if ltb w 4500 then not_found else success (some 3) (some 1)), w);
  build_call = λ a m ps w. ok a;
  assemble = λ tx sim. ok tx;
  load_signing_keypair = λ w. (ok (some "S"), w);
  from_secret = λ s. ok s;
  sign = λ tx s. ok tx;
}

abbrev client : Client ℕ
client = record { world = 0; receipts = []; sends = 0; polls = 0; live_signers = 0 }

invoke_contract-Ends_example :
    Ends slow_network "deposit" client (invoke_contract slow_network "G1" "deposit" (1 ∷ []) client)
invoke_contract-Ends_example = invoke_contract-Ends slow_network "G1" "deposit" (1 ∷ []) client

-- An endpoint that works after one rotation.
abbrev second_endpoint : Action Fault ℕ ℕ
second_endpoint ℕ.zero = (err (error "timeout"), 0)
second_endpoint (ℕ.suc s) = (ok 7, suc s)

failover-Tries_example :
    let (r, t) = failover (λ e. true) (λ e s. suc s) second_endpoint 3 0 in
    Tries (λ e. true) (λ e s. suc s) second_endpoint 2 0 r t
failover-Tries_example = failover-Tries (λ e. true) (λ e s. suc s) second_endpoint 2 0

abbrev raw_error : String
raw_error = "HostError: Error(Contract, #2) more"
