-- ===== src/Api/Read/Tests.antt =====
-- A read of the contract on a network that answers the second time.
use stellartimelock_core.Common.{ℕ, zero, suc, ◌+◌, String, true, none, some, []}
use stellartimelock_core.Common.Action.{ok, err}
use stellartimelock_core.Api.Errors.{error}
use stellartimelock_core.Api.Network.{Network, simulated, pending, not_found}
use stellartimelock_core.Api.Invoke.{Client}

-- The world counts the rotations.
abbrev rotating_network : Network
rotating_network = record {
  World = ℕ;
  Account = String;
  Transaction = String;
  ScVal = ℕ;
  Footprint = ℕ;
  Secret = String;
  Signer = String;
  now = λ w. w;
  sleep = λ n w. w;
  current_rpc_url = λ w. "https://rpc";
  fallbacks = λ w. 1;
  is_rpc_transport_error = λ e. true;
  rotate_rpc_url = λ e w. w + 1;
  explorer_for_tx = λ h w. h;
  get_account = λ url k w. (ok k, w);
  simulate_transaction = λ url tx w. elim w [
    | zero ↦ (err (error "timeout"), 0)
    | suc n ↦ (ok (simulated (some 7) none none), suc n)
  ];
  send_transaction = λ url tx w. (ok (record { status = pending; hash = "h" }), w);
  get_transaction = λ url h w. (ok not_found, w);
  build_call = λ a m ps w. ok a;
  assemble = λ tx sim. ok tx;
  load_signing_keypair = λ w. (ok none, w);
  from_secret = λ s. ok s;
  sign = λ tx s. ok tx;
}

abbrev client : Client ℕ
client = record { world = 0; receipts = []; sends = 0; polls = 0; live_signers = 0 }
