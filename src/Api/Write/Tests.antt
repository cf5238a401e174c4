-- ===== src/Api/Write/Tests.antt =====
-- Writes on a network where everything works.
use stellartimelock_core.Common.{ℕ, ◌+◌, String, true, false, none, some, [], ◌∷◌}
use stellartimelock_core.Common.Action.{ok, err}
use stellartimelock_core.Common.Int.{pos}
use stellartimelock_core.Api.Errors.{error}
use stellartimelock_core.Api.Network.{Network, simulated, pending, success}
use stellartimelock_core.Api.Vault.{Platform}
use stellartimelock_core.Api.Write.{
  CreateVaultInput, Encoding, Writer, create_vault, deposit, extend_lock, withdraw,
}
use stellartimelock_core.Api.Write.Confirmed.{IsConfirmed, writes-AreConfirmed}

abbrev quick_network : Network
quick_network = record {
  World = ℕ;
  Account = String;
  Transaction = String;
  ScVal = ℕ;
  Footprint = ℕ;
  Secret = String;
  Signer = String;
  now = λ w. w;
  sleep = λ n w. n + w;
  current_rpc_url = λ w. "https://rpc";
  fallbacks = λ w. 0;
  is_rpc_transport_error = λ e. true;
  rotate_rpc_url = λ e w. w;
  explorer_for_tx = λ h w. h;
  get_account = λ url k w. (ok k, w);
  simulate_transaction = λ url tx w. (ok (simulated (some 7) none none), w);
  send_transaction = λ url tx w. (ok (record { status = pending; hash = "h" }), w);
  get_transaction = λ url h w. (ok (success (some 3) (some 7)), w);
  build_call = λ a m ps w. ok a;
  assemble = λ tx sim. ok tx;
  load_signing_keypair = λ w. (ok (some "S"), w);
  from_secret = λ s. ok s;
  sign = λ tx s. ok tx;
}

abbrev stroops : Platform ℕ
stroops = record {
  zero_xlm = 0;
  add = λ a b. a + b;
  is_positive = λ a. true;
  of_stroops = λ n. 5;
  date_parse = λ s. none;
}

abbrev encoding : Encoding quick_network ℕ
encoding = record {
  create_params = λ input. ok (1 ∷ []);
  deposit_params = λ id owner amount. ok (amount ∷ []);
  extend_params = λ id owner seconds. ok (seconds ∷ []);
  withdraw_params = λ id owner. ok [];
  id_of = λ v. ok "7";
  answers = λ id w. (
    record {
      simulation = err (error "timeout");
      events = err (error "timeout");
      aggregated = λ o. ok [];
      cached = λ o. ok [];
      remotes = λ o. none;
    },
    w,
  );
  now_sec = λ w. pos 5;
}

abbrev input : CreateVaultInput ℕ
input = record {
  owner_public_key = "G1";
  name = "Rent";
  description = "";
  template = "custom";
  target_amount = none;
  initial_deposit = 5;
  unlock_timestamp = 9;
}

abbrev writer : Writer ℕ ℕ
writer = record {
  client = record { world = 0; receipts = []; sends = 0; polls = 0; live_signers = 0 };
  metas = record { local = []; mirrored = [] };
  session = record { simulate_path_broken = false; last_synced_at = none; frozen = []; sent = [] };
  dismissed = [];
}

writes-AreConfirmed_example :
    IsConfirmed "create_vault" writer
      (create_vault quick_network encoding stroops true input writer)
    × IsConfirmed "deposit" writer (deposit quick_network encoding stroops true "7" "G1" 5 writer)
    × IsConfirmed "extend_lock" writer
        (extend_lock quick_network encoding stroops true "7" "G1" 60 writer)
    × IsConfirmed "withdraw" writer (withdraw quick_network encoding stroops true "7" "G1" writer)
writes-AreConfirmed_example =
    writes-AreConfirmed quick_network encoding stroops true writer input "7" "G1" 5 60
