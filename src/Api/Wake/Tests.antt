-- ===== src/Api/Wake/Tests.antt =====
-- A wake-up that has to restore, on a network where everything works.
use stellartimelock_core.Common.{
  ℕ, ◌+◌, String, true, false, ltb, if◌then◌else◌, refl, none, some, [], ◌∷◌,
}
use stellartimelock_core.Common.Action.{ok}
use stellartimelock_core.Api.Network.{Network, simulated, pending, success}
use stellartimelock_core.Api.Wake.{Restoring}
use stellartimelock_core.Api.Wake.Finish.{Waker, wake_up_vault}
use stellartimelock_core.Api.Wake.Accounts.{Accounts, wake_up_vault-Accounts}
use stellartimelock_core.Api.Wake.Extended.{Extended, wake_up_vault-Extended}

-- The world counts the milliseconds slept: the entry is live from the third second on.
abbrev sleepy_network : Network
sleepy_network = record {
  World = ℕ;
  Account = String;
  Transaction = String;
  ScVal = ℕ;
  Footprint = ℕ;
  Secret = String;
  Signer = String;
  now = λ w. w;
  sleep = λ n w. n + w;
  current_rpc_url = λ w. "https://rpc";
  fallbacks = λ w. 1;
  is_rpc_transport_error = λ e. true;
  rotate_rpc_url = λ e w. w;
  explorer_for_tx = λ h w. h;
  get_account = λ url k w. (ok k, w);
  simulate_transaction = λ url tx w. (
    ok (if ltb w 3000 then simulated none (some 1) (some 5) else simulated (some 7) (some 2) none),
    w,
  );
  send_transaction = λ url tx w. (ok (record { status = pending; hash = tx }), w);
  get_transaction = λ url h w. (ok (success (some 3) (some 1)), w);
  build_call = λ a m ps w. ok a;
  assemble = λ tx sim. ok tx;
  load_signing_keypair = λ w. (ok (some "S"), w);
  from_secret = λ s. ok s;
  sign = λ tx s. ok tx;
}

abbrev sdk : Restoring sleepy_network
sdk = record {
  vault_params = λ v. ok (1 ∷ []);
  build_restore = λ a f w. ok "restore";
  build_extend = λ a f w. ok "extend";
  read_only_copy = λ f. ok f;
}

abbrev waker : Waker ℕ ℕ
waker = record {
  client = record { world = 0; receipts = []; sends = 0; polls = 0; live_signers = 0 };
  event_cache = some (3, []);
  session = record { frozen = []; sent = []; simulate_path_broken = false; last_synced_at = none };
}

wake_up_vault-Accounts_example :
    Accounts sleepy_network sdk
      (λ v. some v)
      (λ v. none)
      (λ w. w)
      true
      "7"
      "G1"
      waker
      (wake_up_vault sleepy_network sdk (λ v. some v) (λ v. none) (λ w. w) true "7" "G1" waker)
wake_up_vault-Accounts_example =
    wake_up_vault-Accounts sleepy_network sdk (λ v. some v) (λ v. none) (λ w. w) true "7" "G1" waker

wake_up_vault-Extended_example :
    Extended sleepy_network sdk
      (λ v. some v)
      (λ v. none)
      (λ w. w)
      true
      "7"
      "G1"
      (λ f. refl)
      waker
      (wake_up_vault sleepy_network sdk (λ v. some v) (λ v. none) (λ w. w) true "7" "G1" waker)
wake_up_vault-Extended_example =
    wake_up_vault-Extended sleepy_network sdk (λ v. some v) (λ v. none) (λ w. w) true "7" "G1"
      (λ f. refl) waker
