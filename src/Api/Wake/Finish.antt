-- ===== src/Api/Wake/Finish.antt =====
-- What follows a wake-up that succeeded in `wakeUpVault` (src/api/soroban-client.ts): the caches are
-- dropped and a snapshot goes to the backend; and the signer, which is wiped in any case.
use stellartimelock_core.Common.{ℕ, ◌+◌, ◌-◌, String, Bool, Option, none, some, List}
use stellartimelock_core.Common.Action.{Result, ok, err}
use stellartimelock_core.Common.Int.{ℤ}
use stellartimelock_core.Api.Errors.{Thrown, soroban, fault, wallet_not_connected_error}
use stellartimelock_core.Api.Network.{Network, Simulation, failure, simulated}
use stellartimelock_core.Api.Invoke.{Client}
use stellartimelock_core.Api.Events.{ParsedEvent}
use stellartimelock_core.Api.Session.{Session, Snapshot, live, push_snapshot_to_backend}
use stellartimelock_core.Api.Wake.{Restoring, Progress, wake_method, wake}

-- The client, the event cache in memory, and the session.
pub record Waker (W A : Type 0) : Type 0 where
  pub client : Client W
  pub event_cache : Option (ℕ × List (ParsedEvent A))
  pub session : Session A

pub record WakeResult : Type 0 where
  pub restored : Bool
  pub extended : Bool
  pub tx_hashes : List String

abbrev pub retval_of : {V F : Type 0} → Simulation V F → Option V
retval_of (failure e) = none
retval_of (simulated v d p) = v

-- The signer from `Keypair.fromSecret`, until `wipeKeypair`.
abbrev pub hold : {W : Type 0} → Client W → Client W
hold c = record c { live_signers = c.live_signers + 1 }

abbrev pub wiped : {W : Type 0} → Client W → Client W
wiped c = record c { live_signers = c.live_signers - 1 }

-- `balance_of` and `unlock_of` are the numbers that are decoded of a vault, none where they are
-- missing or the decoding throws before; `remove_item` drops the events on disk.
module _ {A : Type 0} (net : Network) (sdk : Restoring net) (balance_of : net.ScVal → Option A)
    (unlock_of : net.ScVal → Option ℤ) (remove_item : net.World → net.World) (backend : Bool)
    (vault_id owner : String) where
  open net use {World, ScVal, Footprint, Secret, Signer, load_signing_keypair, from_secret}

  -- Step D: `invalidateAllCaches`
  unfoldable pub drop_caches : Waker World A → Waker World A
  drop_caches k = record k {
    event_cache = none;
    client = record k.client { world = remove_item k.client.world };
  }

  abbrev if_known : {B : Type 0} → (ScVal → Option B) → Option ScVal → Option B
  if_known f none = none
  if_known f (some v) = f v

  pub woken_snapshot : Simulation ScVal Footprint → Snapshot A
  woken_snapshot sim = record {
    owner = owner;
    vault_id = vault_id;
    balance_xlm = if_known balance_of (retval_of sim);
    unlock_timestamp = if_known unlock_of (retval_of sim);
    snapshot_ledger = none;
    on_chain_status = some live;
  }

  -- Steps D and E
  unfoldable pub report_back :
      Progress net → Waker World A → Result Thrown WakeResult × Waker World A
  unfolding drop_caches woken_snapshot
  report_back p k =
      let dropped = drop_caches k in
      (
        ok (record { restored = p.restored; extended = p.extended; tx_hashes = p.tx_hashes }),
        record dropped {
          session = push_snapshot_to_backend backend (woken_snapshot p.sim) dropped.session;
        },
      )

  -- The end of the `try`, and the `finally` that wipes the signer.
  unfoldable pub conclude :
      Waker World A
      → Result Thrown (Progress net) × Client World
      → Result Thrown WakeResult × Waker World A
  unfolding report_back
  conclude k (err e, c) = (err e, record k { client = wiped c })
  conclude k (ok p, c) =
      let (result, k') = report_back p (record k { client = c }) in
      (result, record k' { client = wiped k'.client })

  unfoldable pub wake_with :
      World → Signer → Waker World A → Result Thrown WakeResult × Waker World A
  unfolding conclude
  wake_with start signer k = conclude k (wake net sdk owner start vault_id signer (hold k.client))

  unfoldable pub wake_unlocked :
      World → Option Secret → Waker World A → Result Thrown WakeResult × Waker World A
  unfolding wake_with
  wake_unlocked start none k = (err (soroban (wallet_not_connected_error wake_method)), k)
  wake_unlocked start (some secret) k = elim (from_secret secret) [
    | err e ↦ (err (fault e), k)
    | ok signer ↦ wake_with start signer k
  ]

  unfoldable pub wake_up_vault : Waker World A → Result Thrown WakeResult × Waker World A
  unfolding wake_unlocked
  wake_up_vault k =
      let (r, w) = load_signing_keypair k.client.world in
      let k' = record k { client = record k.client { world = w } } in
      elim r [ err e ↦ (err (fault e), k') | ok kp ↦ wake_unlocked k.client.world kp k' ]
