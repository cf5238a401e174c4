-- ===== src/Api/Tests/Listed.antt =====
-- Runs of `listVaults`, `summary` and `getVault` of src/api/soroban-client.ts on concrete answers.
use stellartimelock_core.Common.{
  ℕ, String, true, false, ◌≡◌, ◌≢◌, refl, none, some, List, [], ◌∷◌, ◌++◌, keep, map, All, arith,
  str_eq_iff,
}
use mathlib.Core.List.{Perm}
use stellartimelock_core.Common.Action.{ok, err}
use stellartimelock_core.Common.Int.{pos}
use stellartimelock_core.Api.Errors.{Fault, error}
use stellartimelock_core.Api.Vault.{Vault, RemoteMeta, empty_meta, contains}
use stellartimelock_core.Api.Events.{create, withdraw}
use stellartimelock_core.Api.Session.{Snapshot, Session, SnapshotStatus, push_all}
use stellartimelock_core.Api.Session.Frozen.{is_report_of, push_all_reports}
use stellartimelock_core.Api.Listing.{Sources, list_vaults}
use stellartimelock_core.Api.Listing.Order.{IsInOrder, live_rows, overlay_rows, list_vaults_order}
use stellartimelock_core.Api.Listing.Trusted.{IsTrusted, list_vaults-IsTrusted}
use stellartimelock_core.Api.Single.{Answers, by_events, get_vault}
use stellartimelock_core.Api.Single.Reach.{get_vault_of_record}
use stellartimelock_core.Api.Tests.{stroops, day, meta, vault, event}

abbrev report : String → Snapshot ℕ
report id = record {
  owner = "G1";
  vault_id = id;
  balance_xlm = some 0;
  unlock_timestamp = some (pos 1);
  snapshot_ledger = none;
  on_chain_status = some SnapshotStatus.withdrawn;
}

abbrev fresh : Session ℕ
fresh = record { simulate_path_broken = false; last_synced_at = none; frozen = []; sent = [] }

push_all_reports_example :
    keep
      (is_report_of "G1::1")
      (push_all true (report "1" ∷ report "2" ∷ report "1" ∷ []) fresh).sent
    ≡ report "1" ∷ []
push_all_reports_example =
    push_all_reports "G1::1" (report "1" ∷ report "2" ∷ report "1" ∷ []) fresh

-- The simulation fails to decode, and the events tell of two vaults.
abbrev sources : Sources ℕ
sources = record {
  cached = [];
  metas = meta "3" (some "archived") none none ∷ [];
  simulation = err (error "invalid checksum");
  events =
      ok (event "1" create (pos 1) ∷ event "2" create (pos 2) ∷ event "1" withdraw (pos 3) ∷ []);
  local_meta = λ id. empty_meta;
}

abbrev newest : List (Vault ℕ) → List (Vault ℕ) → List (Vault ℕ)
newest cached rows = rows

list_vaults_order_example :
    let listed = (list_vaults stroops newest day true "G1" 1000 sources fresh).0.vaults in
    let live = live_rows stroops newest day true "G1" 1000 sources fresh in
    IsInOrder listed
    × Perm listed (live ++ overlay_rows stroops newest day true "G1" 1000 sources live)
    × All
        (λ v. contains (map (λ w. w.vault_id) live) v.vault_id ≡ false)
        (overlay_rows stroops newest day true "G1" 1000 sources live)
list_vaults_order_example = list_vaults_order stroops newest day true "G1" 1000 sources fresh

list_vaults-IsTrusted_example :
    All
      (IsTrusted sources.metas)
      (list_vaults stroops newest day true "G1" 1000 sources fresh).0.vaults
list_vaults-IsTrusted_example =
    list_vaults-IsTrusted stroops newest day true "G1" 1000 sources fresh

abbrev unreachable : Fault
unreachable = error "network"

abbrev known_records : List (RemoteMeta ℕ)
known_records = meta "1" (some "live") (some 50) (some (pos 9000)) ∷ meta "2" none none none ∷ []

-- Nothing answers but the backend.
abbrev backend_only : Answers ℕ
backend_only = record {
  simulation = err unreachable;
  events = err unreachable;
  aggregated = λ o. err unreachable;
  cached = λ o. err unreachable;
  remotes = λ o. some known_records;
}

get_vault_of_record_example :
    (v : Vault ℕ) × ((get_vault stroops (pos 2000) "2" (some "G1") backend_only fresh).0.0 ≡ ok v)
unfolding by_events
get_vault_of_record_example =
    get_vault_of_record stroops (pos 2000) "2" "G1" (some "G1") backend_only fresh known_records
      refl refl refl

owner_is_given : ◌≢◌ {A = String} "G1" ""
owner_is_given = ground (arith, str_eq_iff "G1" "")

-- The events tell of the vault.
abbrev by_stream : Answers ℕ
by_stream = record backend_only {
  events = ok (event "2" create (pos 1) ∷ []);
  aggregated = λ o. ok (vault "1" (pos 9) ∷ vault "2" (pos 9) ∷ []);
}
