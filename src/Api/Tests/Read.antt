-- ===== src/Api/Tests/Read.antt =====
-- Records of the backend, rows and events for the read path of src/api/soroban-client.ts.
use stellartimelock_core.Common.{ℕ, false, ◌≡◌, refl, none, some, List, [], ◌∷◌, map, All}
use stellartimelock_core.Common.Dict.{lookup}
use stellartimelock_core.Common.Int.{pos}
use stellartimelock_core.Api.Vault.{RemoteMeta}
use stellartimelock_core.Api.Vault.Overlay.{build_archived_overlay}
use stellartimelock_core.Api.Vault.Overlay.Rows.{IsTerminal, build_archived_overlay_rows}
use stellartimelock_core.Api.Events.{create, withdraw, ParsedEvent}
use stellartimelock_core.Api.Events.Replay.{Accum, replay}
use stellartimelock_core.Api.Events.Replay.History.{history, replay-history}
use stellartimelock_core.Api.Tests.{stroops, day, meta, event}

abbrev records : List (RemoteMeta ℕ)
records = meta "1" (some "live") (some 50) none ∷ meta "2" (some "withdrawn") none none ∷ []

build_archived_overlay_rows_example :
    let (rows, dismissed) = build_archived_overlay stroops "G1" (pos 2000) records ("2" ∷ []) in
    (map (λ v. v.vault_id) rows ≡ "1" ∷ [])
    × All (IsTerminal stroops "G1" (pos 2000)) rows
    × (dismissed ≡ "1" ∷ [])
build_archived_overlay_rows_example =
    build_archived_overlay_rows stroops "G1" (pos 2000) records ("2" ∷ [])

abbrev stream : List (ParsedEvent ℕ)
stream = event "1" create (pos 1) ∷ event "2" create (pos 2) ∷ event "1" withdraw (pos 3) ∷ []

replay-history_example :
    lookup "1" (replay stroops day stream [])
    ≡ history stroops day none (event "1" create (pos 1) ∷ event "1" withdraw (pos 3) ∷ [])
unfolding lookup
replay-history_example = replay-history stroops day "1" stream []

abbrev seen : Accum ℕ
seen = record {
  vault_id = "1";
  balance_xlm = 5;
  unlock_timestamp = pos 900;
  created_timestamp = pos 1;
  withdrawn = false;
}

seen_is_stored : lookup "1" (("1", seen) ∷ []) ≡ some seen
unfolding lookup
seen_is_stored = refl
