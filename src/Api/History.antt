-- ===== src/Api/History.antt =====
-- The histories of src/api/soroban-client.ts: `fetchArchivedCreateEvents`, `vaultTransactions` and
-- `allTransactions`, over the events that `fetchContractEvents` gives.
pub mod Rows
mod Tests
use Prim.Native.String.{◌++◌ as concat}
use stellartimelock_core.Common.{
  ℕ, String, Bool, true, false, ◌&&◌, Option, none, some, List, [], ◌∷◌, ◌++◌, or_else, keep,
  if◌then◌else◌, str_eq,
}
use stellartimelock_core.Common.Action.{Result, ok, err}
use stellartimelock_core.Common.Int.{ℤ, leb_ℤ}
use stellartimelock_core.Common.Text.{codes, is_space}
use stellartimelock_core.Common.Sort.{sort_by}
use stellartimelock_core.Api.Errors.{Thrown}
use stellartimelock_core.Api.Vault.{Platform, RemoteMeta, parse_iso_to_unix, first_some, contains}
use stellartimelock_core.Api.Events.{ParsedEvent, EventKind, create, Decoder}
use stellartimelock_core.Api.Events.Fetch.{EventSource, Fetcher, fetch_contract_events}

abbrev pub is_create : EventKind → Bool
is_create create = true
is_create _ = false

-- The comparator `b.timestamp - a.timestamp` gives zero or less.
abbrev pub newer_first : {A : Type 0} → ParsedEvent A → ParsedEvent A → Bool
newer_first a b = leb_ℤ b.timestamp a.timestamp

abbrev all_blank : List ℕ → Bool
all_blank [] = true
all_blank (c ∷ s) = is_space c && all_blank s

-- r.name?.trim() ? `${r.name} · …` : …
abbrev pub note_of : Option String → String
note_of none = "Reconstructed from backend metadata (on-chain event archived)"
note_of (some name) =
    if all_blank (codes name)
    then "Reconstructed from backend metadata (on-chain event archived)"
    else concat name " · reconstructed from backend metadata"

module _ {A : Type 0} (pf : Platform A) where
  -- `liveCreatedIds`
  abbrev pub created_ids : List (ParsedEvent A) → List String
  created_ids [] = []
  created_ids (e ∷ es) =
      let rest = created_ids es in if is_create e.kind then e.vault_id ∷ rest else rest

  unfoldable pub archived_row : String → RemoteMeta A → ParsedEvent A
  archived_row owner r =
      let at = first_some r.created_at r.updated_at in
      record {
        tx_id = concat "meta:" r.vault_id;
        vault_id = r.vault_id;
        owner_public_key = owner;
        kind = create;
        amount = pf.zero_xlm;
        note = note_of r.name;
        timestamp = parse_iso_to_unix pf at;
        created_at = or_else at "1970-01-01T00:00:00.000Z";
      }

  unfoldable pub archived_rows : String → List String → List (RemoteMeta A) → List (ParsedEvent A)
  unfolding archived_row
  archived_rows owner created [] = []
  archived_rows owner created (r ∷ rs) =
      let rest = archived_rows owner created rs in
      if contains created r.vault_id then rest else archived_row owner r ∷ rest

  -- The records of the backend are none where the request threw, was not ok or did not decode, or
  -- where there is no backend.
  unfoldable pub fetch_archived_create_events :
      String → List (ParsedEvent A) → Option (List (RemoteMeta A)) → List (ParsedEvent A)
  unfolding archived_rows
  fetch_archived_create_events owner live_events none = []
  fetch_archived_create_events owner live_events (some remotes) =
      archived_rows owner (created_ids live_events) remotes

  abbrev pub of_vault : String → ParsedEvent A → Bool
  of_vault id e = str_eq e.vault_id id

  abbrev pub of_owner : String → ParsedEvent A → Bool
  of_owner owner e = str_eq e.owner_public_key owner

  -- `live[0]?.owner_public_key`, if it is not empty
  abbrev pub first_owner : List (ParsedEvent A) → Option String
  first_owner [] = none
  first_owner (e ∷ es) = if str_eq e.owner_public_key "" then none else some e.owner_public_key

  module _ {W ScVal Native : Type 0} (dec : Decoder ScVal Native) (src : EventSource W ScVal A)
      (get_metas : String → W → Option (List (RemoteMeta A)) × W) where
    -- The rows of a vault, of the events and of the backend's records.
    unfoldable pub vault_rows :
        String → List (ParsedEvent A) → Fetcher W A → List (ParsedEvent A) × Fetcher W A
    unfolding fetch_archived_create_events
    vault_rows id all f =
        let live = keep (of_vault id) all in
        elim (first_owner live) [
          | none ↦ (live, f)
          | some owner ↦
              let (remotes, w) = get_metas owner f.world in
              (
                live ++ keep (of_vault id) (fetch_archived_create_events owner all remotes),
                record f { world = w },
              )
        ]

    unfoldable pub vault_transactions :
        String → Fetcher W A → Result Thrown (List (ParsedEvent A)) × Fetcher W A
    unfolding vault_rows
    vault_transactions id f =
        let (r, f') = fetch_contract_events pf dec src f in
        elim r [
          | err e ↦ (err e, f')
          | ok all ↦ let (rows, f'') = vault_rows id all f' in (ok (sort_by newer_first rows), f'')
        ]

    unfoldable pub owner_rows :
        String → List (ParsedEvent A) → Fetcher W A → List (ParsedEvent A) × Fetcher W A
    unfolding fetch_archived_create_events
    owner_rows owner all f =
        let (remotes, w) = get_metas owner f.world in
        (
          keep (of_owner owner) all ++ fetch_archived_create_events owner all remotes,
          record f { world = w },
        )

    unfoldable pub all_transactions :
        String → Fetcher W A → Result Thrown (List (ParsedEvent A)) × Fetcher W A
    unfolding owner_rows
    all_transactions owner f =
        let (r, f') = fetch_contract_events pf dec src f in
        elim r [
          | err e ↦ (err e, f')
          | ok all ↦
              let (rows, f'') = owner_rows owner all f' in (ok (sort_by newer_first rows), f'')
        ]
