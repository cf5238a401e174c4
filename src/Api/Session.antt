-- ===== src/Api/Session.antt =====
-- The module state of src/api/soroban-client.ts that lasts for a session: the flag that turns the
-- simulate path off, the time of the last sync, and the vaults whose withdrawal was reported to the
-- backend (`pushSnapshotToBackend`).
pub mod Frozen
use Prim.Native.String.{◌++◌}
use stellartimelock_core.Common.{
  ℕ, ◌≡◌, refl, arith, String, Bool, true, false, ◌&&◌, ◌||◌, Option, none, some, List, [], ◌∷◌,
  map, is_some, leb, ◌==◌, if◌then◌else◌,
}
use mathlib.Core.List as List
use stellartimelock_core.Common.Int.{ℤ}
use stellartimelock_core.Common.Text.{codes, strip, includes, lower, is_digit}
use stellartimelock_core.Api.Errors.{Fault, detail}
use stellartimelock_core.Api.Vault.{contains}

-- `\w` on a lowered text
abbrev is_word : ℕ → Bool
is_word c = is_digit c || (leb b'a' c && leb c b'z') || c == b'_' || (leb b'A' c && leb c b'Z')

-- \w* and then " of undefined" or " of null"
after_word : List ℕ → Bool
unfolding strip
after_word [] = false
after_word (c ∷ s) =
    let more = after_word s in
    if is_word c
    then more
    else is_some (strip (codes " of undefined") (c ∷ s))
      || is_some (strip (codes " of null") (c ∷ s))

-- \w+ and then the same
abbrev after_prop : List ℕ → Bool
after_prop [] = false
after_prop (c ∷ s) = is_word c && after_word s

-- /cannot read prop\w+ of (?:undefined|null)/
reads_property : List ℕ → Bool
unfolding strip after_word
reads_property [] = false
reads_property (c ∷ s) =
    let later = reads_property s in
    elim (strip (codes "cannot read prop") (c ∷ s)) [
      | none ↦ later
      | some rest ↦ after_prop rest || later
    ]

unfoldable pub is_xdr_parse_error : Fault → Bool
unfolding lower includes reads_property
is_xdr_parse_error e =
    let lc = map lower (codes (detail e)) in
    includes lc (codes "invalid checksum")
    || includes lc (codes "scvaltonative")
    || includes lc (codes "bad union switch")
    || includes lc (codes "bad value")
    || includes lc (codes "xdr")
    || includes lc (codes "buffer is not")
    || includes lc (codes "textencoder")
    || includes lc (codes "textdecoder")
    || reads_property lc

pub data SnapshotStatus : Type 0 where
  live archived withdrawn unknown : SnapshotStatus

-- A snapshot for the backend; a field that is left out is `none`.
pub record Snapshot (A : Type 0) : Type 0 where
  pub owner : String
  pub vault_id : String
  pub balance_xlm : Option A
  pub unlock_timestamp : Option ℤ
  pub snapshot_ledger : Option ℕ
  pub on_chain_status : Option SnapshotStatus

-- `frozen` is `_frozenSnapshots`; `sent` are the PATCH requests made, in order.
pub record Session (A : Type 0) : Type 0 where
  pub simulate_path_broken : Bool
  pub last_synced_at : Option ℕ
  pub frozen : List String
  pub sent : List (Snapshot A)

abbrev pub is_withdrawn : Option SnapshotStatus → Bool
is_withdrawn (some withdrawn) = true
is_withdrawn _ = false

abbrev pub frozen_key : {A : Type 0} → Snapshot A → String
frozen_key snap = snap.owner ++ "::" ++ snap.vault_id

module _ {A : Type 0} where
  unfoldable pub mark_simulate_broken : Session A → Session A
  mark_simulate_broken s = record s { simulate_path_broken = true }

  abbrev pub send_patch : Snapshot A → Session A → Session A
  send_patch snap s = record s { sent = List.◌++◌ s.sent (snap ∷ []) }

  -- `backend` says that BACKEND_URL is set.
  unfoldable pub push_snapshot_to_backend : Bool → Snapshot A → Session A → Session A
  push_snapshot_to_backend false snap s = s
  push_snapshot_to_backend true snap s =
      if is_withdrawn snap.on_chain_status
      then if contains s.frozen (frozen_key snap)
        then s
        else send_patch snap (record s { frozen = frozen_key snap ∷ s.frozen })
      else send_patch snap s

  -- Several calls, in order
  unfoldable pub push_all : Bool → List (Snapshot A) → Session A → Session A
  push_all backend [] s = s
  push_all backend (snap ∷ snaps) s =
      push_all backend snaps (push_snapshot_to_backend backend snap s)

  -- The pushes leave the flag of the simulate path alone.
  pub push_all-simulate_path :
      (backend : Bool) (snaps : List (Snapshot A)) (s : Session A)
      → (push_all backend snaps s).simulate_path_broken ≡ s.simulate_path_broken
  unfolding push_all push_snapshot_to_backend
  push_all-simulate_path backend [] s = refl
  push_all-simulate_path false (snap ∷ snaps) s = push_all-simulate_path false snaps s
  push_all-simulate_path true (snap ∷ snaps) s =
      ground (arith, push_all-simulate_path true snaps (push_snapshot_to_backend true snap s))
