-- ===== src/Api/Session/Frozen.antt =====
-- Which snapshots `pushSnapshotToBackend` of src/api/soroban-client.ts sends.
use stellartimelock_core.Common.{
  String, Bool, true, ◌&&◌, ◌≡◌, refl, List, [], ◌∷◌, ◌++◌, keep, str_eq, str_eq_iff, arith,
  if◌then◌else◌,
}
use mathlib.Core.List.{append-nil, append_assoc}
use stellartimelock_core.Api.Vault.{contains}
use stellartimelock_core.Api.Session.{
  Snapshot, Session, is_withdrawn, frozen_key, push_snapshot_to_backend, push_all,
}

module _ {A : Type 0} where
  -- A report that the vault with this key is withdrawn.
  abbrev pub is_report_of : String → Snapshot A → Bool
  is_report_of key snap = is_withdrawn snap.on_chain_status && str_eq (frozen_key snap) key

  -- The first of the reports, alone.
  abbrev pub first_only : List (Snapshot A) → List (Snapshot A)
  first_only [] = []
  first_only (x ∷ xs) = x ∷ []

  keep-append :
      (p : Snapshot A → Bool) (xs ys : List (Snapshot A))
      → keep p (xs ++ ys) ≡ keep p xs ++ keep p ys
  keep-append p [] ys = refl
  keep-append p (x ∷ xs) ys = ground (arith, keep-append p xs ys)

  -- The reports of withdrawal that are sent for a key, over any sequence of calls: what was sent
  -- before, and then, unless the key is frozen, the first report among the calls and no other.
  pub push_all_reports :
      (key : String) (snaps : List (Snapshot A)) (s : Session A)
      → keep (is_report_of key) (push_all true snaps s).sent
        ≡ keep (is_report_of key) s.sent
          ++ (if contains s.frozen key then [] else first_only (keep (is_report_of key) snaps))
  unfolding push_all push_snapshot_to_backend
  push_all_reports key [] s = ground (arith, append-nil (keep (is_report_of key) s.sent))
  push_all_reports key (snap ∷ snaps) s = ground (
    arith,
    push_all_reports key snaps (push_snapshot_to_backend true snap s),
    str_eq_iff (frozen_key snap) key,
    keep-append (is_report_of key) s.sent (snap ∷ []),
    append-nil (keep (is_report_of key) s.sent),
    append_assoc (keep (is_report_of key) s.sent) (snap ∷ []) [],
    append_assoc (keep (is_report_of key) s.sent) (snap ∷ [])
        (first_only (keep (is_report_of key) snaps)),
  )
