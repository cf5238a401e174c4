-- ===== src/Api/History/Rows.antt =====
-- The rows of the histories of src/api/soroban-client.ts.
use stellartimelock_core.Common.{
  String, ◌≡◌, ◌⊎◌, refl, sym, Bool, true, false, not, Option, none, some, List, [], ◌∷◌, ◌++◌, map,
  keep, All, All-append, if◌then◌else◌, str_eq_refl, arith,
}
use mathlib.Core.List.{Perm, append-nil}
use mathlib.Core.Path.{subst}
use stellartimelock_core.Common.Int.{leb_ℤ}
use stellartimelock_core.Common.Action.{Result, ok, err}
use stellartimelock_core.Common.Sort.{
  IsSorted, sort_by, sort_by-IsSorted, sort_by-perm, sort_by-All,
}
use stellartimelock_core.Api.Errors.{Thrown}
use stellartimelock_core.Api.Vault.{Platform, RemoteMeta, contains}
use stellartimelock_core.Api.Events.{ParsedEvent, Decoder}
use stellartimelock_core.Api.Events.Fetch.{EventSource, Fetcher, fetch_contract_events}
use stellartimelock_core.Api.History.{
  newer_first, created_ids, archived_row, archived_rows, fetch_archived_create_events, of_vault,
  of_owner, first_owner, vault_rows, vault_transactions, owner_rows, all_transactions,
}

newer_first_total :
    {A : Type 0} (a b : ParsedEvent A) → (newer_first a b ≡ true) ⊎ (newer_first b a ≡ true)
newer_first_total a b = ground arith

newer_first_trans :
    {A : Type 0} (a b c : ParsedEvent A)
    → newer_first a b ≡ true
    → newer_first b c ≡ true
    → newer_first a c ≡ true
newer_first_trans a b c h k = ground arith

keep-All : {A : Type 0} (p : A → Bool) (xs : List A) → All (λ x. p x ≡ true) (keep p xs)
keep-All p [] = tt
keep-All p (x ∷ xs) = ground (arith, keep-All p xs)

All-keep : {A : Type 0} (P : A → Type 0) (p : A → Bool) (xs : List A) → All P xs → All P (keep p xs)
All-keep P p [] h = tt
All-keep P p (x ∷ xs) h = go (p x) (All-keep P p xs h.1)
  where
    go : (b : Bool) → All P (keep p xs) → All P (if b then x ∷ keep p xs else keep p xs)
    go true rest = (h.0, rest)
    go false rest = rest

module _ {A : Type 0} (pf : Platform A) where
  -- The vaults that are reconstructed: those of the records without a create event.
  archived_rows_ids :
      (owner : String) (created : List String) (remotes : List (RemoteMeta A))
      → map (λ e. e.vault_id) (archived_rows pf owner created remotes)
        ≡ keep (λ id. not (contains created id)) (map (λ r. r.vault_id) remotes)
  unfolding archived_rows archived_row
  archived_rows_ids owner created [] = refl
  archived_rows_ids owner created (r ∷ rs) = ground (arith, archived_rows_ids owner created rs)

  archived_rows-new :
      (owner : String) (created : List String) (remotes : List (RemoteMeta A))
      → All (λ e. contains created e.vault_id ≡ false) (archived_rows pf owner created remotes)
  unfolding archived_rows archived_row
  archived_rows-new owner created [] = tt
  archived_rows-new owner created (r ∷ rs) = ground (arith, archived_rows-new owner created rs)

  archived_rows-owner :
      (owner : String) (created : List String) (remotes : List (RemoteMeta A))
      → All (λ e. of_owner pf owner e ≡ true) (archived_rows pf owner created remotes)
  unfolding archived_rows archived_row
  archived_rows-owner owner created [] = tt
  archived_rows-owner owner created (r ∷ rs) =
      ground (arith, archived_rows-owner owner created rs, str_eq_refl owner)

  old_rows-owner :
      (owner : String) (all : List (ParsedEvent A)) (remotes : Option (List (RemoteMeta A)))
      → All (λ e. of_owner pf owner e ≡ true) (fetch_archived_create_events pf owner all remotes)
  unfolding fetch_archived_create_events
  old_rows-owner owner all none = tt
  old_rows-owner owner all (some remotes) = archived_rows-owner owner (created_ids pf all) remotes

  module _ {W ScVal Native : Type 0} (dec : Decoder ScVal Native) (src : EventSource W ScVal A)
      (get_metas : String → W → Option (List (RemoteMeta A)) × W) where
    -- A history of these rows: the newest first, each row once, and all of them with a property.
    abbrev pub IsHistory :
        (ParsedEvent A → Bool)
        → Result Thrown (List (ParsedEvent A)) × Fetcher W A
        → Result Thrown (List (ParsedEvent A)) × Fetcher W A
        → Type 0
    IsHistory p (err e, f) fetched = fetched ≡ (err e, f)
    IsHistory p (ok rows, f) (err e, g) = ⊥
    IsHistory p (ok rows, f) (ok all, g) =
        IsSorted (λ a b. leb_ℤ b.timestamp a.timestamp) rows
        × All (λ e. p e ≡ true) rows
        × ((old : List (ParsedEvent A)) × Perm rows (keep p all ++ old)
            × All (λ e. contains (created_ids pf all) e.vault_id ≡ false) old)

    -- The rows before they are sorted.
    abbrev AreRows : (ParsedEvent A → Bool) → List (ParsedEvent A) → List (ParsedEvent A) → Type 0
    AreRows p all rows =
        All (λ e. p e ≡ true) rows
        × ((old : List (ParsedEvent A)) × (rows ≡ keep p all ++ old)
            × All (λ e. contains (created_ids pf all) e.vault_id ≡ false) old)

    sorted-IsHistory :
        (p : ParsedEvent A → Bool) (all rows : List (ParsedEvent A)) (f g : Fetcher W A)
        → AreRows p all rows
        → IsHistory p (ok (sort_by newer_first rows), f) (ok all, g)
    sorted-IsHistory p all rows f g (every, (old, same, new)) = (
      sort_by-IsSorted newer_first newer_first_total newer_first_trans rows,
      sort_by-All newer_first (λ e. p e ≡ true) rows every,
      (old, subst (Perm (sort_by newer_first rows)) same (sort_by-perm newer_first rows), new),
    )

    old_rows-new :
        (owner : String) (all : List (ParsedEvent A)) (remotes : Option (List (RemoteMeta A)))
        → All
            (λ e. contains (created_ids pf all) e.vault_id ≡ false)
            (fetch_archived_create_events pf owner all remotes)
    unfolding fetch_archived_create_events
    old_rows-new owner all none = tt
    old_rows-new owner all (some remotes) = archived_rows-new owner (created_ids pf all) remotes

    vault_rows-AreRows :
        (id : String) (all : List (ParsedEvent A)) (f : Fetcher W A)
        → AreRows (of_vault pf id) all (vault_rows pf dec src get_metas id all f).0
    unfolding vault_rows
    vault_rows-AreRows id all f = go (first_owner pf (keep (of_vault pf id) all))
      where
        go :
            (o : Option String)
            → AreRows
                (of_vault pf id)
                all
                (elim o as (λ x. List (ParsedEvent A) × Fetcher W A) [
                  | none ↦ (keep (of_vault pf id) all, f)
                  | some owner ↦
                      let (remotes, w) = get_metas owner f.world in
                      (
                        keep (of_vault pf id) all
                            ++ keep
                                (of_vault pf id)
                                (fetch_archived_create_events pf owner all remotes),
                        record f { world = w },
                      )
                ]).0
        go none =
            (keep-All (of_vault pf id) all, ([], sym (append-nil (keep (of_vault pf id) all)), tt))
        go (some owner) =
            let old = fetch_archived_create_events pf owner all (get_metas owner f.world).0 in
            (
              All-append (λ e. of_vault pf id e ≡ true) (keep (of_vault pf id) all)
                  (keep (of_vault pf id) old) (keep-All (of_vault pf id) all)
                  (keep-All (of_vault pf id) old),
              (
                keep (of_vault pf id) old,
                refl,
                All-keep (λ e. contains (created_ids pf all) e.vault_id ≡ false) (of_vault pf id)
                    old (old_rows-new owner all (get_metas owner f.world).0),
              ),
            )

    owner_rows-AreRows :
        (owner : String) (all : List (ParsedEvent A)) (f : Fetcher W A)
        → AreRows (of_owner pf owner) all (owner_rows pf dec src get_metas owner all f).0
    unfolding owner_rows
    owner_rows-AreRows owner all f =
        let (remotes, w) = get_metas owner f.world in
        let old = fetch_archived_create_events pf owner all remotes in
        (
          All-append (λ e. of_owner pf owner e ≡ true) (keep (of_owner pf owner) all) old
              (keep-All (of_owner pf owner) all) (old_rows-owner owner all remotes),
          (old, refl, old_rows-new owner all remotes),
        )

    -- The transactions of a vault that are listed are in order, the newest first, all of the vault:
    -- the vault's events, and rows for vaults that no event shows the creation of.
    vault_transactions-IsHistory :
        (id : String) (f : Fetcher W A)
        → IsHistory
            (of_vault pf id)
            (vault_transactions pf dec src get_metas id f)
            (fetch_contract_events pf dec src f)
    unfolding vault_transactions
    vault_transactions-IsHistory id f = go (fetch_contract_events pf dec src f)
      where
        go :
            (o : Result Thrown (List (ParsedEvent A)) × Fetcher W A)
            → IsHistory
                (of_vault pf id)
                (elim o.0 as (λ x. Result Thrown (List (ParsedEvent A)) × Fetcher W A) [
                  | err e ↦ (err e, o.1)
                  | ok all ↦
                      let (rows, f'') = vault_rows pf dec src get_metas id all o.1 in
                      (ok (sort_by newer_first rows), f'')
                ])
                o
        go (err e, g) = refl
        go (ok all, g) =
            let (rows, h) = vault_rows pf dec src get_metas id all g in
            sorted-IsHistory (of_vault pf id) all rows h g (vault_rows-AreRows id all g)

    -- The same of all transactions of an owner.
    all_transactions-IsHistory :
        (owner : String) (f : Fetcher W A)
        → IsHistory
            (of_owner pf owner)
            (all_transactions pf dec src get_metas owner f)
            (fetch_contract_events pf dec src f)
    unfolding all_transactions
    all_transactions-IsHistory owner f = go (fetch_contract_events pf dec src f)
      where
        go :
            (o : Result Thrown (List (ParsedEvent A)) × Fetcher W A)
            → IsHistory
                (of_owner pf owner)
                (elim o.0 as (λ x. Result Thrown (List (ParsedEvent A)) × Fetcher W A) [
                  | err e ↦ (err e, o.1)
                  | ok all ↦
                      let (rows, f'') = owner_rows pf dec src get_metas owner all o.1 in
                      (ok (sort_by newer_first rows), f'')
                ])
                o
        go (err e, g) = refl
        go (ok all, g) =
            let (rows, h) = owner_rows pf dec src get_metas owner all g in
            sorted-IsHistory (of_owner pf owner) all rows h g (owner_rows-AreRows owner all g)

    -- The transactions of a vault, and those of an owner, are listed with the newest first, and are
    -- all of the vault or the owner: its events, each once, and rows only for vaults that no event
    -- shows the creation of. If the events cannot be fetched the error is passed on.
    pub histories-AreHistories :
        (id owner : String) (f : Fetcher W A)
        → IsHistory
            (of_vault pf id)
            (vault_transactions pf dec src get_metas id f)
            (fetch_contract_events pf dec src f)
          × IsHistory
              (of_owner pf owner)
              (all_transactions pf dec src get_metas owner f)
              (fetch_contract_events pf dec src f)
    histories-AreHistories id owner f =
        (vault_transactions-IsHistory id f, all_transactions-IsHistory owner f)
