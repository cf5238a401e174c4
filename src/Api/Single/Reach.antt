-- ===== src/Api/Single/Reach.antt =====
-- Whom `getVault` of src/api/soroban-client.ts finds, and what it does to the backend's records.
use stellartimelock_core.Common.{
  String, Bool, true, false, not, ◌≡◌, ◌≢◌, ◌⊎◌, inl, inr, refl, ap, ◌∙◌, Bool-cases, Option, some,
  List, [], ◌∷◌, map, keep, find, All, str_eq, str_eq_iff, is_some, arith,
}
use stellartimelock_core.Common.Action.{Result, ok, err, Result-cases}
use stellartimelock_core.Common.Int.{ℤ}
use stellartimelock_core.Api.Errors.{Fault}
use stellartimelock_core.Api.Vault.{
  Platform, Vault, withdrawn, archived, RemoteMeta, is_text, contains,
}
use stellartimelock_core.Api.Vault.Overlay.Rows.{is_stale, build_archived_overlay_rows, IsTerminal}
use stellartimelock_core.Api.Vault.Overlay.{build_archived_overlay}
use stellartimelock_core.Api.Session.{Session}
use stellartimelock_core.Api.Single.{
  Answers, simulate_one, by_events, by_cache, truthy, by_remotes, remote_rows, last_step, fall_back,
  get_vault,
}

abbrev is_ok : {E A : Type 0} → Result E A → Bool
is_ok (ok a) = true
is_ok (err e) = false

module _ {A : Type 0} where
  abbrev pub has_id : String → Vault A → Bool
  has_id id v = str_eq v.vault_id id

  find-has_id :
      (id : String) (vs : List (Vault A)) (v : Vault A)
      → find (has_id id) vs ≡ some v
      → v.vault_id ≡ id
  find-has_id id [] v h = ground arith
  find-has_id id (x ∷ vs) v h = ground (arith, find-has_id id vs v, str_eq_iff x.vault_id id)

  find-ids :
      (id : String) (vs : List (Vault A))
      → is_some (find (has_id id) vs) ≡ contains (map (λ v. v.vault_id) vs) id
  find-ids id [] = refl
  find-ids id (x ∷ vs) = ground (arith, find-ids id vs)

  keep_all : (rs : List (RemoteMeta A)) → keep (λ r. not (contains [] r.vault_id)) rs ≡ rs
  keep_all [] = refl
  keep_all (r ∷ rs) = ap (λ x. r ∷ x) (keep_all rs)

  keep_live :
      (rs : List (RemoteMeta A))
      → keep (is_stale []) rs ≡ keep (λ r. is_text r.on_chain_status "live") rs
  keep_live [] = refl
  keep_live (r ∷ rs) = ground (arith, keep_live rs)

  find-All :
      (P : Vault A → Type 0) (id : String) (vs : List (Vault A)) (v : Vault A)
      → All P vs
      → find (has_id id) vs ≡ some v
      → P v
  find-All P id [] v all h = ground arith
  find-All P id (x ∷ vs) v all h = elim (Bool-cases (has_id id x)) [
    | inl hit ↦ ground (arith, all.0)
    | inr miss ↦ ground (arith, find-All P id vs v all.1)
  ]

  by_events-vault_id :
      (id : String) (hint : Option String) (ans : Answers A) (v : Vault A)
      → (by_events id hint ans).0 ≡ some v
      → v.vault_id ≡ id
  unfolding by_events
  by_events-vault_id id hint ans v h = grind (arith, find-has_id)

  by_cache-vault_id :
      (id : String) (owner : Option String) (ans : Answers A) (v : Vault A)
      → by_cache id owner ans ≡ some v
      → v.vault_id ≡ id
  unfolding by_cache
  by_cache-vault_id id owner ans v h = grind (arith, find-has_id)

  module _ (pf : Platform A) (now_sec : ℤ) where
    by_remotes-vault_id :
        (id : String) (owner : Option String) (ans : Answers A) (v : Vault A)
        → (by_remotes pf now_sec id owner ans).0 ≡ some v
        → v.vault_id ≡ id
    unfolding by_remotes remote_rows
    by_remotes-vault_id id owner ans v h = grind (arith, find-has_id)

    by_remotes_lem :
        (id o : String) (owner : Option String) (ans : Answers A) (rs : List (RemoteMeta A))
        → truthy owner ≡ some o
        → ans.remotes o ≡ some rs
        → by_remotes pf now_sec id owner ans ≡ remote_rows pf now_sec id o (some rs)
    unfolding by_remotes
    by_remotes_lem id o owner ans rs h k = ground (arith, h, k)

    remote_rows_lem :
        (id o : String) (rs : List (RemoteMeta A))
        → let (v, dismissed) = remote_rows pf now_sec id o (some rs) in
          (is_some v ≡ contains (map (λ r. r.vault_id) rs) id)
          × ((w : Vault A) → v ≡ some w → (w.status ≡ withdrawn) ⊎ (w.status ≡ archived))
          × (dismissed ≡ map (λ r. r.vault_id) (keep (λ r. is_text r.on_chain_status "live") rs))
    unfolding remote_rows
    remote_rows_lem id o rs =
        let (ids, terminal, dismissed) = build_archived_overlay_rows pf o now_sec rs [] in
        let rows = (build_archived_overlay pf o now_sec rs []).0 in
        (
          find-ids id rows
              ∙ ap (λ x. contains x id) (ids ∙ ap (map (λ r. r.vault_id)) (keep_all rs)),
          (λ w eq. (find-All (IsTerminal pf o now_sec) id rows w terminal eq).1),
          dismissed ∙ ap (map (λ r. r.vault_id)) (keep_live rs),
        )

    by_remotes_of_record :
        (id o : String) (owner : Option String) (ans : Answers A) (rs : List (RemoteMeta A))
        → truthy owner ≡ some o
        → ans.remotes o ≡ some rs
        → let (v, dismissed) = by_remotes pf now_sec id owner ans in
          (is_some v ≡ contains (map (λ r. r.vault_id) rs) id)
          × ((w : Vault A) → v ≡ some w → (w.status ≡ withdrawn) ⊎ (w.status ≡ archived))
          × (dismissed ≡ map (λ r. r.vault_id) (keep (λ r. is_text r.on_chain_status "live") rs))
    by_remotes_of_record id o owner ans rs h k =
        rw (by_remotes_lem id o owner ans rs h k) (remote_rows_lem id o rs)

    -- Whatever `getVault` returns when the simulate path gives nothing has the id that was asked
    -- for.
    fall_back-vault_id :
        (id : String) (hint : Option String) (ans : Answers A) (v : Vault A)
        → (fall_back pf now_sec id hint ans).0 ≡ ok v
        → v.vault_id ≡ id
    unfolding fall_back last_step
    fall_back-vault_id id hint ans v h = ground (
      arith,
      by_events-vault_id id hint ans v,
      by_cache-vault_id id (by_events id hint ans).1 ans v,
      by_remotes-vault_id id (by_events id hint ans).1 ans v,
    )

    -- A vault that the backend has a record of, under the owner that is inferred, is always found:
    -- `getVault` throws nothing, whatever the contract, the events and the cache answer.
    pub get_vault_of_record :
        (id o : String) (hint : Option String) (ans : Answers A) (s : Session A)
        (rs : List (RemoteMeta A))
        → truthy (by_events id hint ans).1 ≡ some o
        → ans.remotes o ≡ some rs
        → contains (map (λ r. r.vault_id) rs) id ≡ true
        → (v : Vault A) × ((get_vault pf now_sec id hint ans s).0.0 ≡ ok v)
    unfolding get_vault simulate_one fall_back last_step
    get_vault_of_record id o hint ans s rs h k m =
        let here = by_remotes_of_record id o (by_events id hint ans).1 ans rs h k in
        let reached : is_ok (get_vault pf now_sec id hint ans s).0.0 ≡ true =
          ground (arith, here.0) in
        elim (Result-cases (get_vault pf now_sec id hint ans s).0.0) [
          | inl good ↦ good
          | inr bad ↦ ground (arith, bad.1)
        ]

    -- Where the simulate path and the cache give nothing and the events cannot be read, `getVault`
    -- returns no vault as locked or unlocked, and it dismisses on the backend each of the owner's
    -- records that is marked "live", whichever vault was asked for.
    fall_back_dismisses :
        (id o : String) (ans : Answers A) (e f : Fault) (rs : List (RemoteMeta A))
        → o ≢ ""
        → ans.events ≡ err e
        → ans.cached o ≡ err f
        → ans.remotes o ≡ some rs
        → let (result, dismissed) = fall_back pf now_sec id (some o) ans in
          ((v : Vault A) → result ≡ ok v → (v.status ≡ withdrawn) ⊎ (v.status ≡ archived))
          × (dismissed ≡ map (λ r. r.vault_id) (keep (λ r. is_text r.on_chain_status "live") rs))
    unfolding fall_back by_events by_cache last_step
    fall_back_dismisses id o ans e f rs ne a b c =
        let owned : truthy (some o) ≡ some o = ground (arith, str_eq_iff o "") in
        let here = by_remotes_of_record id o (some o) ans rs owned c in
        ((λ v h. ground (arith, owned, here.1 v)), ground (arith, owned, here.2))
