-- ===== src/Api/Metadata.antt =====
-- The off-chain metadata of src/api/soroban-client.ts: `loadMeta`, `saveMeta`, the hydration from the
-- backend and `getVaultMeta`. The store on the device is a map, and its calls succeed; the backend
-- has one record for each vault, so that the concurrent writes of a hydration are of different keys.
pub mod Hydrated
pub mod Stored
mod Tests
use stellartimelock_core.Common.{
  ℕ, suc, String, Bool, true, false, not, ◌&&◌, ◌||◌, Option, none, some, List, [], ◌∷◌, or_else,
  if◌then◌else◌, str_eq, find,
}
use stellartimelock_core.Common.Action.{Result, ok, err, Action}
use stellartimelock_core.Common.Dict.{Dict, lookup, insert}
use stellartimelock_core.Api.Vault.{VaultMeta, RemoteMeta, empty_meta, is_text, first_some}
use Prim.Native.String as NativeString

abbrev pub meta_prefix : String
meta_prefix = "xlm_vault_soroban_meta:"

abbrev pub meta_key : String → String → String
meta_key owner vault_id =
    NativeString.◌++◌ meta_prefix (NativeString.◌++◌ owner (NativeString.◌++◌ ":" vault_id))

-- What `fetch` of a list of records comes to: it threw, there or in decoding; it is not ok; or rows.
pub data Answer (A : Type 0) : Type 0 where
  threw : Answer A
  not_ok : Answer A
  rows : List (RemoteMeta A) → Answer A

-- A body that is sent with PUT.
pub record Mirrored (A : Type 0) : Type 0 where
  pub owner : String
  pub vault_id : String
  pub meta : VaultMeta A

-- The metadata on the device, and what was sent to the backend, the last first.
pub record Metas (A : Type 0) : Type 0 where
  pub local : Dict (VaultMeta A)
  pub mirrored : List (Mirrored A)

abbrev is_none : {B : Type 0} → Option B → Bool
is_none none = true
is_none (some b) = false

abbrev pub non_empty : Option String → Bool
non_empty none = false
non_empty (some s) = not (str_eq s "")

-- a || b
abbrev pub or_text : Option String → Option String → Option String
or_text a b = if non_empty a then a else b

module _ {A : Type 0} where
  unfoldable pub load_meta : String → String → Metas A → VaultMeta A
  load_meta owner vault_id s = or_else (lookup (meta_key owner vault_id) s.local) empty_meta

  unfoldable pub save_meta_local : String → String → VaultMeta A → Metas A → Metas A
  save_meta_local owner vault_id meta s = record s {
    local = insert (meta_key owner vault_id) meta s.local;
  }

  -- `backend` tells whether BACKEND_URL is set.
  unfoldable pub mirror_meta_to_backend : Bool → String → String → VaultMeta A → Metas A → Metas A
  mirror_meta_to_backend backend owner vault_id meta s =
      if backend
      then record s {
        mirrored = record { owner = owner; vault_id = vault_id; meta = meta } ∷ s.mirrored;
      }
      else s

  unfoldable pub save_meta : Bool → String → String → VaultMeta A → Metas A → Metas A
  unfolding save_meta_local mirror_meta_to_backend
  save_meta backend owner vault_id meta s =
      mirror_meta_to_backend backend owner vault_id meta (save_meta_local owner vault_id meta s)

  abbrev pub meta_of_remote : RemoteMeta A → VaultMeta A
  meta_of_remote r = record {
    description = r.description;
    template = r.template;
    target_amount = r.target_amount;
    name = r.name;
    withdrawal_destination = r.withdrawal_destination;
    withdrawal_destination_label = r.withdrawal_destination_label;
    withdrawal_memo = r.withdrawal_memo;
    bill_id = r.bill_id;
  }

  -- `isMissing`: the stub, which is also what a missing entry reads as. `undefined` and `null` are
  -- one `none`; an entry whose target is absent does not equal `null` in the source.
  abbrev pub is_stub : VaultMeta A → Bool
  is_stub m = is_text m.description "" && is_text m.template "custom" && is_none m.target_amount

  -- One record, and the count of those written.
  unfoldable pub hydrate_one : Bool → String → RemoteMeta A → ℕ × Metas A → ℕ × Metas A
  unfolding load_meta save_meta_local
  hydrate_one force owner r (updated, s) =
      if force || is_stub (load_meta owner r.vault_id s)
      then (suc updated, save_meta_local owner r.vault_id (meta_of_remote r) s)
      else (updated, s)

  unfoldable pub hydrate_all : Bool → String → List (RemoteMeta A) → ℕ × Metas A → ℕ × Metas A
  unfolding hydrate_one
  hydrate_all force owner [] state = state
  hydrate_all force owner (r ∷ rs) state =
      hydrate_all force owner rs (hydrate_one force owner r state)

  unfoldable pub hydrate_meta_impl : Bool → Bool → String → Answer A → Metas A → ℕ × Metas A
  unfolding hydrate_all
  hydrate_meta_impl false force owner answer s = (0, s)
  hydrate_meta_impl true force owner threw s = (0, s)
  hydrate_meta_impl true force owner not_ok s = (0, s)
  hydrate_meta_impl true force owner (rows remotes) s = hydrate_all force owner remotes (0, s)

  pub hydrate_meta_from_backend : Bool → String → Answer A → Metas A → Metas A
  unfolding hydrate_meta_impl
  hydrate_meta_from_backend backend owner answer s =
      (hydrate_meta_impl backend false owner answer s).1

  pub force_sync_meta_from_backend : Bool → String → Answer A → Metas A → ℕ × Metas A
  unfolding hydrate_meta_impl
  force_sync_meta_from_backend backend owner answer s =
      hydrate_meta_impl backend true owner answer s

  abbrev pub hydrated : VaultMeta A → RemoteMeta A → VaultMeta A
  hydrated local hit = record {
    description = or_text local.description hit.description;
    template = or_text local.template hit.template;
    target_amount = first_some local.target_amount hit.target_amount;
    name = first_some local.name hit.name;
    withdrawal_destination = hit.withdrawal_destination;
    withdrawal_destination_label = hit.withdrawal_destination_label;
    withdrawal_memo = hit.withdrawal_memo;
    bill_id = hit.bill_id;
  }

  abbrev is_vault : String → RemoteMeta A → Bool
  is_vault vault_id r = str_eq r.vault_id vault_id

  ask_backend : String → String → VaultMeta A → Answer A → Metas A → Option (VaultMeta A) × Metas A
  unfolding save_meta_local
  ask_backend owner vault_id local threw s = (none, s)
  ask_backend owner vault_id local not_ok s = (some local, s)
  ask_backend owner vault_id local (rows remotes) s = elim (find (is_vault vault_id) remotes) [
    | none ↦ (some local, s)
    | some hit ↦ (some (hydrated local hit), save_meta_local owner vault_id (hydrated local hit) s)
  ]

  -- `none` is undefined.
  unfoldable pub get_vault_meta :
      Bool → String → String → Answer A → Metas A → Option (VaultMeta A) × Metas A
  unfolding load_meta ask_backend
  get_vault_meta backend owner vault_id answer s =
      let local = load_meta owner vault_id s in
      if non_empty local.withdrawal_destination || not backend
      then (some local, s)
      else ask_backend owner vault_id local answer s

-- `dismissVaultMeta`, with `res.ok` of the PATCH
pub dismiss_vault_meta : {E W : Type 0} → Bool → Action E W Bool → W → Bool × W
dismiss_vault_meta backend patch w =
    if backend
    then (let (r, w') = patch w in elim r [ ok b ↦ (b, w') | err e ↦ (false, w') ])
    else (false, w)
