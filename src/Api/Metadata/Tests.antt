-- ===== src/Api/Metadata/Tests.antt =====
-- A device that knows one vault by its description, and a backend with a record of it.
use stellartimelock_core.Common.{ℕ, String, ◌≡◌, refl, false, true, none, some, [], ◌∷◌, length}
use stellartimelock_core.Api.Vault.{VaultMeta, RemoteMeta, empty_meta}
use stellartimelock_core.Api.Metadata.{
  rows, Metas, save_meta_local, load_meta, hydrate_meta_from_backend, get_vault_meta,
}
use stellartimelock_core.Api.Metadata.Hydrated.{hydrate_meta_from_backend-keeps}
use stellartimelock_core.Api.Metadata.Stored.{Stores, get_vault_meta-Stores}

abbrev rent : VaultMeta ℕ
rent = record empty_meta { description = some "Rent" }

abbrev remote_rent : RemoteMeta ℕ
remote_rent = record {
  vault_id = "7";
  description = some "Old rent";
  template = some "custom";
  target_amount = none;
  name = some "Rent";
  withdrawal_destination = some "G2";
  withdrawal_destination_label = none;
  withdrawal_memo = none;
  bill_id = none;
  balance_xlm = none;
  unlock_timestamp = none;
  on_chain_status = none;
  created_at = none;
  updated_at = none;
}

abbrev device : Metas ℕ
device = save_meta_local "G1" "7" rent (record { local = []; mirrored = [] })

hydrate_meta_from_backend-keeps_example :
    load_meta "G1" "7" (hydrate_meta_from_backend true "G1" (rows (remote_rent ∷ [])) device)
    ≡ load_meta "G1" "7" device
unfolding load_meta save_meta_local stellartimelock_core.Common.Dict.lookup
    stellartimelock_core.Common.Dict.insert
hydrate_meta_from_backend-keeps_example =
    hydrate_meta_from_backend-keeps "G1" true (rows (remote_rent ∷ [])) device "7" refl

get_vault_meta-Stores_example :
    Stores "G1" "7" device (get_vault_meta true "G1" "7" (rows (remote_rent ∷ [])) device)
get_vault_meta-Stores_example = get_vault_meta-Stores "G1" "7" true (rows (remote_rent ∷ [])) device
