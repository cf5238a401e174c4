-- ===== src/Api/Write.antt =====
-- `createVault`, `deposit`, `extendLock` and `withdraw` of src/api/soroban-client.ts: a write, and the
-- vault as it is read after it.
pub mod Confirmed
mod Tests
use stellartimelock_core.Common.{ℕ, String, Bool, Option, none, some, List, [], ◌++◌}
use stellartimelock_core.Common.Action.{Result, ok, err, Action, pure, throw, ◌>>=◌}
use stellartimelock_core.Common.Int.{ℤ}
use stellartimelock_core.Api.Errors.{Fault, Thrown, soroban, fault, soroban_simulation_error}
use stellartimelock_core.Api.Network.{Network}
use stellartimelock_core.Api.Invoke.{Client, InvokeResult, invoke_contract}
use stellartimelock_core.Api.Vault.{Platform, Vault, VaultMeta, empty_meta}
use stellartimelock_core.Api.Session.{Session}
use stellartimelock_core.Api.Single.{Answers, get_vault}
use stellartimelock_core.Api.Metadata.{Metas, save_meta}

-- `CreateVaultInput` of src/vault/contract
pub record CreateVaultInput (A : Type 0) : Type 0 where
  pub owner_public_key : String
  pub name : String
  pub description : String
  pub template : String
  pub target_amount : Option A
  pub initial_deposit : A
  pub unlock_timestamp : A

-- The parameters of the contract's methods, as the SDK encodes them, and the id that it decodes;
-- and what the sources of `getVault` answer, and the clock, in a world.
pub record Encoding (net : Network) (A : Type 0) : Type 1 where
  pub create_params : CreateVaultInput A → Result Fault (List net.ScVal)
  pub deposit_params : String → String → A → Result Fault (List net.ScVal)
  pub extend_params : String → String → A → Result Fault (List net.ScVal)
  pub withdraw_params : String → String → Result Fault (List net.ScVal)
  pub id_of : net.ScVal → Result Fault String
  pub answers : String → net.World → Answers A × net.World
  pub now_sec : net.World → ℤ

-- The client, the metadata, the session, and the ids that were dismissed on the backend.
pub record Writer (W A : Type 0) : Type 0 where
  pub client : Client W
  pub metas : Metas A
  pub session : Session A
  pub dismissed : List String

module _ {A : Type 0} (net : Network) (enc : Encoding net A) (pf : Platform A)
    (backend : Bool) where
  open net use {World, ScVal}

  -- this.getVault(id)
  unfoldable pub read_back : String → Action Thrown (Writer World A) (Vault A)
  read_back id s =
      let (answers, w) = enc.answers id s.client.world in
      let ((r, dismissed), session) = get_vault pf (enc.now_sec w) id none answers s.session in
      let s' = record s {
        client = record s.client { world = w };
        session = session;
        dismissed = s.dismissed ++ dismissed;
      } in
      elim r [ ok v ↦ (ok v, s') | err e ↦ (err (fault e), s') ]

  abbrev pub encoded : {B : Type 0} → Result Fault B → Action Thrown (Writer World A) B
  encoded (ok b) s = (ok b, s)
  encoded (err e) s = (err (fault e), s)

  abbrev pub by_client :
      {B : Type 0} → Action Thrown (Client World) B → Action Thrown (Writer World A) B
  by_client m s = let (r, c) = m s.client in (r, record s { client = c })

  -- A write, and the vault after it.
  unfoldable pub write_and_read :
      String → String → List ScVal → String → Action Thrown (Writer World A) (Vault A)
  unfolding read_back
  write_and_read owner method params id = do
    result ← by_client (invoke_contract net owner method params)
    read_back id

  unfoldable pub deposit : String → String → A → Action Thrown (Writer World A) (Vault A)
  unfolding write_and_read
  deposit id owner amount = do
    params ← encoded (enc.deposit_params id owner amount)
    write_and_read owner "deposit" params id

  unfoldable pub extend_lock : String → String → A → Action Thrown (Writer World A) (Vault A)
  unfolding write_and_read
  extend_lock id owner additional_seconds = do
    params ← encoded (enc.extend_params id owner additional_seconds)
    write_and_read owner "extend_lock" params id

  unfoldable pub withdraw : String → String → Action Thrown (Writer World A) (Vault A)
  unfolding write_and_read
  withdraw id owner = do
    params ← encoded (enc.withdraw_params id owner)
    write_and_read owner "withdraw" params id

  abbrev pub meta_of : CreateVaultInput A → VaultMeta A
  meta_of input = record empty_meta {
    description = some input.description;
    template = some input.template;
    target_amount = input.target_amount;
    name = some input.name;
  }

  abbrev pub storing : String → CreateVaultInput A → Action Thrown (Writer World A) (Unit {0})
  storing id input s = (
    ok tt,
    record s { metas = save_meta backend input.owner_public_key id (meta_of input) s.metas },
  )

  abbrev pub returned : Option ScVal → Action Thrown (Writer World A) ScVal
  returned none =
      throw
        (soroban (soroban_simulation_error "create_vault" "Contract did not return a vault id."))
  returned (some v) = pure v

  unfoldable pub record_created :
      CreateVaultInput A → InvokeResult net → Action Thrown (Writer World A) (Vault A)
  unfolding read_back
  record_created input result = do
    value ← returned result.return_value
    id ← encoded (enc.id_of value)
    stored ← storing id input
    read_back id

  unfoldable pub create_vault : CreateVaultInput A → Action Thrown (Writer World A) (Vault A)
  unfolding record_created
  create_vault input = do
    params ← encoded (enc.create_params input)
    result ← by_client (invoke_contract net input.owner_public_key "create_vault" params)
    record_created input result
