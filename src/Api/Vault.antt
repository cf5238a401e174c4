-- ===== src/Api/Vault.antt =====
-- The vault data of src/api/soroban-client.ts: what the contract, the backend and the screens hold,
-- and the small functions over them. Timestamps are integers of seconds. An XLM amount is a number
-- of JavaScript, of which the code uses only what `Platform` lists.
pub mod Overlay
pub mod Sanitise
use stellartimelock_core.Common.{
  ℕ, ◌+◌, ◌/◌, String, Bool, true, false, ◌&&◌, Option, none, some, List, [], ◌∷◌, str_eq,
  if◌then◌else◌,
}
use stellartimelock_core.Common.Int.{ℤ, pos, negsuc, leb_ℤ, ltb_ℤ}
use stellartimelock_core.Common.Text.{codes, is_space}
use Prim.Native.String as NativeString

pub record Platform (A : Type 0) : Type 0 where
  pub zero_xlm : A
  pub add : A → A → A
  -- x > 0
  pub is_positive : A → Bool
  -- Number(stroops) / 10_000_000
  pub of_stroops : ℤ → A
  -- Date.parse, in milliseconds; `none` is NaN
  pub date_parse : String → Option ℤ

pub data VaultStatus : Type 0 where
  locked unlocked withdrawn archived : VaultStatus

-- `Vault` of src/vault/contract, as far as this module fills it
pub record Vault (A : Type 0) : Type 0 where
  pub vault_id : String
  pub owner_public_key : String
  pub name : String
  pub description : String
  pub template : String
  pub balance : A
  pub target_amount : Option A
  pub unlock_timestamp : ℤ
  pub created_timestamp : ℤ
  pub status : VaultStatus

-- A field that is absent or null is `none`, also where the source's type forgets that the code
-- allows for it (`r.description ?? ""`).
pub record VaultMeta (A : Type 0) : Type 0 where
  pub description : Option String
  pub template : Option String
  pub target_amount : Option A
  pub name : Option String
  pub withdrawal_destination : Option String
  pub withdrawal_destination_label : Option String
  pub withdrawal_memo : Option String
  pub bill_id : Option String

pub record RemoteMeta (A : Type 0) : Type 0 where
  pub vault_id : String
  pub description : Option String
  pub template : Option String
  pub target_amount : Option A
  pub name : Option String
  pub withdrawal_destination : Option String
  pub withdrawal_destination_label : Option String
  pub withdrawal_memo : Option String
  pub bill_id : Option String
  pub balance_xlm : Option A
  pub unlock_timestamp : Option ℤ
  pub on_chain_status : Option String
  pub created_at : Option String
  pub updated_at : Option String

abbrev pub empty_meta : {A : Type 0} → VaultMeta A
empty_meta = record {
  description = some "";
  template = some "custom";
  target_amount = none;
  name = none;
  withdrawal_destination = none;
  withdrawal_destination_label = none;
  withdrawal_memo = none;
  bill_id = none;
}

-- the contract's struct, decoded
pub record ContractVault : Type 0 where
  pub vault_id : ℕ
  pub owner : String
  pub name : String
  pub balance : ℤ
  pub unlock_timestamp : ℕ
  pub created_timestamp : ℕ
  pub withdrawn : Bool

-- `o === s`, false on null
abbrev pub is_text : Option String → String → Bool
is_text none s = false
is_text (some t) s = str_eq t s

abbrev all_spaces : List ℕ → Bool
all_spaces [] = true
all_spaces (c ∷ s) = is_space c && all_spaces s

-- `name?.trim() ? name : fallback`
abbrev pub named_or : Option String → String → String
named_or none fallback = fallback
named_or (some name) fallback = if all_spaces (codes name) then fallback else name

-- `a ?? b`
abbrev pub first_some : {A : Type 0} → Option A → Option A → Option A
first_some none b = b
first_some (some a) b = some a

-- `nowSec >= unlock ? "unlocked" : "locked"`
abbrev pub by_time : ℤ → ℤ → VaultStatus
by_time now unlock = if leb_ℤ unlock now then unlocked else locked

abbrev pub is_archived : VaultStatus → Bool
is_archived archived = true
is_archived _ = false

-- Math.floor(ms / 1000)
abbrev pub floor_seconds : ℤ → ℤ
floor_seconds (pos n) = pos (n / 1000)
floor_seconds (negsuc n) = negsuc (n / 1000)

-- `Vault #${id}`
abbrev pub numbered_name : String → String
numbered_name id = NativeString.◌++◌ "Vault #" id

-- Membership in a `Set` of ids
abbrev pub contains : List String → String → Bool
contains [] id = false
contains (x ∷ xs) id = if str_eq x id then true else contains xs id

-- `metaById.get(id)`: of several records with one id the map keeps the last.
abbrev pub meta_by_id : {A : Type 0} → List (RemoteMeta A) → String → Option (RemoteMeta A)
meta_by_id [] id = none
meta_by_id (r ∷ rs) id = elim (meta_by_id rs id) [
  | some later ↦ some later
  | none ↦ if str_eq r.vault_id id then some r else none
]

module _ {A : Type 0} (pf : Platform A) where
  unfoldable pub parse_iso_to_unix : Option String → ℤ
  parse_iso_to_unix none = pos 0
  parse_iso_to_unix (some iso) =
      if str_eq iso ""
      then pos 0
      else elim (pf.date_parse iso) [ none ↦ pos 0 | some ms ↦ floor_seconds ms ]

  unfoldable pub status_for : ContractVault → ℤ → VaultStatus
  status_for v now_sec = if v.withdrawn then withdrawn else by_time now_sec (pos v.unlock_timestamp)
