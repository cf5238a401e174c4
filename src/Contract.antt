-- ===== src/Contract.antt =====
-- The contract, contracts/xlm_vault/src/lib.rs. A call is an action over the chain as the contract
-- sees it (Contract/Host): an `Err` or a panic comes back with what was written until then, which
-- the host takes back (`run`).
pub mod Host
pub mod Call
pub mod Effects
pub mod Calls
pub mod Total
pub mod Steps
pub mod Solvent
pub mod Locked
pub mod Paid
pub mod Due
pub mod Owned
pub mod Refused
pub mod Seen
pub mod Shown
pub mod Replayed
pub mod Undated
pub mod Status
mod Tests
use stellartimelock_core.Common.{
  ℕ, ◌+◌, ◌≤◌, ◌≡◌, String, Bool, true, false, not, Option, none, some, List, [], ◌∷◌, ◌++◌, str_eq,
  leb, ltb, ◌==◌, or_else, if◌then◌else◌,
}
use stellartimelock_core.Common.Action.{Action, Result, ok, err, pure, throw, ◌>>=◌, ◌>>◌}
use stellartimelock_core.Common.Int.{ℤ, pos, leb_ℤ, ◌+ℤ◌}
use stellartimelock_core.Contract.Host.{
  Error, not_owner, still_locked, already_withdrawn, shorten_forbidden, vault_not_found,
  invalid_amount, invalid_timestamp, already_initialised, Failure, code, trap, Address, Vault,
  Value, u64, i128, Chain, Token, fail_if, unwrap, timestamp, has_token, get_token, set_token,
  get_next_id, set_next_id, read_vault, set_vault, read_owned, set_owned, publish, checked_u64,
  checked_i128,
}

module _ {L : Type 0} (tk : Token L) (self : Address) where
  -- `init`
  pub init : Address → Action Failure (Chain L) (Unit {0})
  init token = do
    initialised ← has_token
    fail_if initialised (code already_initialised)
    set_token token
    set_next_id 0

  -- `token`, with its `expect`
  abbrev pub token : Action Failure (Chain L) Address
  token = do found ← get_token; unwrap found trap

  -- The token contract's own call: a transfer that it refuses is a panic.
  abbrev pub transfer : Address → Address → ℤ → Action Failure (Chain L) (Unit {0})
  transfer from to amount = do
    asset ← token
    λ c. elim (tk.transfer asset from to amount c.ledger) [
      | none ↦ (err trap, c)
      | some ledger ↦ (ok tt, record c { ledger = ledger })
    ]

  abbrev pub pull : Address → ℤ → Action Failure (Chain L) (Unit {0})
  pull from amount = transfer from self amount

  abbrev pub push : Address → ℤ → Action Failure (Chain L) (Unit {0})
  push to amount = transfer self to amount

  abbrev pub load : ℕ → Action Failure (Chain L) Vault
  load vault_id = do found ← read_vault vault_id; unwrap found (code vault_not_found)

  -- `auth` says who has authorised the call; `require_auth` panics for any other.
  module _ (auth : Address → Bool) where
    abbrev pub require_auth : Address → Action Failure (Chain L) (Unit {0})
    require_auth who = fail_if (not (auth who)) trap

    pub create_vault : Address → String → ℤ → ℕ → Action Failure (Chain L) ℕ
    create_vault owner name initial_deposit unlock_timestamp = do
      require_auth owner
      fail_if (leb_ℤ initial_deposit (pos 0)) (code invalid_amount)
      now ← timestamp
      fail_if (leb unlock_timestamp now) (code invalid_timestamp)
      pull owner initial_deposit
      counter ← get_next_id
      let id = or_else counter 0
      next ← unwrap (checked_u64 (id + 1)) (code invalid_amount)
      set_next_id next
      set_vault id (record {
        vault_id = id;
        owner = owner;
        name = name;
        balance = initial_deposit;
        unlock_timestamp = unlock_timestamp;
        created_timestamp = now;
        withdrawn = false;
      })
      index ← read_owned owner
      set_owned owner (or_else index [] ++ id ∷ [])
      publish "create" owner (u64 id ∷ i128 initial_deposit ∷ u64 unlock_timestamp ∷ [])
      pure id

    pub deposit : Address → ℕ → ℤ → Action Failure (Chain L) (Unit {0})
    deposit caller vault_id amount = do
      require_auth caller
      fail_if (leb_ℤ amount (pos 0)) (code invalid_amount)
      v ← load vault_id
      fail_if (not (str_eq v.owner caller)) (code not_owner)
      fail_if v.withdrawn (code already_withdrawn)
      pull caller amount
      balance ← unwrap (checked_i128 (v.balance +ℤ amount)) trap
      set_vault vault_id (record v { balance = balance })
      publish "deposit" caller (u64 vault_id ∷ i128 amount ∷ [])

    pub extend_lock : Address → ℕ → ℕ → Action Failure (Chain L) ℕ
    extend_lock caller vault_id additional_seconds = do
      require_auth caller
      fail_if (additional_seconds == 0) (code shorten_forbidden)
      v ← load vault_id
      fail_if (not (str_eq v.owner caller)) (code not_owner)
      fail_if v.withdrawn (code already_withdrawn)
      unlock ←
          unwrap (checked_u64 (v.unlock_timestamp + additional_seconds)) (code invalid_timestamp)
      set_vault vault_id (record v { unlock_timestamp = unlock })
      publish "extend" caller (u64 vault_id ∷ u64 unlock ∷ [])
      pure unlock

    pub withdraw : Address → ℕ → Action Failure (Chain L) ℤ
    withdraw caller vault_id = do
      require_auth caller
      v ← load vault_id
      fail_if (not (str_eq v.owner caller)) (code not_owner)
      fail_if v.withdrawn (code already_withdrawn)
      now ← timestamp
      fail_if (ltb now v.unlock_timestamp) (code still_locked)
      let amount = v.balance
      set_vault vault_id (record v { balance = pos 0; withdrawn = true })
      push caller amount
      publish "withdraw" caller (u64 vault_id ∷ i128 amount ∷ [])
      pure amount

  unfoldable pub get_vault : ℕ → Action Failure (Chain L) Vault
  get_vault vault_id = load vault_id

  unfoldable pub list_owned : Address → Action Failure (Chain L) (List ℕ)
  list_owned owner = do index ← read_owned owner; pure (or_else index [])
