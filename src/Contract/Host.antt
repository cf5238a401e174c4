-- ===== src/Contract/Host.antt =====
-- What contracts/xlm_vault/src/lib.rs declares (its errors, its vaults and the four keys of its
-- storage), and what it uses of the Soroban host: storage, ledger time, events, and the token.
use stellartimelock_core.Common.{
  ℕ, ◌^◌, ◌≡◌, ◌≢◌, String, Bool, Option, none, some, List, ◌∷◌, str_eq, ltb, ◌==◌, is_some,
  if◌then◌else◌,
}
use stellartimelock_core.Common.Action.{Action, Result, ok, err, modify}
use stellartimelock_core.Common.Int.{ℤ, pos, ◌+ℤ◌, ◌-ℤ◌, ◌≤ℤ◌, pos_part, neg_part}

pub data Error : Type 0 where
  not_owner still_locked already_withdrawn shorten_forbidden : Error
  vault_not_found invalid_amount invalid_timestamp already_initialised : Error

-- A call ends early with an error of the contract, or by a panic.
pub data Failure : Type 0 where
  code : Error → Failure
  trap : Failure

-- An address by its text.
abbrev pub Address : Type 0
Address = String

pub record Vault : Type 0 where
  pub vault_id : ℕ
  pub owner : Address
  pub name : String
  pub balance : ℤ
  pub unlock_timestamp : ℕ
  pub created_timestamp : ℕ
  pub withdrawn : Bool

-- A value in an event's data.
pub data Value : Type 0 where
  u64 : ℕ → Value
  i128 : ℤ → Value

-- An event's topics and data, with the ledger time that the host closes it at.
pub record Event : Type 0 where
  pub symbol : String
  pub subject : Address
  pub values : List Value
  pub closed : ℕ

-- The storage by `DataKey`, the tokens' ledger, the ledger time and the events, the latest first.
-- A key that is not set is `none`.
pub record Chain (L : Type 0) : Type 0 where
  pub token : Option Address
  pub next_id : Option ℕ
  pub vaults : ℕ → Option Vault
  pub owned : Address → Option (List ℕ)
  pub ledger : L
  pub now : ℕ
  pub events : List Event

-- The token contract at an address: what an account has, and `transfer`, which may refuse.
pub record Token (L : Type 0) : Type 0 where
  pub balance : Address → L → Address → ℤ
  pub transfer : (asset from to : Address) → ℤ → L → Option L

-- What the token interface documents: balances are not negative, and a transfer between two accounts
-- moves its amount.
pub record IsLawful {L : Type 0} (tk : Token L) : Type 0 where
  pub not_negative : (asset : Address) (l : L) (who : Address) → pos 0 ≤ℤ tk.balance asset l who
  pub moves :
      (asset from to : Address) (amount : ℤ) (l l' : L)
      → from ≢ to
      → tk.transfer asset from to amount l ≡ some l'
      → (tk.balance asset l' from ≡ tk.balance asset l from -ℤ amount)
        × (tk.balance asset l' to ≡ tk.balance asset l to +ℤ amount)

-- `checked_add` of u64, and `+=` of i128, which panics on an overflow (`overflow-checks = true`).
unfoldable pub checked_u64 : ℕ → Option ℕ
checked_u64 n = if ltb n (2 ^ 64) then some n else none

unfoldable pub checked_i128 : ℤ → Option ℤ
checked_i128 a =
    if ltb (pos_part a) (2 ^ 127) then if ltb (2 ^ 127) (neg_part a) then none else some a else none

abbrev pub fail_if : {L : Type 0} → Bool → Failure → Action Failure (Chain L) (Unit {0})
fail_if test e c = if test then (err e, c) else (ok tt, c)

abbrev pub unwrap : {L A : Type 0} → Option A → Failure → Action Failure (Chain L) A
unwrap none e c = (err e, c)
unwrap (some a) e c = (ok a, c)

-- The entries after a write.
abbrev pub put_vault : ℕ → Vault → (ℕ → Option Vault) → ℕ → Option Vault
put_vault id v vaults n = if n == id then some v else vaults n

abbrev pub put_owned : Address → List ℕ → (Address → Option (List ℕ)) → Address → Option (List ℕ)
put_owned owner ids owned who = if str_eq owner who then some ids else owned who

module _ {L : Type 0} where
  abbrev pub timestamp : Action Failure (Chain L) ℕ
  timestamp c = (ok c.now, c)

  abbrev pub has_token : Action Failure (Chain L) Bool
  has_token c = (ok (is_some c.token), c)

  abbrev pub get_token : Action Failure (Chain L) (Option Address)
  get_token c = (ok c.token, c)

  abbrev pub set_token : Address → Action Failure (Chain L) (Unit {0})
  set_token token = modify (λ c. record c { token = some token })

  abbrev pub get_next_id : Action Failure (Chain L) (Option ℕ)
  get_next_id c = (ok c.next_id, c)

  abbrev pub set_next_id : ℕ → Action Failure (Chain L) (Unit {0})
  set_next_id n = modify (λ c. record c { next_id = some n })

  abbrev pub read_vault : ℕ → Action Failure (Chain L) (Option Vault)
  read_vault id c = (ok (c.vaults id), c)

  abbrev pub set_vault : ℕ → Vault → Action Failure (Chain L) (Unit {0})
  set_vault id v = modify (λ c. record c { vaults = put_vault id v c.vaults })

  abbrev pub read_owned : Address → Action Failure (Chain L) (Option (List ℕ))
  read_owned owner c = (ok (c.owned owner), c)

  abbrev pub set_owned : Address → List ℕ → Action Failure (Chain L) (Unit {0})
  set_owned owner ids = modify (λ c. record c { owned = put_owned owner ids c.owned })

  abbrev pub publish : String → Address → List Value → Action Failure (Chain L) (Unit {0})
  publish symbol subject values = modify (λ c. record c {
    events =
        record { symbol = symbol; subject = subject; values = values; closed = c.now } ∷ c.events;
  })

-- The host takes back what a call that fails has written.
abbrev pub settle : {L A : Type 0} → Chain L → Result Failure A × Chain L → Chain L
settle c (ok a, d) = d
settle c (err e, d) = c
