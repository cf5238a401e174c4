-- ===== src/Contract/Effects.antt =====
-- What each call of contracts/xlm_vault/src/lib.rs does to the chain when it succeeds, and when it
-- does.
use stellartimelock_core.Common.{
  ℕ, ◌+◌, ◌≤◌, ◌<◌, ◌≡◌, String, Bool, true, false, none, some, List, [], ◌∷◌, ◌++◌, str_eq, leb,
  ltb, ◌==◌, or_else,
}
use stellartimelock_core.Common.Action.{ok}
use stellartimelock_core.Common.Int.{ℤ, pos, leb_ℤ, ◌+ℤ◌}
use stellartimelock_core.Contract.Host.{
  Address, Vault, Value, u64, i128, Event, Chain, Token, put_vault, put_owned, checked_u64,
  checked_i128,
}
use stellartimelock_core.Contract
use stellartimelock_core.Contract.Call.{Call, init, create_vault, deposit, extend_lock, withdraw}

abbrev pub new_vault : ℕ → Address → String → ℤ → ℕ → ℕ → Vault
new_vault id owner name amount unlock now = record {
  vault_id = id;
  owner = owner;
  name = name;
  balance = amount;
  unlock_timestamp = unlock;
  created_timestamp = now;
  withdrawn = false;
}

-- An event closed at the present ledger time.
abbrev pub logged : {L : Type 0} → String → Address → List Value → Chain L → List Event
logged symbol subject values c =
    record { symbol = symbol; subject = subject; values = values; closed = c.now } ∷ c.events

module _ {L : Type 0} where
  abbrev pub after_init : Address → Chain L → Chain L
  after_init token c = record c { token = some token; next_id = some 0 }

  -- The chain after a creation.
  abbrev pub new_id : Chain L → ℕ
  new_id c = or_else c.next_id 0

  abbrev pub after_create : Address → String → ℤ → ℕ → L → Chain L → Chain L
  after_create owner name amount unlock ledger c = record c {
    next_id = some (new_id c + 1);
    vaults = put_vault (new_id c) (new_vault (new_id c) owner name amount unlock c.now) c.vaults;
    owned = put_owned owner (or_else (c.owned owner) [] ++ new_id c ∷ []) c.owned;
    ledger = ledger;
    events = logged "create" owner (u64 (new_id c) ∷ i128 amount ∷ u64 unlock ∷ []) c;
  }

  abbrev pub after_deposit : Address → ℕ → Vault → ℤ → L → Chain L → Chain L
  after_deposit caller id v amount ledger c = record c {
    vaults = put_vault id (record v { balance = v.balance +ℤ amount }) c.vaults;
    ledger = ledger;
    events = logged "deposit" caller (u64 id ∷ i128 amount ∷ []) c;
  }

  abbrev pub after_extend : Address → ℕ → Vault → ℕ → Chain L → Chain L
  after_extend caller id v seconds c = record c {
    vaults = put_vault id (record v { unlock_timestamp = v.unlock_timestamp + seconds }) c.vaults;
    events = logged "extend" caller (u64 id ∷ u64 (v.unlock_timestamp + seconds) ∷ []) c;
  }

  abbrev pub after_withdraw : Address → ℕ → Vault → L → Chain L → Chain L
  after_withdraw caller id v ledger c = record c {
    vaults = put_vault id (record v { balance = pos 0; withdrawn = true }) c.vaults;
    ledger = ledger;
    events = logged "withdraw" caller (u64 id ∷ i128 v.balance ∷ []) c;
  }

module _ {L : Type 0} (tk : Token L) (self : Address) (auth : Address → Bool) where
  -- What a call does to the chain `c` when it succeeds, under the guards that it needs.
  pub data Change (c : Chain L) : Call → Chain L → Type 0 where
    initialised : (token : Address) → c.token ≡ none → Change c (init token) (after_init token c)
    created :
        (owner : Address) (name : String) (amount : ℤ) (unlock : ℕ) (asset : Address) (ledger : L)
        → auth owner ≡ true
        → leb_ℤ amount (pos 0) ≡ false
        → leb unlock c.now ≡ false
        → c.token ≡ some asset
        → tk.transfer asset owner self amount c.ledger ≡ some ledger
        → checked_u64 (new_id c + 1) ≡ some (new_id c + 1)
        → Change c
            (create_vault owner name amount unlock)
            (after_create owner name amount unlock ledger c)
    deposited :
        (caller : Address) (id : ℕ) (v : Vault) (amount : ℤ) (asset : Address) (ledger : L)
        → auth caller ≡ true
        → leb_ℤ amount (pos 0) ≡ false
        → c.vaults id ≡ some v
        → v.owner ≡ caller
        → v.withdrawn ≡ false
        → c.token ≡ some asset
        → tk.transfer asset caller self amount c.ledger ≡ some ledger
        → checked_i128 (v.balance +ℤ amount) ≡ some (v.balance +ℤ amount)
        → Change c (deposit caller id amount) (after_deposit caller id v amount ledger c)
    extended :
        (caller : Address) (id : ℕ) (v : Vault) (seconds : ℕ)
        → auth caller ≡ true
        → 0 < seconds
        → c.vaults id ≡ some v
        → v.owner ≡ caller
        → v.withdrawn ≡ false
        → checked_u64 (v.unlock_timestamp + seconds) ≡ some (v.unlock_timestamp + seconds)
        → Change c (extend_lock caller id seconds) (after_extend caller id v seconds c)
    emptied :
        (caller : Address) (id : ℕ) (v : Vault) (asset : Address) (ledger : L)
        → auth caller ≡ true
        → c.vaults id ≡ some v
        → v.owner ≡ caller
        → v.withdrawn ≡ false
        → v.unlock_timestamp ≤ c.now
        → c.token ≡ some asset
        → tk.transfer asset self caller v.balance c.ledger ≡ some ledger
        → Change c (withdraw caller id) (after_withdraw caller id v ledger c)

  -- A call makes its change, or there is none that it can make and the chain stays as it is.
  pub data Effect (c : Chain L) (call : Call) : Chain L → Type 0 where
    changed : {d : Chain L} → Change c call d → Effect c call d
    rejected : ((d : Chain L) → ¬ Change c call d) → Effect c call c

  pub create_run :
      (owner : Address) (name : String) (amount : ℤ) (unlock : ℕ) (c : Chain L) (asset : Address)
      (ledger : L)
      → c.token ≡ some asset
      → tk.transfer asset owner self amount c.ledger ≡ some ledger
      → auth owner ≡ true
      → leb_ℤ amount (pos 0) ≡ false
      → leb unlock c.now ≡ false
      → checked_u64 (new_id c + 1) ≡ some (new_id c + 1)
      → Contract.create_vault tk self auth owner name amount unlock c
        ≡ (ok (or_else c.next_id 0), after_create owner name amount unlock ledger c)
  unfolding Contract.create_vault
  create_run owner name amount unlock c asset ledger t m a p l n = simp (t, m, a, p, l, n)

  pub deposit_run :
      (caller : Address) (id : ℕ) (v : Vault) (amount : ℤ) (c : Chain L) (asset : Address)
      (ledger : L)
      → auth caller ≡ true
      → leb_ℤ amount (pos 0) ≡ false
      → c.vaults id ≡ some v
      → str_eq v.owner caller ≡ true
      → v.withdrawn ≡ false
      → c.token ≡ some asset
      → tk.transfer asset caller self amount c.ledger ≡ some ledger
      → checked_i128 (v.balance +ℤ amount) ≡ some (v.balance +ℤ amount)
      → Contract.deposit tk self auth caller id amount c
        ≡ (ok tt, after_deposit caller id v amount ledger c)
  unfolding Contract.deposit
  deposit_run caller id v amount c asset ledger a p f o w t m n = simp (a, p, f, o, w, t, m, n)

  pub extend_run :
      (caller : Address) (id : ℕ) (v : Vault) (seconds : ℕ) (c : Chain L)
      → auth caller ≡ true
      → (seconds == 0) ≡ false
      → c.vaults id ≡ some v
      → str_eq v.owner caller ≡ true
      → v.withdrawn ≡ false
      → checked_u64 (v.unlock_timestamp + seconds) ≡ some (v.unlock_timestamp + seconds)
      → Contract.extend_lock tk self auth caller id seconds c
        ≡ (ok (v.unlock_timestamp + seconds), after_extend caller id v seconds c)
  unfolding Contract.extend_lock
  extend_run caller id v seconds c a p f o w n = simp (a, p, f, o, w, n)

  pub withdraw_run :
      (caller : Address) (id : ℕ) (v : Vault) (c : Chain L) (asset : Address) (ledger : L)
      → auth caller ≡ true
      → c.vaults id ≡ some v
      → str_eq v.owner caller ≡ true
      → v.withdrawn ≡ false
      → ltb c.now v.unlock_timestamp ≡ false
      → c.token ≡ some asset
      → tk.transfer asset self caller v.balance c.ledger ≡ some ledger
      → Contract.withdraw tk self auth caller id c
        ≡ (ok v.balance, after_withdraw caller id v ledger c)
  unfolding Contract.withdraw
  withdraw_run caller id v c asset ledger a f o w l t m = simp (a, f, o, w, l, t, m)

  pub init_run :
      (token : Address) (c : Chain L)
      → c.token ≡ none
      → Contract.init tk self token c ≡ (ok tt, after_init token c)
  unfolding Contract.init
  init_run token c e = simp e
