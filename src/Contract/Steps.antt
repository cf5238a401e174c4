-- ===== src/Contract/Steps.antt =====
-- What happens to the chain of contracts/xlm_vault/src/lib.rs over time, one step after the other:
-- calls by anyone, in any order; time that passes; and what others do with the tokens.
use stellartimelock_core.Common.{ℕ, ◌≤◌, ◌≡◌, Bool, false, none, []}
use stellartimelock_core.Common.Int.{◌≤ℤ◌}
use stellartimelock_core.Contract.Host.{Address, Chain, Token}
use stellartimelock_core.Contract.Call.{Call}
use stellartimelock_core.Contract.Calls.{perform}

module _ {L : Type 0} (tk : Token L) (self : Address) where
  -- The contract authorises nothing in its own name: it never calls itself. So nobody but it takes
  -- of its tokens.
  pub data Step (c : Chain L) : Chain L → Type 0 where
    called :
        (auth : Address → Bool) (call : Call)
        → auth self ≡ false
        → Step c (perform tk self auth call c)
    passed : (later : ℕ) → c.now ≤ later → Step c (record c { now = later })
    moved :
        (ledger : L)
        → ((asset : Address) → tk.balance asset c.ledger self ≤ℤ tk.balance asset ledger self)
        → Step c (record c { ledger = ledger })

  pub data Reach (c : Chain L) : Chain L → Type 0 where
    here : Reach c c
    next : {d e : Chain L} → Reach c d → Step d e → Reach c e

-- A chain on which the contract was just deployed.
pub record IsNew {L : Type 0} (c : Chain L) : Type 0 where
  pub no_token : c.token ≡ none
  pub no_id : c.next_id ≡ none
  pub no_vault : (id : ℕ) → c.vaults id ≡ none
  pub no_index : (who : Address) → c.owned who ≡ none
  pub no_event : c.events ≡ []
