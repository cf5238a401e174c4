-- ===== src/Contract/Calls.antt =====
-- The calls of contracts/xlm_vault/src/lib.rs by name, and the host's part in one: what a call that
-- fails has written is taken back.
pub mod Effective
use stellartimelock_core.Common.{Bool}
use stellartimelock_core.Common.Action.{Result, ok, err}
use stellartimelock_core.Contract
use stellartimelock_core.Contract.Host.{Failure, Address, Chain, Token, settle}
use stellartimelock_core.Contract.Call.{Call, init, create_vault, deposit, extend_lock, withdraw}

abbrev pub discard : {A C : Type 0} → Result Failure A × C → Result Failure (Unit {0}) × C
discard (ok a, c) = (ok tt, c)
discard (err e, c) = (err e, c)

module _ {L : Type 0} (tk : Token L) (self : Address) (auth : Address → Bool) where
  -- A call and how it ends, before the host takes back what a failure has written.
  unfoldable pub attempt : Call → Chain L → Result Failure (Unit {0}) × Chain L
  attempt (init token) c = discard (Contract.init tk self token c)
  attempt (create_vault owner name amount unlock) c =
      discard (Contract.create_vault tk self auth owner name amount unlock c)
  attempt (deposit caller id amount) c = discard (Contract.deposit tk self auth caller id amount c)
  attempt (extend_lock caller id seconds) c =
      discard (Contract.extend_lock tk self auth caller id seconds c)
  attempt (withdraw caller id) c = discard (Contract.withdraw tk self auth caller id c)

  -- The chain after a call: what a call that fails has written is taken back.
  unfoldable pub perform : Call → Chain L → Chain L
  perform call c = settle c (attempt call c)
