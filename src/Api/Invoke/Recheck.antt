-- ===== src/Api/Invoke/Recheck.antt =====
-- `recheckTransaction` of src/api/soroban-client.ts: one more look at a transaction.
use stellartimelock_core.Common.{ℕ, String, Option, none}
use stellartimelock_core.Common.Action.{ok, err, Action}
use stellartimelock_core.Api.Errors.{Thrown, soroban, poll, soroban_network_error}
use stellartimelock_core.Api.Network.{Network, not_found, success, failed}
use stellartimelock_core.Api.Invoke.{
  Client, ReceiptStatus, succeeded, reverted, unresolved, receipt_of, emit_receipt, asked,
}

module _ (net : Network) where
  open net use {World, current_rpc_url, get_transaction}

  -- The status and the ledger; a receipt is emitted only for a final status.
  pub recheck_transaction :
      String → String → Action Thrown (Client World) (ReceiptStatus × Option ℕ)
  recheck_transaction method hash c =
      let (r, w) = get_transaction (current_rpc_url c.world) hash c.world in
      let c' = asked net w c in
      elim r [
        | err e ↦ (err (soroban (soroban_network_error method poll e)), c')
        | ok status ↦ elim status [
          | not_found ↦ (ok (unresolved, none), c')
          | success ledger v ↦ (
            ok (succeeded, ledger),
            emit_receipt net (receipt_of net method hash ledger succeeded w) c',
          )
          | failed ↦ (
            ok (reverted, none),
            emit_receipt net (receipt_of net method hash none reverted w) c',
          )
        ]
      ]
