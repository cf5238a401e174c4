-- ===== src/Wallet/Horizon/Listed.antt =====
-- Which payments `fetchWalletPayments` of src/wallet/horizon.ts lists, and with which memo.
use stellartimelock_core.Common.{String, ◌≡◌, Option, none, some, List, [], ◌∷◌}
use stellartimelock_core.Wallet.Horizon.{Numbers}
use stellartimelock_core.Wallet.Horizon.Payments.{
  WalletPayment, HorizonPaymentOp, HorizonTxRecord, Ledger, Lookup, classify, payment_of,
}
use stellartimelock_core.Wallet.Horizon.Memos.{known, Grows, Sourced}

module _ {A E W : Type 0} (num : Numbers A) (ledger : Ledger E W) where
  -- The payments among the operations, in their order, with the records that `tx` has of their
  -- transactions.
  abbrev pub payments_among :
      String → (String → Option HorizonTxRecord) → List HorizonPaymentOp → List (WalletPayment A)
  payments_among public_key tx [] = []
  payments_among public_key tx (op ∷ ops) = elim (classify num public_key op) [
    | none ↦ payments_among public_key tx ops
    | some movement ↦
        payment_of num ledger op movement (tx op.transaction_hash)
        ∷ payments_among public_key tx ops
  ]

  abbrev Listed :
      String → List HorizonPaymentOp → Lookup W → List (WalletPayment A) × Lookup W → Type 0
  Listed public_key ops s (payments, s') =
      (payments ≡ payments_among public_key (known s'.memo_cache) ops)
      × Grows s.memo_cache s'.memo_cache
      × Sourced num ledger s'.memo_cache
