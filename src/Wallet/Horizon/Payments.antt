-- ===== src/Wallet/Horizon/Payments.antt =====
-- `fetchWalletPayments` of src/wallet/horizon.ts. The state holds the memo cache of the call and the
-- hashes that were asked for.
use stellartimelock_core.Common.{
  ℕ, String, Bool, false, not, ◌&&◌, Option, none, some, List, [], ◌∷◌, or_else, if◌then◌else◌,
  str_eq,
}
use stellartimelock_core.Common.Action.{Result, ok, err, Action}
use stellartimelock_core.Common.Dict.{Dict, lookup, insert}
use stellartimelock_core.Common.Int.{ℤ, pos}
use stellartimelock_core.Wallet.Horizon.{Numbers, Response}

pub data WalletPaymentKind : Type 0 where
  send receive : WalletPaymentKind

-- A timestamp of a date that does not parse is `none`.
pub record WalletPayment (A : Type 0) : Type 0 where
  pub id : String
  pub tx_hash : String
  pub created_at : String
  pub timestamp : Option ℤ
  pub kind : WalletPaymentKind
  pub amount : A
  pub counterparty : String
  pub memo : String
  pub memo_type : String

pub record HorizonPaymentOp : Type 0 where
  pub id : String
  pub transaction_hash : String
  pub created_at : Option String
  pub type : String
  pub asset_type : Option String
  pub amount : Option String
  pub from : Option String
  pub to : Option String
  pub starting_balance : Option String
  pub funder : Option String
  pub account : Option String

pub record HorizonTxRecord : Type 0 where
  pub memo : Option String
  pub memo_type : Option String

-- `fetch` of the URLs of the active deployment. The payments of a body without records are [].
pub record Ledger (E W : Type 0) : Type 0 where
  pub payments : String → ℕ → Action E W (Response E (List HorizonPaymentOp))
  pub transaction : String → Action E W (Response E HorizonTxRecord)
  -- Math.floor(new Date(s).getTime() / 1000)
  pub unix_of : String → Option ℤ

pub record Lookup (W : Type 0) : Type 0 where
  pub world : W
  pub memo_cache : Dict (Option HorizonTxRecord)
  pub asked : List String

-- An optional field that is `=== s`
abbrev pub is : Option String → String → Bool
is none s = false
is (some t) s = str_eq t s

module _ {A : Type 0} (num : Numbers A) where
  abbrev pub positive : A → Bool
  positive a = num.is_finite a && not (num.at_most_zero a)

  -- Who is at which end: the sender's and the receiver's field.
  abbrev pub sides : String → Option String → Option String → Option (WalletPaymentKind × String)
  sides public_key source target =
      if is source public_key
      then some (send, or_else target "")
      else if is target public_key
      then some (receive, or_else source "")
      else none

  abbrev with_amount :
      A → Option (WalletPaymentKind × String) → Option (WalletPaymentKind × String × A)
  with_amount a none = none
  with_amount a (some (kind, counterparty)) =
      if positive a then some (kind, counterparty, a) else none

  -- What the loop makes of an operation, if it does not skip it.
  unfoldable pub classify : String → HorizonPaymentOp → Option (WalletPaymentKind × String × A)
  classify public_key op =
      if str_eq op.type "payment"
      then if is op.asset_type "native"
        then with_amount (num.parse_float (or_else op.amount "0")) (sides public_key op.from op.to)
        else none
      else if str_eq op.type "create_account"
      then with_amount (num.parse_float (or_else op.starting_balance "0"))
          (sides public_key op.funder op.account)
      else none

  module _ {E W : Type 0} (ledger : Ledger E W) where
    abbrev pub remember :
        String → Option HorizonTxRecord → Lookup W → Option HorizonTxRecord × Lookup W
    remember hash tx s = (tx, record s { memo_cache = insert hash tx s.memo_cache })

    abbrev pub tx_of : Result E (Response E HorizonTxRecord) → Option HorizonTxRecord
    tx_of (err e) = none
    tx_of (ok res) = if res.ok then elim res.body [ ok t ↦ some t | err e ↦ none ] else none

    unfoldable pub memo_for : String → Lookup W → Option HorizonTxRecord × Lookup W
    memo_for hash s = if str_eq hash "" then (none, s) else elim (lookup hash s.memo_cache) [
      | some tx ↦ (tx, s)
      | none ↦
          let (r, w) = ledger.transaction hash s.world in
          remember hash (tx_of r) (record s { world = w; asked = hash ∷ s.asked })
    ]

    abbrev memo_of : Option HorizonTxRecord → String
    memo_of none = ""
    memo_of (some t) = or_else t.memo ""

    abbrev memo_type_of : Option HorizonTxRecord → String
    memo_type_of none = ""
    memo_type_of (some t) = or_else t.memo_type ""

    abbrev pub payment_of :
        HorizonPaymentOp → WalletPaymentKind × String × A → Option HorizonTxRecord → WalletPayment A
    payment_of op (kind, counterparty, amount) tx =
        let created = or_else op.created_at "" in
        record {
          id = op.id;
          tx_hash = op.transaction_hash;
          created_at = created;
          timestamp = if str_eq created "" then some (pos 0) else ledger.unix_of created;
          kind = kind;
          amount = amount;
          counterparty = counterparty;
          memo = memo_of tx;
          memo_type = memo_type_of tx;
        }

    unfoldable pub collect :
        String → List HorizonPaymentOp → Lookup W → List (WalletPayment A) × Lookup W
    unfolding classify memo_for
    collect public_key [] s = ([], s)
    collect public_key (op ∷ ops) s = elim (classify public_key op) [
      | none ↦ collect public_key ops s
      | some movement ↦
          let (tx, s') = memo_for op.transaction_hash s in
          let (payments, s'') = collect public_key ops s' in
          (payment_of op movement tx ∷ payments, s'')
    ]

    unfoldable pub payments_of :
        String
        → Response E (List HorizonPaymentOp)
        → W
        → Result E (List (WalletPayment A)) × List String × W
    unfolding collect
    payments_of public_key res w =
        if res.ok
        then elim res.body [
          | err e ↦ (err e, [], w)
          | ok ops ↦
              let (payments, s) =
                collect public_key ops (record { world = w; memo_cache = []; asked = [] }) in
              (ok payments, s.asked, s.world)
        ]
        else (ok [], [], w)

    -- The payments, the hashes that were asked for, and the world.
    unfoldable pub fetch_wallet_payments :
        String → ℕ → W → Result E (List (WalletPayment A)) × List String × W
    unfolding payments_of
    fetch_wallet_payments public_key limit w =
        let (r, w') = ledger.payments public_key limit w in
        elim r [ err e ↦ (ok [], [], w') | ok res ↦ payments_of public_key res w' ]
