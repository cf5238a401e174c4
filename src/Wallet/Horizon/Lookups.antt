-- ===== src/Wallet/Horizon/Lookups.antt =====
-- What `fetchWalletPayments` of src/wallet/horizon.ts returns and asks for.
use stellartimelock_core.Common.{
  ℕ, suc, ◌≤◌, length, String, ◌≡◌, ◌≢◌, refl, ap, Bool, true, false, Option, none, some, List, [],
  ◌∷◌, All, is_some, if◌then◌else◌, str_eq, arith,
}
use stellartimelock_core.Common.Action.{Result, ok, err}
use stellartimelock_core.Common.Dict.{Dict, lookup, insert, lookup-insert, lookup-insert_self}
use stellartimelock_core.Wallet.Horizon.{Numbers, Response}
use stellartimelock_core.Wallet.Horizon.Payments.{
  WalletPaymentKind, WalletPayment, HorizonPaymentOp, HorizonTxRecord, Ledger, Lookup, positive,
  classify, tx_of, remember, memo_for, payment_of, collect, payments_of, fetch_wallet_payments,
}

-- No hash twice
abbrev pub Distinct : List String → Type 0
Distinct [] = Unit
Distinct (h ∷ hs) = All (λ j. j ≢ h) hs × Distinct hs

-- What was asked for is in the cache, and was asked for once.
abbrev Once : {W : Type 0} → Lookup W → Type 0
Once s = All (λ h. is_some (lookup h s.memo_cache) ≡ true) s.asked × Distinct s.asked

still_known :
    (hash : String) (tx : Option HorizonTxRecord) (d : Dict (Option HorizonTxRecord))
    (hs : List String)
    → All (λ h. is_some (lookup h d) ≡ true) hs
    → All (λ h. is_some (lookup h (insert hash tx d)) ≡ true) hs
still_known hash tx d [] q = tt
still_known hash tx d (h ∷ hs) q =
    (ground (arith, lookup-insert hash h tx d, q.0), still_known hash tx d hs q.1)

others :
    (hash : String) (d : Dict (Option HorizonTxRecord)) (hs : List String)
    → lookup hash d ≡ none
    → All (λ h. is_some (lookup h d) ≡ true) hs
    → All (λ j. j ≢ hash) hs
others hash d [] missing q = tt
others hash d (h ∷ hs) missing q = (
  (λ same. ground (arith, ap (λ k. lookup k d) same, missing, q.0)),
  others hash d hs missing q.1,
)

module _ {A E W : Type 0} (num : Numbers A) (ledger : Ledger E W) where
  -- A transaction that was not known is asked for.
  abbrev ask : String → Lookup W → Option HorizonTxRecord × Lookup W
  ask hash s =
      let (r, w) = ledger.transaction hash s.world in
      remember num ledger hash (tx_of num ledger r) (record s { world = w; asked = hash ∷ s.asked })

  ask-Once :
      (hash : String) (s : Lookup W)
      → lookup hash s.memo_cache ≡ none
      → Once s
      → Once (ask hash s).1
  ask-Once hash s missing (known, distinct) =
      let tx = tx_of num ledger (ledger.transaction hash s.world).0 in
      (
        (
          ground (arith, lookup-insert_self hash tx s.memo_cache),
          still_known hash tx s.memo_cache s.asked known,
        ),
        (others hash s.memo_cache s.asked missing known, distinct),
      )

  memo_for-Once : (hash : String) (s : Lookup W) → Once s → Once (memo_for num ledger hash s).1
  unfolding memo_for
  memo_for-Once hash s q = named (str_eq hash "")
    where
      cached :
          (o : Option (Option HorizonTxRecord))
          → lookup hash s.memo_cache ≡ o
          → Once
              (elim o as (λ x. Option HorizonTxRecord × Lookup W) [
                | some tx ↦ (tx, s)
                | none ↦ ask hash s
              ]).1
      cached (some tx) h = q
      cached none h = ask-Once hash s h q

      named :
          (b : Bool)
          → Once
              (if b
                then (none, s)
                else elim (lookup hash s.memo_cache) as (λ x. Option HorizonTxRecord × Lookup W) [
                  | some tx ↦ (tx, s)
                  | none ↦ ask hash s
                ]).1
      named true = q
      named false = cached (lookup hash s.memo_cache) refl

  -- What is known of a payment that is listed.
  abbrev pub IsPositive : WalletPayment A → Type 0
  IsPositive p = positive num p.amount ≡ true

  classify-positive :
      (public_key : String) (op : HorizonPaymentOp) (kind : WalletPaymentKind) (to : String) (a : A)
      → classify num public_key op ≡ some (kind, to, a)
      → positive num a ≡ true
  unfolding classify
  classify-positive public_key op kind to a h = ground arith

  pub collect-Sound :
      (public_key : String) (ops : List HorizonPaymentOp) (s : Lookup W)
      → Once s
      → let (payments, s') = collect num ledger public_key ops s in
        All IsPositive payments × (length payments ≤ length ops) × Once s'
  unfolding collect
  collect-Sound public_key [] s q = (tt, omega arith, q)
  collect-Sound public_key (op ∷ ops) s q =
      go (classify num public_key op) refl (collect-Sound public_key ops s q) (
        collect-Sound public_key ops (memo_for num ledger op.transaction_hash s).1
          (memo_for-Once op.transaction_hash s q))
    where
      Rest : Lookup W → Type 0
      Rest s₀ =
          let (payments, s') = collect num ledger public_key ops s₀ in
          All IsPositive payments × (length payments ≤ length ops) × Once s'

      go :
          (o : Option (WalletPaymentKind × String × A))
          → classify num public_key op ≡ o
          → Rest s
          → Rest (memo_for num ledger op.transaction_hash s).1
          → let (payments, s') = elim o as (λ x. List (WalletPayment A) × Lookup W) [
            | none ↦ collect num ledger public_key ops s
            | some movement ↦
                let (tx, s₁) = memo_for num ledger op.transaction_hash s in
                let (payments, s₂) = collect num ledger public_key ops s₁ in
                (payment_of num ledger op movement tx ∷ payments, s₂)
          ] in
            All IsPositive payments × (length payments ≤ suc (length ops)) × Once s'
      go none h rest later = (rest.0, omega (arith, rest.1), rest.2)
      go (some (kind, to, a)) h rest later =
          ((classify-positive public_key op kind to a h, later.0), omega (arith, later.1), later.2)

  -- What comes of the payments of an account.
  abbrev IsSound : Result E (List (WalletPayment A)) × List String × W → Type 0
  IsSound (ok payments, asked, w) = All IsPositive payments × Distinct asked
  IsSound (err e, asked, w) = asked ≡ []

  payments_of-IsSound :
      (public_key : String) (res : Response E (List HorizonPaymentOp)) (w : W)
      → IsSound (payments_of num ledger public_key res w)
  unfolding payments_of
  payments_of-IsSound public_key res w = go res.ok res.body
    where
      go :
          (b : Bool) (r : Result E (List HorizonPaymentOp))
          → IsSound (
              if b
              then elim r as (λ x. Result E (List (WalletPayment A)) × List String × W) [
                | err e ↦ (err e, [], w)
                | ok ops ↦
                    let (payments, s) =
                      collect num ledger public_key ops
                        (record { world = w; memo_cache = []; asked = [] }) in
                    (ok payments, s.asked, s.world)
              ]
              else (ok [], [], w))
      go false r = (tt, tt)
      go true (err e) = refl
      go true (ok ops) =
          let done =
            collect-Sound public_key ops (record { world = w; memo_cache = []; asked = [] })
              (tt, tt) in
          (done.0, done.2.1)

  -- Each payment that is listed has a finite amount above zero, and no transaction is asked for
  -- twice; if the payments cannot be decoded, none is asked for.
  fetch_wallet_payments-IsSound :
      (public_key : String) (limit : ℕ) (w : W)
      → IsSound (fetch_wallet_payments num ledger public_key limit w)
  unfolding fetch_wallet_payments
  fetch_wallet_payments-IsSound public_key limit w = go (ledger.payments public_key limit w)
    where
      go :
          (o : Result E (Response E (List HorizonPaymentOp)) × W)
          → IsSound (elim o.0 as (λ x. Result E (List (WalletPayment A)) × List String × W) [
            | err e ↦ (ok [], [], o.1)
            | ok res ↦ payments_of num ledger public_key res o.1
          ])
      go (err e, w') = (tt, tt)
      go (ok res, w') = payments_of-IsSound public_key res w'
