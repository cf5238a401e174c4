-- ===== src/Wallet/Horizon/Memos.antt =====
-- What the memo cache of `fetchWalletPayments` of src/wallet/horizon.ts has of a transaction.
use stellartimelock_core.Common.{
  String, ◌≡◌, refl, ap, ◌∙◌, inl, inr, ◌⊎◌, true, false, Option, none, some, [], Option-cases,
  Bool-cases, str_eq_iff, or_else, if◌then◌else◌, str_eq, arith,
}
use stellartimelock_core.Common.Dict.{Dict, lookup, insert, lookup-insert, lookup-insert_self}
use stellartimelock_core.Wallet.Horizon.{Numbers}
use stellartimelock_core.Wallet.Horizon.Payments.{HorizonTxRecord, Ledger, Lookup, tx_of, memo_for}

abbrev pub Cache : Type 0
Cache = Dict (Option HorizonTxRecord)

-- What the cache has of a transaction; the empty hash names none.
abbrev pub known : Cache → String → Option HorizonTxRecord
known d hash = if str_eq hash "" then none else or_else (lookup hash d) none

-- Nothing that is in the cache is changed.
abbrev pub Grows : Cache → Cache → Type 0
Grows d d' =
    (hash : String) (tx : Option HorizonTxRecord)
    → lookup hash d ≡ some tx
    → lookup hash d' ≡ some tx

insert-Grows :
    (hash : String) (tx : Option HorizonTxRecord) (d : Cache)
    → lookup hash d ≡ none
    → Grows d (insert hash tx d)
insert-Grows hash tx d missing other known_tx h = elim (Bool-cases (str_eq hash other)) [
  | inl e ↦ ground (arith, ap (λ k. lookup k d) ((str_eq_iff hash other).0 e), missing, h)
  | inr e ↦ ground (arith, lookup-insert hash other tx d)
]

module _ {A E W : Type 0} (num : Numbers A) (ledger : Ledger E W) where
  -- A record is one that Horizon gave for that hash.
  abbrev pub IsOf : String → Option HorizonTxRecord → Type 0
  IsOf hash tx = (w : W) × (tx ≡ tx_of num ledger (ledger.transaction hash w).0)

  abbrev pub Sourced : Cache → Type 0
  Sourced d = (hash : String) (tx : Option HorizonTxRecord) → lookup hash d ≡ some tx → IsOf hash tx

  pub nothing_known : Sourced []
  unfolding lookup
  nothing_known hash tx h = absurd (cc h)

  insert-Sourced :
      (hash : String) (w : W) (d : Cache)
      → Sourced d
      → Sourced (insert hash (tx_of num ledger (ledger.transaction hash w).0) d)
  insert-Sourced hash w d q other tx h = elim (Bool-cases (str_eq hash other)) [
    | inl e ↦ (
      w,
      ground (arith, lookup-insert hash other (tx_of num ledger (ledger.transaction hash w).0) d)
          ∙ ap (λ k. tx_of num ledger (ledger.transaction k w).0) ((str_eq_iff hash other).0 e),
    )
    | inr e ↦ q other tx (
        ground (arith, lookup-insert hash other (tx_of num ledger (ledger.transaction hash w).0) d))
  ]

  -- The record that a lookup returns is in the cache then.
  abbrev pub Looked : String → Lookup W → Option HorizonTxRecord × Lookup W → Type 0
  Looked hash s (tx, s') =
      ((str_eq hash "" ≡ true) × (tx ≡ none)
        ⊎ (str_eq hash "" ≡ false) × (lookup hash s'.memo_cache ≡ some tx))
      × Grows s.memo_cache s'.memo_cache
      × Sourced s'.memo_cache

  pub memo_for-Looked :
      (hash : String) (s : Lookup W)
      → Sourced s.memo_cache
      → Looked hash s (memo_for num ledger hash s)
  unfolding memo_for
  memo_for-Looked hash s q = elim (Bool-cases (str_eq hash "")) [
    | inl e ↦ rw e (inl (refl, refl), (λ k tx h. h), q)
    | inr e ↦ elim (Option-cases (lookup hash s.memo_cache)) [
      | inl h ↦
          rw (e, h)
            (
              inr (refl, lookup-insert_self hash _ s.memo_cache),
              insert-Grows hash _ s.memo_cache h,
              insert-Sourced hash s.world s.memo_cache q,
            )
      | inr (tx, h) ↦ rw (e, h) (inr (refl, h), (λ k tx' h'. h'), q)
    ]
  ]

  pub known-Looked :
      (hash : String) (s s' : Lookup W) (tx : Option HorizonTxRecord) (later : Cache)
      → Looked hash s (tx, s')
      → Grows s'.memo_cache later
      → tx ≡ known later hash
  known-Looked hash s s' tx later (inl (e, none_then), kept, q) grows = rw e none_then
  known-Looked hash s s' tx later (inr (e, there), kept, q) grows = rw (e, grows hash tx there) refl

  pub known-IsOf :
      (d : Cache) (hash : String) → Sourced d → (known d hash ≡ none) ⊎ IsOf hash (known d hash)
  known-IsOf d hash q = elim (Bool-cases (str_eq hash "")) [
    | inl e ↦ inl (rw e refl)
    | inr e ↦ elim (Option-cases (lookup hash d)) [
      | inl h ↦ inl (rw (e, h) refl)
      | inr (tx, h) ↦ inr (rw (e, h) (q hash tx h))
    ]
  ]
