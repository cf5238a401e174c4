-- ===== src/Api/Invoke/Outcome.antt =====
-- What a step of the write pipeline of src/api/soroban-client.ts does to the client.
use stellartimelock_core.Common.{ℕ, ◌+◌, ◌≤◌, String, ◌≡◌, [], ◌∷◌, ◌++◌, arith, ap, ◌∙◌}
use stellartimelock_core.Common.Action.{Result, ok, err, Action, ◌>>=◌}
use stellartimelock_core.Api.Errors.{SorobanError, Thrown, soroban, fault}
use stellartimelock_core.Api.Invoke.{Client, TxReceipt, ReceiptStatus}

module _ {W : Type 0} where
  -- No receipt, no poll, no signer left with its secret, and `k` calls of `sendTransaction`.
  pub record IsSilent (k : ℕ) (c c' : Client W) : Type 0 where
    pub receipts : c'.receipts ≡ c.receipts
    pub live_signers : c'.live_signers ≡ c.live_signers
    pub polls : c'.polls ≡ c.polls
    pub sends : c'.sends ≡ c.sends + k

  -- One receipt, for this transaction and with this status, after at most `n` polls; no signer left
  -- with its secret, and `k` calls of `sendTransaction`.
  pub record HasEmitted (method hash : String) (status : ReceiptStatus) (n k : ℕ) (c c' : Client W)
      : Type 0 where
    pub receipt : TxReceipt
    pub emitted : c'.receipts ≡ c.receipts ++ receipt ∷ []
    pub same_method : receipt.method ≡ method
    pub same_hash : receipt.tx_hash ≡ hash
    pub same_status : receipt.status ≡ status
    pub live_signers : c'.live_signers ≡ c.live_signers
    pub polls : c'.polls ≤ c.polls + n
    pub sends : c'.sends ≡ c.sends + k

  pub IsSilent-trans :
      {j k : ℕ} {a b c : Client W} → IsSilent j a b → IsSilent k b c → IsSilent (j + k) a c
  IsSilent-trans p q = record {
    receipts = q.receipts ∙ p.receipts;
    live_signers = q.live_signers ∙ p.live_signers;
    polls = q.polls ∙ p.polls;
    sends = omega arith;
  }

  unfoldable pub HasEmitted-after :
      {method hash : String} {status : ReceiptStatus} {n j k : ℕ} {a b c : Client W}
      → IsSilent j a b
      → HasEmitted method hash status n k b c
      → HasEmitted method hash status n (j + k) a c
  HasEmitted-after p q = record {
    receipt = q.receipt;
    emitted = q.emitted ∙ ap (λ l. l ++ q.receipt ∷ []) p.receipts;
    same_method = q.same_method;
    same_hash = q.same_hash;
    same_status = q.same_status;
    live_signers = q.live_signers ∙ p.live_signers;
    polls = omega arith;
    sends = omega arith;
  }

  -- A step that is silent however it ends, and throws only a SorobanError for the method.
  abbrev pub Quiet : {A : Type 0} → String → ℕ → Client W → Result Thrown A × Client W → Type 0
  Quiet method k c (ok a, c') = IsSilent k c c'
  Quiet method k c (err (soroban e), c') = (e.method ≡ method) × IsSilent k c c'
  Quiet method k c (err (fault f), c') = ⊥

  -- What holds of the end of a quiet step followed by `f`.
  pub Quiet-bind :
      {A B : Type 0} (G : Result Thrown B × Client W → Type 0) (method : String) (k : ℕ)
      (c : Client W) (m : Action Thrown (Client W) A) (f : A → Action Thrown (Client W) B)
      → Quiet method k c (m c)
      → ((a : A) (c' : Client W) → IsSilent k c c' → G (f a c'))
      → ((e : SorobanError) (c' : Client W)
          → e.method ≡ method
          → IsSilent k c c'
          → G (err (soroban e), c'))
      → G ((m >>= f) c)
  Quiet-bind G method k c m f quiet next stop = go (m c) quiet
    where
      go :
          (o : Result Thrown _ × Client W)
          → Quiet method k c o
          → G (elim o.0 [ ok a ↦ f a o.1 | err e ↦ (err e, o.1) ])
      go (ok a, c') q = next a c' q
      go (err (soroban e), c') q = stop e c' q.0 q.1
      go (err (fault x), c') q = absurd q
