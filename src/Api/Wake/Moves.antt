-- ===== src/Api/Wake/Moves.antt =====
-- What a step of `wakeUpVault` (src/api/soroban-client.ts) does to the client: the transactions it
-- confirms, or how far it came before it threw.
use stellartimelock_core.Common.{
  ℕ, ◌+◌, ◌≤◌, String, ◌≡◌, ap, ◌∙◌, List, [], ◌∷◌, ◌++◌, length, length-append, arith,
}
use stellartimelock_core.Common.Action.{Result, ok, err, Action, ◌>>=◌}
use stellartimelock_core.Api.Errors.{Thrown}
use stellartimelock_core.Api.Invoke.{Client, TxReceipt, succeeded}
use mathlib.Core.List.{append_assoc}

-- One receipt of success for each hash, in their order.
abbrev pub Confirms : String → List TxReceipt → List String → Type 0
Confirms method [] [] = Unit
Confirms method (r ∷ rs) (h ∷ hs) =
    (r.method ≡ method) × (r.tx_hash ≡ h) × (r.status ≡ succeeded) × Confirms method rs hs
Confirms method _ _ = ⊥

Confirms-append :
    (method : String) (rs ss : List TxReceipt) (hs is : List String)
    → Confirms method rs hs
    → Confirms method ss is
    → Confirms method (rs ++ ss) (hs ++ is)
Confirms-append method [] ss [] is p q = q
Confirms-append method (r ∷ rs) ss (h ∷ hs) is (m, t, s, p) q =
    (m, t, s, Confirms-append method rs ss hs is p q)
Confirms-append method [] ss (h ∷ hs) is p q = absurd p
Confirms-append method (r ∷ rs) ss [] is p q = absurd p

module _ {W : Type 0} (method : String) where
  -- The transactions of these hashes are all that was sent, and each is confirmed; no signer gained
  -- or lost its secret.
  pub record Confirmed (hs : List String) (c c' : Client W) : Type 0 where
    pub receipts : List TxReceipt
    pub emitted : c'.receipts ≡ c.receipts ++ receipts
    pub confirm : Confirms method receipts hs
    pub live_signers : c'.live_signers ≡ c.live_signers
    pub sends : c'.sends ≡ c.sends + length hs

  -- At most `k` calls of `sendTransaction`; no signer gained or lost its secret.
  pub record Stopped (k : ℕ) (c c' : Client W) : Type 0 where
    pub live_signers : c'.live_signers ≡ c.live_signers
    pub sends : c'.sends ≤ c.sends + k

  pub Confirmed-trans :
      {hs is : List String} {a b c : Client W}
      → Confirmed hs a b
      → Confirmed is b c
      → Confirmed (hs ++ is) a c
  Confirmed-trans {hs = hs} {is = is} p q = record {
    receipts = p.receipts ++ q.receipts;
    emitted =
        q.emitted ∙ ap (λ l. l ++ q.receipts) p.emitted ∙ append_assoc _ p.receipts q.receipts;
    confirm = Confirms-append method _ _ _ _ p.confirm q.confirm;
    live_signers = q.live_signers ∙ p.live_signers;
    sends = omega (arith, length-append hs is, p.sends, q.sends);
  }

  pub Stopped-after :
      {hs : List String} {k : ℕ} {a b c : Client W}
      → Confirmed hs a b
      → Stopped k b c
      → Stopped (length hs + k) a c
  Stopped-after {hs = hs} p q = record {
    live_signers = q.live_signers ∙ p.live_signers;
    sends = omega (arith, p.sends, q.sends);
  }

-- What holds after a call, of its result or of the state it threw in.
abbrev pub Post : {S A : Type 0} → (A → S → Type 0) → (S → Type 0) → Result Thrown A × S → Type 0
Post G H (ok a, s) = G a s
Post G H (err e, s) = H s

module _ {S A B : Type 0} (F : A → S → Type 0) (G : B → S → Type 0) (H : S → Type 0)
    (f : A → Action Thrown S B) (next : (a : A) (t : S) → F a t → Post G H (f a t)) where
  after :
      (o : Result Thrown A × S)
      → Post F H o
      → Post G H (elim o.0 [ ok a ↦ f a o.1 | err e ↦ (err e, o.1) ])
  after (ok a, t) q = next a t q
  after (err e, t) q = q

  pub Post-bind : (m : Action Thrown S A) (s : S) → Post F H (m s) → Post G H ((m >>= f) s)
  Post-bind m s p = after (m s) p
