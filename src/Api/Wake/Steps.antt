-- ===== src/Api/Wake/Steps.antt =====
-- What each step of `wakeUpVault` (src/api/soroban-client.ts) keeps of the client it began with.
use stellartimelock_core.Common.{
  ℕ, ◌+◌, ◌≤◌, String, ap, ◌∙◌, inl, inr, List, [], ◌∷◌, ◌++◌, length, arith,
}
use stellartimelock_core.Common.Action.{Result, ok, err, Action, pure, ◌>>=◌}
use stellartimelock_core.Api.Errors.{Fault, Thrown, soroban_sign_error, soroban, fault}
use stellartimelock_core.Api.Network.{Network}
use stellartimelock_core.Api.Invoke.{
  Client, InvokeResult, catching, reading, poll_from, poll_attempts, ReceiptStatus, succeeded,
}
use stellartimelock_core.Api.Invoke.Outcome.{Quiet, IsSilent, HasEmitted}
use stellartimelock_core.Api.Invoke.Phases.{Settles, send_phase-Quiet, poll_from-Settles}
use stellartimelock_core.Api.Wake.{Restoring, bare}
use stellartimelock_core.Api.Wake.Submit.{sign_step, submit_signed, submit_one}
use stellartimelock_core.Api.Wake.Moves.{Confirmed, Stopped, Confirmed-trans, Post, Post-bind}

module _ (net : Network) (method : String) (k : ℕ) where
  open net use {World, Transaction, Signer, current_rpc_url, sign}

  -- Nothing but the world changed.
  pub still :
      {hs : List String} (c₀ c : Client World) (w : World)
      → Confirmed method hs c₀ c
      → Confirmed method hs c₀ (record c { world = w })
  still c₀ c w p = record {
    receipts = p.receipts;
    emitted = p.emitted;
    confirm = p.confirm;
    live_signers = p.live_signers;
    sends = p.sends;
  }

  -- A step stops here with no more than was confirmed sent.
  pub stopped :
      {hs : List String} (c₀ c : Client World)
      → Confirmed method hs c₀ c
      → length hs ≤ k
      → Stopped method k c₀ c
  stopped c₀ c p h = record { live_signers = p.live_signers; sends = omega (arith, p.sends, h) }

  module _ (hs : List String) (c₀ c : Client World) (p : Confirmed method hs c₀ c)
      (h : length hs ≤ k) where
    pub bare-Post :
        {A : Type 0} (sdk : Restoring net) (owner : String) (m : Action Fault World A)
        → Post (λ a. Confirmed method hs c₀) (Stopped method k c₀) (bare net sdk owner m c)
    bare-Post {A = A} sdk owner m = go (m c.world)
      where
        go :
            (o : Result Fault _ × World)
            → Post {A = A}
                (λ a. Confirmed method hs c₀)
                (Stopped method k c₀)
                (elim o.0 [
                  | ok a ↦ (ok a, record c { world = o.1 })
                  | err e ↦ (err (fault e), record c { world = o.1 })
                ])
        go (ok a, w) = still c₀ c w p
        go (err e, w) = stopped c₀ _ (still c₀ c w p) h

    pub Quiet-Post :
        {A : Type 0} (o : Result Thrown A × Client World)
        → Quiet method 0 c o
        → Post (λ a. Confirmed method hs c₀) (Stopped method k c₀) o
    Quiet-Post (ok a, c₁) q = record {
      receipts = p.receipts;
      emitted = q.receipts ∙ p.emitted;
      confirm = p.confirm;
      live_signers = q.live_signers ∙ p.live_signers;
      sends = omega (arith, p.sends, q.sends);
    }
    Quiet-Post (err (soroban e), c₁) q = record {
      live_signers = q.1.live_signers ∙ p.live_signers;
      sends = omega (arith, p.sends, q.1.sends, h);
    }
    Quiet-Post (err (fault e), c₁) q = absurd q

    -- A transaction that was sent, and confirmed.
    sent :
        {hash : String} {c₁ c₂ : Client World} {n : ℕ}
        → IsSilent 1 c c₁
        → HasEmitted method hash succeeded n 0 c₁ c₂
        → Confirmed method (hs ++ hash ∷ []) c₀ c₂
    sent q e = Confirmed-trans method p (record {
      receipts = e.receipt ∷ [];
      emitted = e.emitted ∙ ap (λ l. l ++ e.receipt ∷ []) q.receipts;
      confirm = (e.same_method, e.same_hash, e.same_status, tt);
      live_signers = e.live_signers ∙ q.live_signers;
      sends = omega (arith, e.sends, q.sends);
    })

    unsure :
        {hash : String} {status : ReceiptStatus} {c₁ c₂ : Client World} {n : ℕ}
        → length hs + 1 ≤ k
        → IsSilent 1 c c₁
        → HasEmitted method hash status n 0 c₁ c₂
        → Stopped method k c₀ c₂
    unsure l q e = record {
      live_signers = e.live_signers ∙ q.live_signers ∙ p.live_signers;
      sends = omega (arith, p.sends, e.sends, q.sends, l);
    }

    polled :
        (hash : String) (c₁ : Client World) (o : Result Thrown (InvokeResult net) × Client World)
        → length hs + 1 ≤ k
        → IsSilent 1 c c₁
        → Settles net method hash poll_attempts 0 c₁ o
        → Post (λ r. Confirmed method (hs ++ hash ∷ []) c₀) (Stopped method k c₀) o
    polled hash c₁ (ok r, c') l q s = sent q s.0
    polled hash c₁ (err (soroban e), c') l q (inl s) = unsure l q s.1
    polled hash c₁ (err (soroban e), c') l q (inr s) = unsure l q s.1
    polled hash c₁ (err (fault f), c') l q s = absurd s

    pub submit_signed-Post :
        (tx : Transaction)
        → length hs + 1 ≤ k
        → Post
            (λ hash. Confirmed method (hs ++ hash ∷ []) c₀)
            (Stopped method k c₀)
            (submit_signed net method tx c)
    unfolding submit_signed
    submit_signed-Post tx l = go _ (send_phase-Quiet net method c (current_rpc_url c.world) tx)
      where
        go :
            (o : Result Thrown String × Client World)
            → Quiet method 1 c o
            → Post
                (λ hash. Confirmed method (hs ++ hash ∷ []) c₀)
                (Stopped method k c₀)
                (elim o.0 [
                  | ok hash ↦
                      (do
                        result ← poll_from net current_rpc_url method hash poll_attempts
                        pure hash)
                        o.1
                  | err e ↦ (err e, o.1)
                ])
        go (ok hash, c₁) q =
            Post-bind (λ r. Confirmed method (hs ++ hash ∷ []) c₀)
              (λ h. Confirmed method (hs ++ h ∷ []) c₀) (Stopped method k c₀) (λ r. pure hash)
              (λ r t conf. conf) (poll_from net current_rpc_url method hash poll_attempts) c₁
              (polled hash c₁ _ l q
                (poll_from-Settles net current_rpc_url method hash poll_attempts c₁))
        go (err (soroban e), c₁) q = record {
          live_signers = q.1.live_signers ∙ p.live_signers;
          sends = omega (arith, p.sends, q.1.sends, l);
        }
        go (err (fault e), c₁) q = absurd q

    pub submit_one-Post :
        (signer : Signer) (tx : Transaction)
        → length hs + 1 ≤ k
        → Post
            (λ hash. Confirmed method (hs ++ hash ∷ []) c₀)
            (Stopped method k c₀)
            (submit_one net method signer tx c)
    unfolding submit_one sign_step
    submit_one-Post signer tx l = go (sign tx signer)
      where
        go :
            (r : Result Fault Transaction)
            → Post
                (λ hash. Confirmed method (hs ++ hash ∷ []) c₀)
                (Stopped method k c₀)
                ((do
                  signed ← catching (soroban_sign_error method) (reading (λ w. r))
                  submit_signed net method signed)
                  c)
        go (ok signed) = submit_signed-Post signed l
        go (err e) = stopped c₀ c p h
