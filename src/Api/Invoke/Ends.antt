-- ===== src/Api/Invoke/Ends.antt =====
-- How a run of `invokeContract` (src/api/soroban-client.ts) can end.
use stellartimelock_core.Common.{String, false, ◌≡◌, ◌⊎◌, inl, inr, some, List}
use stellartimelock_core.Common.Action.{Result, ok, err, Action, ◌>>=◌}
use stellartimelock_core.Api.Errors.{
  Thrown, soroban, fault, soroban_on_chain_error, soroban_poll_timeout_error,
}
use stellartimelock_core.Api.Network.{Network, Simulation}
use stellartimelock_core.Api.Invoke.{
  Client, succeeded, reverted, unresolved, InvokeResult, build_phase, simulate_phase,
  assemble_phase, sign_phase, send_phase, poll_phase, invoke_contract, from_send, from_sign,
  from_assemble, from_simulate, poll_attempts,
}
use stellartimelock_core.Api.Invoke.Outcome.{
  IsSilent, HasEmitted, IsSilent-trans, HasEmitted-after, Quiet, Quiet-bind,
}
use stellartimelock_core.Api.Invoke.Phases.{
  Settles, build_phase-Quiet, simulate_phase-Quiet, assemble_phase-Quiet, sign_phase-Quiet,
  send_phase-Quiet, poll_phase-Settles,
}

module _ (net : Network) where
  open net use {World, Account, Transaction, ScVal, Footprint}

  -- The end of a write: a result with its receipt; or a SorobanError for the method, either with no
  -- receipt and no poll, after at most one `sendTransaction`, or, not to be retried, with a receipt
  -- for the transaction whose hash it carries.
  abbrev pub Ends : String → Client World → Result Thrown (InvokeResult net) × Client World → Type 0
  Ends method c (ok r, c') =
      (hash : String) × (h : HasEmitted method hash succeeded poll_attempts 1 c c') × (h.receipt
        ≡ r.receipt)
  Ends method c (err (soroban e), c') =
      (e.method ≡ method)
      × (IsSilent 0 c c'
          ⊎ IsSilent 1 c c'
          ⊎ ((hash : String) × (e.tx_hash ≡ some hash)
              × (e.retryable ≡ false)
              × (HasEmitted method hash reverted poll_attempts 1 c c'
                  ⊎ HasEmitted method hash unresolved poll_attempts 1 c c')))
  Ends method c (err (fault f), c') = ⊥

  Settles-Ends :
      (method hash : String) (c c₁ : Client World)
      (o : Result Thrown (InvokeResult net) × Client World)
      → IsSilent 1 c c₁
      → Settles net method hash poll_attempts 0 c₁ o
      → Ends method c o
  unfolding soroban_on_chain_error soroban_poll_timeout_error HasEmitted-after
  Settles-Ends method hash c c₁ (ok r, c') q (h, same) = (hash, HasEmitted-after q h, same)
  Settles-Ends method hash c c₁ (err (soroban e), c') q (inl (is, h)) =
      (cc, inr (inr (hash, cc, cc, inl (HasEmitted-after q h))))
  Settles-Ends method hash c c₁ (err (soroban e), c') q (inr (is, h)) =
      (cc, inr (inr (hash, cc, cc, inr (HasEmitted-after q h))))
  Settles-Ends method hash c c₁ (err (fault f), c') q s = s

  -- Nothing was sent or emitted before.
  Ends-after :
      (method : String) (c c₁ : Client World) (o : Result Thrown (InvokeResult net) × Client World)
      → IsSilent 0 c c₁
      → Ends method c₁ o
      → Ends method c o
  unfolding HasEmitted-after
  Ends-after method c c₁ (ok r, c') q (hash, h, same) = (hash, HasEmitted-after q h, same)
  Ends-after method c c₁ (err (soroban e), c') q (m, inl p) = (m, inl (IsSilent-trans q p))
  Ends-after method c c₁ (err (soroban e), c') q (m, inr (inl p)) =
      (m, inr (inl (IsSilent-trans q p)))
  Ends-after method c c₁ (err (soroban e), c') q (m, inr (inr (hash, t, r, inl h))) =
      (m, inr (inr (hash, t, r, inl (HasEmitted-after q h))))
  Ends-after method c c₁ (err (soroban e), c') q (m, inr (inr (hash, t, r, inr h))) =
      (m, inr (inr (hash, t, r, inr (HasEmitted-after q h))))
  Ends-after method c c₁ (err (fault f), c') q h = h

  -- A quiet step, and an end of what follows from wherever the step leaves the client.
  Ends-bind :
      {A : Type 0} (method : String) (c : Client World) (m : Action Thrown (Client World) A)
      (f : A → Action Thrown (Client World) (InvokeResult net))
      → Quiet method 0 c (m c)
      → ((a : A) (c₁ : Client World) → Ends method c₁ (f a c₁))
      → Ends method c ((m >>= f) c)
  Ends-bind method c m f quiet next =
      Quiet-bind (Ends method c) method 0 c m f quiet
        (λ a c₁ q. Ends-after method c c₁ (f a c₁) q (next a c₁)) (λ e c₁ same q. (same, inl q))

  module _ (server method : String) where
    from_send-Ends :
        (signed : Transaction) (c : Client World)
        → Ends method c (from_send net server method signed c)
    unfolding from_send
    from_send-Ends signed c =
        Quiet-bind (Ends method c) method 1 c (send_phase net server method signed)
          (λ hash. poll_phase net server method hash poll_attempts)
          (send_phase-Quiet net method c server signed)
          (λ hash c₁ q.
            Settles-Ends method hash c c₁ _ q
              (poll_phase-Settles net server method hash poll_attempts c₁))
          (λ e c₁ same q. (same, inr (inl q)))

    from_sign-Ends :
        (assembled : Transaction) (c : Client World)
        → Ends method c (from_sign net server method assembled c)
    unfolding from_sign
    from_sign-Ends assembled c =
        Ends-bind method c (sign_phase net method assembled) (from_send net server method)
          (sign_phase-Quiet net method c assembled) from_send-Ends

    from_assemble-Ends :
        (tx : Transaction) (sim : Simulation ScVal Footprint) (c : Client World)
        → Ends method c (from_assemble net server method tx sim c)
    unfolding from_assemble
    from_assemble-Ends tx sim c =
        Ends-bind method c (assemble_phase net method tx sim) (from_sign net server method)
          (assemble_phase-Quiet net method c tx sim) from_sign-Ends

    from_simulate-Ends :
        (tx : Transaction) (c : Client World) → Ends method c (from_simulate net server method tx c)
    unfolding from_simulate
    from_simulate-Ends tx c =
        Ends-bind method c (simulate_phase net server method tx)
          (from_assemble net server method tx) (simulate_phase-Quiet net method c server tx)
          (from_assemble-Ends tx)

  -- Every write ends so, whatever the network, the wallet and the platform answer.
  pub invoke_contract-Ends :
      (owner method : String) (params : List ScVal) (c : Client World)
      → Ends method c (invoke_contract net owner method params c)
  unfolding invoke_contract
  invoke_contract-Ends owner method params c =
      let server = net.current_rpc_url c.world in
      Ends-bind method c (build_phase net owner method params) (from_simulate net server method)
        (build_phase-Quiet net method c owner params) (from_simulate-Ends server method)
