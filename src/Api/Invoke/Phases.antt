-- ===== src/Api/Invoke/Phases.antt =====
-- How each phase of `invokeContract` (src/api/soroban-client.ts) can end.
use stellartimelock_core.Common.{
  ℕ, zero, suc, String, ◌≡◌, ◌⊎◌, inl, inr, refl, Option, none, some, List, arith,
}
use stellartimelock_core.Common.Action.{Result, ok, err}
use stellartimelock_core.Api.Errors.{
  Fault, Thrown, soroban, fault, soroban_network_error, soroban_simulation_error,
  soroban_sign_error, wallet_not_connected_error, soroban_send_error, soroban_on_chain_error,
  soroban_poll_timeout_error,
}
use stellartimelock_core.Api.Network.{Network, Simulation, TxStatus, not_found, success, failed}
use stellartimelock_core.Api.Invoke.{
  Client, ReceiptStatus, succeeded, reverted, unresolved, InvokeResult, build_phase, simulate_phase,
  assemble_phase, sign_phase, send_phase, poll_from, poll_phase, settle, poll_interval_ms, asked,
  emit_receipt, receipt_of,
}
use stellartimelock_core.Api.Invoke.Outcome.{HasEmitted, Quiet}

module _ (net : Network) where
  open net use {World, Account, Transaction, ScVal, Footprint}

  -- How the polling ends, with `n` polls at most.
  abbrev pub Settles :
      String
      → String
      → ℕ
      → ℕ
      → Client World
      → Result Thrown (InvokeResult net) × Client World
      → Type 0
  Settles method hash n k c (ok r, c') =
      (h : HasEmitted method hash succeeded n k c c') × (h.receipt ≡ r.receipt)
  Settles method hash n k c (err (soroban e), c') =
      ((e ≡ soroban_on_chain_error method hash) × HasEmitted method hash reverted n k c c')
      ⊎ ((e ≡ soroban_poll_timeout_error method hash) × HasEmitted method hash unresolved n k c c')
  Settles method hash n k c (err (fault f), c') = ⊥

  module _ (method : String) (c : Client World) where
    pub build_phase-Quiet :
        (owner : String) (params : List ScVal)
        → Quiet method 0 c (build_phase net owner method params c)
    unfolding build_phase soroban_network_error
    build_phase-Quiet owner params = ground arith

    pub simulate_phase-Quiet :
        (server : String) (tx : Transaction)
        → Quiet method 0 c (simulate_phase net server method tx c)
    unfolding simulate_phase soroban_network_error soroban_simulation_error
    simulate_phase-Quiet server tx = ground arith

    pub assemble_phase-Quiet :
        (tx : Transaction) (sim : Simulation ScVal Footprint)
        → Quiet method 0 c (assemble_phase net method tx sim c)
    unfolding assemble_phase soroban_simulation_error
    assemble_phase-Quiet tx sim = ground arith

    pub sign_phase-Quiet : (tx : Transaction) → Quiet method 0 c (sign_phase net method tx c)
    unfolding sign_phase soroban_sign_error wallet_not_connected_error
    sign_phase-Quiet tx = ground arith

    pub send_phase-Quiet :
        (server : String) (tx : Transaction) → Quiet method 1 c (send_phase net server method tx c)
    unfolding send_phase soroban_network_error soroban_send_error
    send_phase-Quiet server tx = ground arith

  -- A receipt emitted at once.
  emits :
      (method hash : String) (ledger : Option ℕ) (status : ReceiptStatus) (n : ℕ) (c : Client World)
      → HasEmitted method hash status n 0 c
          (emit_receipt net (receipt_of net method hash ledger status c.world) c)
  emits method hash ledger status n c = record {
    receipt = receipt_of net method hash ledger status c.world;
    emitted = refl;
    same_method = refl;
    same_hash = refl;
    same_status = refl;
    live_signers = refl;
    polls = omega arith;
    sends = omega arith;
  }

  -- One more poll before the end.
  HasEmitted-asked :
      {method hash : String} {status : ReceiptStatus} {n : ℕ} (w : World) (c : Client World)
      {c' : Client World}
      → HasEmitted method hash status n 0 (asked net w c) c'
      → HasEmitted method hash status (suc n) 0 c c'
  HasEmitted-asked w c h = record {
    receipt = h.receipt;
    emitted = h.emitted;
    same_method = h.same_method;
    same_hash = h.same_hash;
    same_status = h.same_status;
    live_signers = h.live_signers;
    polls = omega arith;
    sends = h.sends;
  }

  Settles-asked :
      (method hash : String) (n : ℕ) (w : World) (c : Client World)
      (o : Result Thrown (InvokeResult net) × Client World)
      → Settles method hash n 0 (asked net w c) o
      → Settles method hash (suc n) 0 c o
  unfolding HasEmitted-asked
  Settles-asked method hash n w c (ok r, c') h = (HasEmitted-asked w c h.0, h.1)
  Settles-asked method hash n w c (err (soroban e), c') (inl h) =
      inl (h.0, HasEmitted-asked w c h.1)
  Settles-asked method hash n w c (err (soroban e), c') (inr h) =
      inr (h.0, HasEmitted-asked w c h.1)
  Settles-asked method hash n w c (err (fault f), c') h = h

  pub poll_from-Settles :
      (url : World → String) (method hash : String) (n : ℕ) (c : Client World)
      → Settles method hash n 0 c (poll_from net url method hash n c)
  unfolding poll_from settle HasEmitted-asked emits
  poll_from-Settles url method hash zero c = inr (refl, emits method hash none unresolved 0 c)
  poll_from-Settles url method hash (suc n) c =
      go (answer.0) (poll_from-Settles url method hash n (asked net answer.1 c))
    where
      slept : World
      slept = net.sleep poll_interval_ms c.world

      answer : Result Fault (TxStatus ScVal) × World
      answer = net.get_transaction (url slept) hash slept

      go :
          (r : Result Fault (TxStatus ScVal))
          → Settles method hash n 0
              (asked net answer.1 c)
              (poll_from net url method hash n (asked net answer.1 c))
          → Settles method hash (suc n) 0 c (elim r [
            | err e ↦ poll_from net url method hash n (asked net answer.1 c)
            | ok status ↦ elim (settle net method hash status (asked net answer.1 c)) [
              | none ↦ poll_from net url method hash n (asked net answer.1 c)
              | some done ↦ done
            ]
          ])
      go (err e) later = Settles-asked method hash n answer.1 c _ later
      go (ok not_found) later = Settles-asked method hash n answer.1 c _ later
      go (ok (success ledger v)) later = (
        HasEmitted-asked answer.1 c (emits method hash ledger succeeded n (asked net answer.1 c)),
        refl,
      )
      go (ok failed) later = inl (
        refl,
        HasEmitted-asked answer.1 c (emits method hash none reverted n (asked net answer.1 c)),
      )

  -- With `n` attempts left the polling ends, after at most `n` polls, with one receipt: of success,
  -- which is the result's; of failure, with the on-chain error; or, if no answer was final, of an
  -- unresolved transaction, with the time-out error.
  pub poll_phase-Settles :
      (server method hash : String) (n : ℕ) (c : Client World)
      → Settles method hash n 0 c (poll_phase net server method hash n c)
  unfolding poll_phase
  poll_phase-Settles server = poll_from-Settles (λ _. server)
