-- ===== src/Api/Invoke.antt =====
-- `loadAccount`, `invokeContract` and `recheckTransaction` of src/api/soroban-client.ts: the write
-- pipeline. A step that the source wraps in its own try/catch is `catching`; a call of the network
-- goes to the URL of the server object it is made on.
pub mod Outcome
pub mod Phases
pub mod Ends
pub mod Recheck
use stellartimelock_core.Common.{
  ℕ, zero, suc, ◌+◌, ◌-◌, String, Bool, Option, none, some, List, [], ◌∷◌, ◌++◌, str_eq,
  if◌then◌else◌,
}
use stellartimelock_core.Common.Action.{Result, ok, err, Action, pure, throw, ◌>>=◌, ◌>>◌, modify}
use stellartimelock_core.Api.Errors.{
  Fault, SorobanPhase, SorobanError, Thrown, soroban, build, simulate, send, poll, detail,
  wallet_not_connected_error, soroban_network_error, soroban_simulation_error, soroban_sign_error,
  soroban_send_error, soroban_on_chain_error, soroban_poll_timeout_error,
}
use stellartimelock_core.Api.Failover.{failover}
use stellartimelock_core.Api.Network.{
  Network, Simulation, failure, simulated, SendStatus, pending, duplicate, try_again_later, error,
  SendResponse, TxStatus, not_found, success, failed,
}
use Prim.Native.String as NativeString

abbrev pub poll_interval_ms : ℕ
poll_interval_ms = 1500

abbrev pub poll_attempts : ℕ
poll_attempts = 30

pub data ReceiptStatus : Type 0 where
  succeeded reverted unresolved : ReceiptStatus

pub record TxReceipt : Type 0 where
  pub method : String
  pub tx_hash : String
  pub ledger : Option ℕ
  pub explorer_url : String
  pub status : ReceiptStatus
  pub emitted_at : ℕ

-- The world, and what the client has done to it: the receipts emitted, in order; the calls of
-- `sendTransaction` and `getTransaction`; and the signers that still hold their secret bytes.
pub record Client (W : Type 0) : Type 0 where
  pub world : W
  pub receipts : List TxReceipt
  pub sends : ℕ
  pub polls : ℕ
  pub live_signers : ℕ

-- `try { m } catch (e) { throw f(e) }`
abbrev pub catching : {S A : Type 0} → (Fault → SorobanError) → Action Fault S A → Action Thrown S A
catching f m s =
    let (r, s') = m s in elim r [ ok a ↦ (ok a, s') | err e ↦ (err (soroban (f e)), s') ]

abbrev pub on_world : {E W A : Type 0} → Action E W A → Action E (Client W) A
on_world m c = let (r, w) = m c.world in (r, record c { world = w })

-- A computation that only reads the world.
abbrev pub reading : {E W A : Type 0} → (W → Result E A) → Action E (Client W) A
reading f c = (f c.world, c)

module _ (net : Network) where
  open net use {
    World, Account, Transaction, ScVal, Footprint, Secret, Signer, now, sleep, current_rpc_url,
    fallbacks, is_rpc_transport_error, rotate_rpc_url, explorer_for_tx, get_account,
    simulate_transaction, send_transaction, get_transaction, build_call, assemble,
    load_signing_keypair, from_secret, sign,
  }

  pub record InvokeResult : Type 0 where
    pub return_value : Option ScVal
    pub receipt : TxReceipt

  pub load_account : String → Action Fault World Account
  load_account public_key w =
      failover is_rpc_transport_error rotate_rpc_url
        (λ v. get_account (current_rpc_url v) public_key v) (1 + fallbacks w) w

  abbrev pub receipt_of : String → String → Option ℕ → ReceiptStatus → World → TxReceipt
  receipt_of method hash ledger status w = record {
    method = method;
    tx_hash = hash;
    ledger = ledger;
    explorer_url = explorer_for_tx hash w;
    status = status;
    emitted_at = now w;
  }

  abbrev pub emit_receipt : TxReceipt → Client World → Client World
  emit_receipt r c = record c { receipts = c.receipts ++ r ∷ [] }

  -- 1) build
  pub build_phase : String → String → List ScVal → Action Thrown (Client World) Transaction
  build_phase owner method params =
      catching (soroban_network_error method build)
        do source ← on_world (load_account owner); reading (build_call source method params)

  -- 2) simulate
  pub simulate_phase :
      String → String → Transaction → Action Thrown (Client World) (Simulation ScVal Footprint)
  simulate_phase server method tx c =
      let (r, w) = simulate_transaction server tx c.world in
      let c' = record c { world = w } in
      elim r [
        | err e ↦ (err (soroban (soroban_network_error method simulate e)), c')
        | ok sim ↦ elim sim [
          | failure e ↦ (err (soroban (soroban_simulation_error method e)), c')
          | simulated v d p ↦ (ok (simulated v d p), c')
        ]
      ]

  -- 3) assemble
  pub assemble_phase :
      String → Transaction → Simulation ScVal Footprint → Action Thrown (Client World) Transaction
  assemble_phase method tx sim =
      catching
        (λ e.
          soroban_simulation_error method
            (NativeString.◌++◌ "Could not assemble simulated transaction: " (detail e)))
        (reading (λ _. assemble tx sim))

  -- 4) sign: the signer holds its secret from `fromSecret` on until the `finally` wipes it.
  sign_with : String → Transaction → Secret → Action Thrown (Client World) Transaction
  sign_with method tx secret c = elim (from_secret secret) [
    | err e ↦ (err (soroban (soroban_sign_error method e)), c)
    | ok signer ↦
        let held = record c { live_signers = c.live_signers + 1 } in
        let wiped = record held { live_signers = held.live_signers - 1 } in
        elim (sign tx signer) [
          | err e ↦ (err (soroban (soroban_sign_error method e)), wiped)
          | ok signed ↦ (ok signed, wiped)
        ]
  ]

  pub sign_phase : String → Transaction → Action Thrown (Client World) Transaction
  unfolding sign_with
  sign_phase method tx c =
      let (r, w) = load_signing_keypair c.world in
      let c' = record c { world = w } in
      elim r [
        | err e ↦ (err (soroban (soroban_sign_error method e)), c')
        | ok kp ↦ elim kp [
          | none ↦ (err (soroban (wallet_not_connected_error method)), c')
          | some secret ↦ sign_with method tx secret c'
        ]
      ]

  -- `sendRes.errorResult?.result().switch().name || sendRes.status`
  abbrev error_name : Option String → String
  error_name none = "ERROR"
  error_name (some name) = if str_eq name "" then "ERROR" else name

  -- The error that a status of `sendTransaction` means, if any.
  rejection : String → SendResponse → Option SorobanError
  rejection method res = elim res.status [
    | pending ↦ none
    | try_again_later ↦ none
    | duplicate ↦ some (soroban_send_error method "DUPLICATE" (some res.hash))
    | error name ↦ some (soroban_send_error method (error_name name) (some res.hash))
  ]

  -- 5) send
  pub send_phase : String → String → Transaction → Action Thrown (Client World) String
  unfolding rejection
  send_phase server method tx c =
      let (r, w) = send_transaction server tx c.world in
      let c' = record c { world = w; sends = c.sends + 1 } in
      elim r [
        | err e ↦ (err (soroban (soroban_network_error method send e)), c')
        | ok res ↦ elim (rejection method res) [
          | some e ↦ (err (soroban e), c')
          | none ↦ (ok res.hash, c')
        ]
      ]

  abbrev pub asked : World → Client World → Client World
  asked w c = record c { world = w; polls = c.polls + 1 }

  -- What `getTransaction` answered, if it ends the polling.
  settle :
      String
      → String
      → TxStatus ScVal
      → Client World
      → Option (Result Thrown InvokeResult × Client World)
  settle method hash not_found c = none
  settle method hash (success ledger v) c =
      let r = receipt_of method hash ledger succeeded c.world in
      some (ok (record { return_value = v; receipt = r }), emit_receipt r c)
  settle method hash failed c = some (
    err (soroban (soroban_on_chain_error method hash)),
    emit_receipt (receipt_of method hash none reverted c.world) c,
  )

  -- 6) poll, for the attempts that are left, at the server that `url` gives for each
  pub poll_from : (World → String) → String → String → ℕ → Action Thrown (Client World) InvokeResult
  poll_from url method hash zero c = (
    err (soroban (soroban_poll_timeout_error method hash)),
    emit_receipt (receipt_of method hash none unresolved c.world) c,
  )
  poll_from url method hash (suc n) c =
      let slept = sleep poll_interval_ms c.world in
      let (r, w) = get_transaction (url slept) hash slept in
      let next = poll_from url method hash n (asked w c) in
      elim r [
        | err e ↦ next
        | ok status ↦ elim (settle method hash status (asked w c)) [
          | none ↦ next
          | some done ↦ done
        ]
      ]

  pub poll_phase : String → String → String → ℕ → Action Thrown (Client World) InvokeResult
  poll_phase server = poll_from (λ _. server)

  -- The pipeline from each phase on.
  from_send : String → String → Transaction → Action Thrown (Client World) InvokeResult
  from_send server method signed = do
    hash ← send_phase server method signed
    poll_phase server method hash poll_attempts

  from_sign : String → String → Transaction → Action Thrown (Client World) InvokeResult
  from_sign server method assembled = do
    signed ← sign_phase method assembled
    from_send server method signed

  from_assemble :
      String
      → String
      → Transaction
      → Simulation ScVal Footprint
      → Action Thrown (Client World) InvokeResult
  from_assemble server method tx sim = do
    assembled ← assemble_phase method tx sim
    from_sign server method assembled

  from_simulate : String → String → Transaction → Action Thrown (Client World) InvokeResult
  from_simulate server method tx = do
    sim ← simulate_phase server method tx
    from_assemble server method tx sim

  pub invoke_contract : String → String → List ScVal → Action Thrown (Client World) InvokeResult
  invoke_contract owner method params c =
      let server = current_rpc_url c.world in
      (do tx ← build_phase owner method params; from_simulate server method tx) c
