-- ===== src/Api/Network.antt =====
-- What src/api/soroban-client.ts uses of code that is not in the repository: the Stellar SDK with
-- the network behind it, rpc-failover.ts, contract-config.ts, tx-receipts.ts, the wallet's
-- `loadSigningKeypair`, and the clock. `World` is the state of all that lies outside. A call that
-- throws is `err`; none of these throws a SorobanError.
use stellartimelock_core.Common.{ℕ, String, Bool, Option, List}
use stellartimelock_core.Common.Action.{Result, Action}
use stellartimelock_core.Api.Errors.{Fault}

-- The answer of `simulateTransaction`: `isSimulationError`, or a success with the decoded
-- `result.retval`, the `transactionData` and the `restorePreamble` that it may carry.
pub data Simulation (ScVal Footprint : Type 0) : Type 0 where
  failure : String → Simulation ScVal Footprint
  simulated :
      (retval : Option ScVal) (transaction_data restore_preamble : Option Footprint)
      → Simulation ScVal Footprint

-- `sendTransaction`: the status, with the name in `errorResult` for an error, and the hash.
pub data SendStatus : Type 0 where
  pending duplicate try_again_later : SendStatus
  error : Option String → SendStatus

pub record SendResponse : Type 0 where
  pub status : SendStatus
  pub hash : String

-- `getTransaction`: `not_found`, or the outcome with the ledger and the value returned. A ledger that
-- is no number is `none`.
pub data TxStatus (ScVal : Type 0) : Type 0 where
  not_found : TxStatus ScVal
  success : Option ℕ → Option ScVal → TxStatus ScVal
  failed : TxStatus ScVal

pub record Network : Type 1 where
  pub World : Type 0
  pub Account : Type 0
  pub Transaction : Type 0
  pub ScVal : Type 0
  pub Footprint : Type 0
  pub Secret : Type 0
  pub Signer : Type 0
  pub now : World → ℕ
  pub sleep : ℕ → World → World
  -- getCurrentRpcUrl(), getActiveDeployment().rpcFallbacks?.length ?? 0
  pub current_rpc_url : World → String
  pub fallbacks : World → ℕ
  pub is_rpc_transport_error : Fault → Bool
  pub rotate_rpc_url : Fault → World → World
  pub explorer_for_tx : String → World → String
  -- methods of a server at a URL
  pub get_account : String → String → Action Fault World Account
  pub simulate_transaction : String → Transaction → Action Fault World (Simulation ScVal Footprint)
  pub send_transaction : String → Transaction → Action Fault World SendResponse
  pub get_transaction : String → String → Action Fault World (TxStatus ScVal)
  -- contract.call on the active deployment under TransactionBuilder, assembleTransaction
  pub build_call : Account → String → List ScVal → World → Result Fault Transaction
  pub assemble : Transaction → Simulation ScVal Footprint → Result Fault Transaction
  -- loadSigningKeypair, Keypair.fromSecret, tx.sign
  pub load_signing_keypair : Action Fault World (Option Secret)
  pub from_secret : Secret → Result Fault Signer
  pub sign : Transaction → Signer → Result Fault Transaction
