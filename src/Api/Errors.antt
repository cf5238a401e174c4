-- ===== src/Api/Errors.antt =====
-- src/api/soroban-errors.ts: the categories of failure of an on-chain operation. `class` is the
-- constructor that made the error, which the source keeps as `name`.
pub mod Humanize
use Prim.Native.String.{◌++◌}
use stellartimelock_core.Common.{
  ℕ, String, Bool, true, false, not, Option, none, some, str_eq, if◌then◌else◌,
}
use Humanize.{humanize_simulation_error}

pub data SorobanPhase : Type 0 where
  build simulate assemble sign send poll : SorobanPhase

pub data SorobanClass : Type 0 where
  plain wallet_not_connected network simulation signing sending on_chain poll_timeout : SorobanClass

-- A thrown value that is no SorobanError: an `Error` with its message, or another value with what
-- `String` makes of it.
pub data Fault : Type 0 where
  error : String → Fault
  other : String → Fault

pub record SorobanError : Type 0 where
  pub class : SorobanClass
  pub phase : SorobanPhase
  pub method : String
  pub message : String
  pub user_message : String
  pub retryable : Bool
  pub tx_hash : Option String
  pub cause : Option Fault

-- Any thrown value.
pub data Thrown : Type 0 where
  soroban : SorobanError → Thrown
  fault : Fault → Thrown

-- `e instanceof Error ? e.message : String(e)`
abbrev pub detail : Fault → String
detail (error m) = m
detail (other s) = s

abbrev pub phase_name : SorobanPhase → String
phase_name build = "build"
phase_name simulate = "simulate"
phase_name assemble = "assemble"
phase_name sign = "sign"
phase_name send = "send"
phase_name poll = "poll"

unfoldable pub wallet_not_connected_error : String → SorobanError
wallet_not_connected_error m = record {
  class = wallet_not_connected;
  phase = sign;
  method = m;
  message = "Wallet not connected — cannot sign Soroban transaction.";
  user_message = "Reconnect your wallet to sign on-chain transactions.";
  retryable = false;
  tx_hash = none;
  cause = none;
}

unfoldable pub soroban_network_error : String → SorobanPhase → Fault → SorobanError
soroban_network_error m p e = record {
  class = network;
  phase = p;
  method = m;
  message = "Network error during " ++ phase_name p ++ ": " ++ detail e;
  user_message = "Couldn't reach the Stellar RPC. Check your connection and retry.";
  retryable = true;
  tx_hash = none;
  cause = some e;
}

unfoldable pub soroban_simulation_error : String → String → SorobanError
soroban_simulation_error m sim_error = record {
  class = simulation;
  phase = simulate;
  method = m;
  message = "Soroban preflight failed (" ++ m ++ "): " ++ sim_error;
  user_message = humanize_simulation_error m sim_error;
  retryable = false;
  tx_hash = none;
  cause = none;
}

unfoldable pub soroban_sign_error : String → Fault → SorobanError
soroban_sign_error m e = record {
  class = signing;
  phase = sign;
  method = m;
  message = "Signing failed for " ++ m ++ ": " ++ detail e;
  user_message = "We couldn't sign this transaction with your wallet seed. Try reconnecting.";
  retryable = false;
  tx_hash = none;
  cause = some e;
}

unfoldable pub soroban_send_error : String → String → Option String → SorobanError
soroban_send_error m status hash = record {
  class = sending;
  phase = send;
  method = m;
  message = "sendTransaction (" ++ m ++ ") returned " ++ status;
  user_message =
      if str_eq status "DUPLICATE"
      then "This transaction was already submitted. Pull-to-refresh to see the result."
      else "The Stellar network rejected this transaction. Please retry.";
  retryable = not (str_eq status "DUPLICATE");
  tx_hash = hash;
  cause = none;
}

unfoldable pub onchain_failure_message : String → String
onchain_failure_message m =
    if str_eq m "create_vault"
    then "The contract reverted while creating the vault. No XLM was moved."
    else if str_eq m "deposit"
    then "The contract reverted on deposit. Your XLM is still in your wallet."
    else if str_eq m "extend_lock"
    then "The contract reverted on extend. The lock was not changed."
    else if str_eq m "withdraw"
    then "The contract reverted on withdraw. Funds remain in the vault."
    else "The contract reverted during execution."

unfoldable pub soroban_on_chain_error : String → String → SorobanError
unfolding onchain_failure_message
soroban_on_chain_error m hash = record {
  class = on_chain;
  phase = poll;
  method = m;
  message = "Soroban tx " ++ m ++ " failed on-chain (hash=" ++ hash ++ ").";
  user_message = onchain_failure_message m;
  retryable = false;
  tx_hash = some hash;
  cause = none;
}

unfoldable pub soroban_poll_timeout_error : String → String → SorobanError
soroban_poll_timeout_error m hash = record {
  class = poll_timeout;
  phase = poll;
  method = m;
  message = "Timed out polling getTransaction for " ++ m ++ " (hash=" ++ hash ++ ").";
  user_message =
      "Your transaction is taking longer than expected. It may still confirm — check the explorer link.";
  retryable = false;
  tx_hash = some hash;
  cause = none;
}

-- `asSorobanError`; the empty message of an `Error` is replaced.
unfoldable pub as_soroban_error : String → Thrown → SorobanError
as_soroban_error m (soroban e) = e
as_soroban_error m (fault (error msg)) = record {
  class = plain;
  phase = build;
  method = m;
  message = msg;
  user_message = if str_eq msg "" then "An unexpected error occurred." else msg;
  retryable = false;
  tx_hash = none;
  cause = some (error msg);
}
as_soroban_error m (fault (other s)) = record {
  class = plain;
  phase = build;
  method = m;
  message = s;
  user_message = "An unexpected error occurred.";
  retryable = false;
  tx_hash = none;
  cause = some (other s);
}
