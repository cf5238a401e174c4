-- ===== src/Api/Wake/Submit.antt =====
-- `submitOne` of `wakeUpVault` (src/api/soroban-client.ts): sign, send and poll one transaction that
-- is built already. Each call goes to the RPC endpoint that is current then.
use stellartimelock_core.Common.{String}
use stellartimelock_core.Common.Action.{Action, pure, ◌>>=◌}
use stellartimelock_core.Api.Errors.{Thrown, soroban_sign_error}
use stellartimelock_core.Api.Network.{Network}
use stellartimelock_core.Api.Invoke.{
  Client, catching, reading, send_phase, poll_from, poll_attempts,
}

module _ (net : Network) (method : String) where
  open net use {World, Transaction, Signer, current_rpc_url, sign}

  unfoldable pub sign_step : Signer → Transaction → Action Thrown (Client World) Transaction
  sign_step signer tx = catching (soroban_sign_error method) (reading (λ _. sign tx signer))

  -- Send and poll.
  unfoldable pub submit_signed : Transaction → Action Thrown (Client World) String
  submit_signed tx = do
    hash ← λ c. send_phase net (current_rpc_url c.world) method tx c
    result ← poll_from net current_rpc_url method hash poll_attempts
    pure hash

  unfoldable pub submit_one : Signer → Transaction → Action Thrown (Client World) String
  unfolding sign_step submit_signed
  submit_one signer tx = do signed ← sign_step signer tx; submit_signed signed
