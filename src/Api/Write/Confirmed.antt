-- ===== src/Api/Write/Confirmed.antt =====
-- What the writes of src/api/soroban-client.ts have done when they return.
use stellartimelock_core.Common.{
  ◌+◌, ◌≤◌, String, ◌≡◌, refl, Bool, Option, none, some, List, ◌++◌, arith, inl, inr,
}
use stellartimelock_core.Common.Action.{Result, ok, err, Action, ◌>>=◌}
use stellartimelock_core.Api.Errors.{Fault, Thrown, soroban, fault}
use stellartimelock_core.Api.Network.{Network}
use stellartimelock_core.Api.Invoke.{
  Client, InvokeResult, invoke_contract, succeeded, poll_attempts,
}
use stellartimelock_core.Api.Invoke.Outcome.{HasEmitted}
use stellartimelock_core.Api.Invoke.Ends.{Ends, invoke_contract-Ends}
use stellartimelock_core.Api.Vault.{Platform, Vault}
use stellartimelock_core.Api.Session.{Session}
use stellartimelock_core.Api.Single.{Answers, get_vault}
use stellartimelock_core.Api.Metadata.{save_meta}
use stellartimelock_core.Api.Write.{
  CreateVaultInput, Encoding, Writer, read_back, write_and_read, deposit, extend_lock, withdraw,
  meta_of, storing, encoded, by_client, returned, record_created, create_vault,
}

module _ {W A : Type 0} where
  -- A write that returns a vault emitted one receipt, of a transaction that succeeded, and sent
  -- nothing else; one that throws sent one transaction at most. Neither leaves a signer.
  abbrev pub IsConfirmed : String → Writer W A → Result Thrown (Vault A) × Writer W A → Type 0
  IsConfirmed method s (ok v, s') =
      (hash : String) × HasEmitted method hash succeeded poll_attempts 1 s.client s'.client
  IsConfirmed method s (err e, s') =
      (s'.client.live_signers ≡ s.client.live_signers) × (s'.client.sends ≤ s.client.sends + 1)

module _ {W : Type 0} where
  -- The same, of a client that is to read the vault still.
  abbrev Written : String → Client W → Client W → Type 0
  Written method c c' = (hash : String) × HasEmitted method hash succeeded poll_attempts 1 c c'

  Written-world :
      (method : String) (c c' : Client W) (w : W)
      → Written method c c'
      → Written method c (record c' { world = w })
  Written-world method c c' w (hash, h) = (
    hash,
    record {
      receipt = h.receipt;
      emitted = h.emitted;
      same_method = h.same_method;
      same_hash = h.same_hash;
      same_status = h.same_status;
      live_signers = h.live_signers;
      polls = h.polls;
      sends = h.sends;
    },
  )

module _ {A : Type 0} (net : Network) (enc : Encoding net A) (pf : Platform A) (backend : Bool)
    (s : Writer net.World A) where
  open net use {World, ScVal}

  read_back-IsConfirmed :
      (method id : String) (s' : Writer World A)
      → Written method s.client s'.client
      → IsConfirmed method s (read_back net enc pf backend id s')
  unfolding read_back
  read_back-IsConfirmed method id s' q =
      go (get_vault pf (enc.now_sec (asked s').1) id none (asked s').0 s'.session)
        (Written-world method s.client s'.client (asked s').1 q)
    where
      asked : Writer World A → Answers A × World
      asked t = enc.answers id t.client.world

      go :
          (o : (Result Fault (Vault A) × List String) × Session A)
          → Written method s.client (record s'.client { world = (asked s').1 })
          → let t : Writer World A = record s' {
            client = record s'.client { world = (asked s').1 };
            session = o.1;
            dismissed = s'.dismissed ++ o.0.1;
          } in
            IsConfirmed method s (elim o.0.0 as (λ x. Result Thrown (Vault A) × Writer World A) [
              | ok v ↦ (ok v, t)
              | err e ↦ (err (fault e), t)
            ])
      go ((ok v, dismissed), session) h = h
      go ((err e, dismissed), session) h = (h.1.live_signers, omega (arith, h.1.sends))

  unsent :
      (method : String) (e : Thrown) (c : Client World)
      → Ends net method s.client (err e, c)
      → (c.live_signers ≡ s.client.live_signers) × (c.sends ≤ s.client.sends + 1)
  unsent method (soroban e) c (m, inl q) = (q.live_signers, omega (arith, q.sends))
  unsent method (soroban e) c (m, inr (inl q)) = (q.live_signers, omega (arith, q.sends))
  unsent method (soroban e) c (m, inr (inr (hash, t, r, inl h))) =
      (h.live_signers, omega (arith, h.sends))
  unsent method (soroban e) c (m, inr (inr (hash, t, r, inr h))) =
      (h.live_signers, omega (arith, h.sends))
  unsent method (fault f) c h = absurd h

  write_and_read-IsConfirmed :
      (owner method : String) (params : List ScVal) (id : String)
      → IsConfirmed method s (write_and_read net enc pf backend owner method params id s)
  unfolding write_and_read
  write_and_read-IsConfirmed owner method params id =
      go (invoke_contract net owner method params s.client)
        (invoke_contract-Ends net owner method params s.client)
    where
      go :
          (o : Result Thrown (InvokeResult net) × Client World)
          → Ends net method s.client o
          → IsConfirmed method s (elim o.0 as (λ x. Result Thrown (Vault A) × Writer World A) [
            | ok r ↦ read_back net enc pf backend id (record s { client = o.1 })
            | err e ↦ (err e, record s { client = o.1 })
          ])
      go (ok r, c) (hash, h, same) =
          read_back-IsConfirmed method id (record s { client = c }) (hash, h)
      go (err e, c) h = unsent method e c h

  encoded-IsConfirmed :
      {B : Type 0} (method : String) (r : Result Fault B)
      (f : B → Action Thrown (Writer World A) (Vault A))
      → ((b : B) → IsConfirmed method s (f b s))
      → IsConfirmed method s ((encoded net enc pf backend r >>= f) s)
  encoded-IsConfirmed method (ok b) f h = h b
  encoded-IsConfirmed method (err e) f h = (refl, omega arith)

  -- After the creation is confirmed: the metadata is stored, or an error thrown.
  record_created-IsConfirmed :
      (input : CreateVaultInput A) (r : InvokeResult net) (s' : Writer World A)
      → Written "create_vault" s.client s'.client
      → IsConfirmed "create_vault" s (record_created net enc pf backend input r s')
  unfolding record_created
  record_created-IsConfirmed input r s' q = go r.return_value
    where
      failed :
          (s'.client.live_signers ≡ s.client.live_signers) × (s'.client.sends ≤ s.client.sends + 1)
      failed = (q.1.live_signers, omega (arith, q.1.sends))

      stored :
          (id : Result Fault String)
          → IsConfirmed "create_vault" s (
              (do
                i ← encoded net enc pf backend id
                u ← storing net enc pf backend i input
                read_back net enc pf backend i)
                s')
      stored (ok i) =
          read_back-IsConfirmed "create_vault" i
            (record s' {
              metas =
                  save_meta backend input.owner_public_key i (meta_of net enc pf backend input)
                    s'.metas;
            })
            q
      stored (err e) = failed

      go :
          (o : Option ScVal)
          → IsConfirmed "create_vault" s (
              (do
                value ← returned net enc pf backend o
                i ← encoded net enc pf backend (enc.id_of value)
                u ← storing net enc pf backend i input
                read_back net enc pf backend i)
                s')
      go none = failed
      go (some v) = stored (enc.id_of v)

  create_vault-IsConfirmed :
      (input : CreateVaultInput A)
      → IsConfirmed "create_vault" s (create_vault net enc pf backend input s)
  unfolding create_vault
  create_vault-IsConfirmed input =
      encoded-IsConfirmed "create_vault" (enc.create_params input)
        (λ params.
          by_client net enc pf backend
            (invoke_contract net input.owner_public_key "create_vault" params)
          >>= record_created net enc pf backend input)
        (λ params.
          go (invoke_contract net input.owner_public_key "create_vault" params s.client)
            (invoke_contract-Ends net input.owner_public_key "create_vault" params s.client))
    where
      go :
          (o : Result Thrown (InvokeResult net) × Client World)
          → Ends net "create_vault" s.client o
          → IsConfirmed "create_vault" s
              (elim o.0 as (λ x. Result Thrown (Vault A) × Writer World A) [
                | ok r ↦ record_created net enc pf backend input r (record s { client = o.1 })
                | err e ↦ (err e, record s { client = o.1 })
              ])
      go (ok r, c) (hash, h, same) =
          record_created-IsConfirmed input r (record s { client = c }) (hash, h)
      go (err e, c) h = unsent "create_vault" e c h

  -- A creation, a deposit, an extension and a withdrawal that return a vault have emitted one
  -- receipt, of a transaction of theirs that succeeded, and called sendTransaction once; one that
  -- throws, in the write or in the read after it, called it at most once. No signer keeps its secret.
  pub writes-AreConfirmed :
      (input : CreateVaultInput A) (id owner : String) (amount seconds : A)
      → IsConfirmed "create_vault" s (create_vault net enc pf backend input s)
        × IsConfirmed "deposit" s (deposit net enc pf backend id owner amount s)
        × IsConfirmed "extend_lock" s (extend_lock net enc pf backend id owner seconds s)
        × IsConfirmed "withdraw" s (withdraw net enc pf backend id owner s)
  unfolding deposit extend_lock withdraw
  writes-AreConfirmed input id owner amount seconds = (
    create_vault-IsConfirmed input,
    encoded-IsConfirmed "deposit" (enc.deposit_params id owner amount)
        (λ params. write_and_read net enc pf backend owner "deposit" params id)
        (λ params. write_and_read-IsConfirmed owner "deposit" params id),
    encoded-IsConfirmed "extend_lock" (enc.extend_params id owner seconds)
        (λ params. write_and_read net enc pf backend owner "extend_lock" params id)
        (λ params. write_and_read-IsConfirmed owner "extend_lock" params id),
    encoded-IsConfirmed "withdraw" (enc.withdraw_params id owner)
        (λ params. write_and_read net enc pf backend owner "withdraw" params id)
        (λ params. write_and_read-IsConfirmed owner "withdraw" params id),
  )
