-- ===== src/Api/Wake/Extended.antt =====
-- The second half of the double handshake of `wakeUpVault` (src/api/soroban-client.ts): what was
-- restored is extended too.
use stellartimelock_core.Common.{
  String, ◌≡◌, ◌⊎◌, inl, inr, refl, Bool, true, false, ◌||◌, Option, none, some, [], ◌∷◌, ◌++◌,
  is_some, arith,
}
use stellartimelock_core.Common.Action.{Result, ok, err, Action, ◌>>=◌, pure, throw}
use stellartimelock_core.Common.Int.{ℤ}
use stellartimelock_core.Api.Errors.{Fault, Thrown, soroban, fault, soroban_simulation_error}
use stellartimelock_core.Api.Network.{Network, Simulation}
use stellartimelock_core.Api.Invoke.{Client, load_account}
use stellartimelock_core.Api.Wake.{
  wake_method, Restoring, Progress, preamble_of, attempt, bare, computed, probe_step, after_restore,
  restore_with, restore_from, restore_step, extend_failure, rethrowing, extend_with, extend_by,
  extend_data, extend_step, something_done, wake,
}
use stellartimelock_core.Api.Wake.Submit.{submit_one}
use stellartimelock_core.Api.Wake.Finish.{
  Waker, WakeResult, report_back, hold, conclude, wake_with, wake_unlocked, wake_up_vault,
}
use stellartimelock_core.Api.Wake.Moves.{Post, Post-bind}

-- Of the result alone
abbrev Returns : {S A : Type 0} → (A → Type 0) → Result Thrown A × S → Type 0
Returns {S = S} G o = Post (λ a (s : S). G a) (λ (s : S). Unit) o

module _ {S A B : Type 0} (G : B → Type 0) (m : Action Thrown S A) (f : A → Action Thrown S B) where
  anything : (o : Result Thrown A × S) → Returns (λ a. Unit) o
  anything (ok a, s) = tt
  anything (err e, s) = tt

  Returns-bind :
      (F : A → Type 0) (s : S)
      → Returns F (m s)
      → ((a : A) (t : S) → F a → Returns G (f a t))
      → Returns G ((m >>= f) s)
  Returns-bind F s p next = Post-bind (λ a t. F a) (λ b t. G b) (λ t. Unit) f next m s p

  Returns-then : (s : S) → ((a : A) (t : S) → Returns G (f a t)) → Returns G ((m >>= f) s)
  Returns-then s next = Returns-bind (λ a. Unit) s (anything (m s)) (λ a t u. next a t)

module _ (net : Network) (sdk : Restoring net) (owner : String) (start : net.World)
    (vault_id : String) (signer : net.Signer)
    (copies : (f : net.Footprint) → is_some (attempt (sdk.read_only_copy f)) ≡ true) where
  open net use {World, Transaction, Footprint, ScVal, Account}

  -- Not extended yet; not restored, or with a footprint to extend.
  abbrev Ready : Progress net → Type 0
  Ready p = (p.extended ≡ false) × ((p.restored ≡ false) ⊎ (is_some p.extend_footprint ≡ true))

  -- Extended, or not restored either.
  abbrev Settled : Progress net → Type 0
  Settled p = (p.extended ≡ true) ⊎ (p.restored || p.extended ≡ false)

  build_then :
      {B : Type 0} (G : B → Type 0) (built : Account → Result Fault Transaction)
      (f : Transaction → Action Thrown (Client World) B) (c : Client World)
      → ((tx : Transaction) (c₁ : Client World) → Returns G (f tx c₁))
      → Returns G (
          (bare net sdk owner (load_account net owner) >>= λ source.
          bare net sdk owner (computed net sdk owner (built source)) >>= f)
            c)
  build_then G built f c next =
      Returns-then G (bare net sdk owner (load_account net owner))
        (λ source. bare net sdk owner (computed net sdk owner (built source)) >>= f) c
        (λ source c₁.
          Returns-then G (bare net sdk owner (computed net sdk owner (built source))) f c₁ next)

  restore_with-Ready :
      (sim : Simulation ScVal Footprint) (preamble : Footprint) (tx : Transaction)
      (c : Client World)
      → Returns Ready (restore_with net sdk owner start vault_id signer sim preamble tx c)
  unfolding restore_with after_restore
  restore_with-Ready sim preamble tx c =
      Returns-then Ready (submit_one net wake_method signer tx)
        (after_restore net sdk owner start vault_id signer sim preamble) c
        (λ hash c₁. (refl, inr (copies preamble)))

  restore_step-Ready :
      (sim : Simulation ScVal Footprint) (c : Client World)
      → Returns Ready (restore_step net sdk owner start vault_id signer sim c)
  unfolding restore_step restore_from
  restore_step-Ready sim c = go (preamble_of sim)
    where
      go :
          (o : Option Footprint)
          → Returns Ready (
              (elim o as (λ x. Action Thrown (Client World) (Progress net)) [
                | some preamble ↦ restore_from net sdk owner start vault_id signer sim preamble
                | none ↦ pure (record {
                  sim = sim;
                  extend_footprint = none;
                  restored = false;
                  extended = false;
                  tx_hashes = [];
                })
              ])
                c)
      go (some preamble) =
          build_then Ready (λ source. sdk.build_restore source preamble start)
            (restore_with net sdk owner start vault_id signer sim preamble) c
            (restore_with-Ready sim preamble)
      go none = (refl, inl refl)

  extend_with-Settled :
      (p : Progress net) (tx : Transaction) (c : Client World)
      → Returns Settled (extend_with net sdk owner start vault_id signer p tx c)
  unfolding extend_with
  extend_with-Settled p tx c =
      Returns-then Settled
        (rethrowing net sdk owner start vault_id signer
          (extend_failure net sdk owner start vault_id signer p)
          (submit_one net wake_method signer tx))
        (λ hash. pure (record p { extended = true; tx_hashes = p.tx_hashes ++ hash ∷ [] })) c
        (λ hash c₁. inl refl)

  extend_step-Settled :
      (p : Progress net) (c : Client World)
      → Ready p
      → Returns Settled (extend_step net sdk owner start vault_id signer p c)
  unfolding extend_step extend_by
  extend_step-Settled p c q = go (extend_data net sdk owner start vault_id signer p) refl
    where
      go :
          (o : Option Footprint)
          → extend_data net sdk owner start vault_id signer p ≡ o
          → Returns Settled (
              (elim o as (λ x. Action Thrown (Client World) (Progress net)) [
                | none ↦ pure p
                | some d ↦ extend_by net sdk owner start vault_id signer d p
              ])
                c)
      go none h = inr (ground arith)
      go (some d) h =
          build_then Settled (λ source. sdk.build_extend source d start)
            (extend_with net sdk owner start vault_id signer p) c (extend_with-Settled p)

  something_done-Extended :
      (p : Progress net) (c : Client World)
      → Settled p
      → Returns (λ r. r.extended ≡ true) (something_done net sdk owner start vault_id signer p c)
  unfolding something_done
  something_done-Extended p c q = go (p.restored || p.extended) refl
    where
      go :
          (b : Bool)
          → p.restored || p.extended ≡ b
          → Returns
              (λ r. r.extended ≡ true)
              ((elim b as (λ x. Action Thrown (Client World) (Progress net)) [
                | true ↦ pure p
                | false ↦ throw (
                    soroban (
                      soroban_simulation_error wake_method
                        "Vault is already live and has sufficient TTL. No action needed."))
              ])
                c)
      go true h = ground arith
      go false h = tt

  pub wake-Extended :
      (c : Client World)
      → Returns (λ r. r.extended ≡ true) (wake net sdk owner start vault_id signer c)
  unfolding wake
  wake-Extended c =
      Returns-then Extended (probe_step net sdk owner start vault_id)
        (λ sim. restore sim >>= λ r. extend r >>= final) c
        (λ sim c₁.
          Returns-bind Extended (restore sim) (λ r. extend r >>= final) Ready c₁
            (restore_step-Ready sim c₁)
            (λ r c₂ q.
              Returns-bind Extended (extend r) final Settled c₂ (extend_step-Settled r c₂ q)
                something_done-Extended))
    where
      Extended : Progress net → Type 0
      Extended r = r.extended ≡ true

      restore : Simulation ScVal Footprint → Action Thrown (Client World) (Progress net)
      restore = restore_step net sdk owner start vault_id signer

      extend : Progress net → Action Thrown (Client World) (Progress net)
      extend = extend_step net sdk owner start vault_id signer

      final : Progress net → Action Thrown (Client World) (Progress net)
      final = something_done net sdk owner start vault_id signer

module _ {A : Type 0} (net : Network) (sdk : Restoring net) (balance_of : net.ScVal → Option A)
    (unlock_of : net.ScVal → Option ℤ) (remove_item : net.World → net.World) (backend : Bool)
    (vault_id owner : String)
    (copies : (f : net.Footprint) → is_some (attempt (sdk.read_only_copy f)) ≡ true)
    (k : Waker net.World A) where
  abbrev pub Extended : Result Thrown WakeResult × Waker net.World A → Type 0
  Extended o = Returns (λ r. r.extended ≡ true) o

  wake_unlocked-Extended :
      (start : net.World) (kp : Option net.Secret) (k' : Waker net.World A)
      → Extended (
          wake_unlocked net sdk balance_of unlock_of remove_item backend vault_id owner start kp k')
  unfolding wake_unlocked wake_with conclude report_back
  wake_unlocked-Extended start none k' = tt
  wake_unlocked-Extended start (some secret) k' = go (net.from_secret secret)
    where
      done :
          (o : Result Thrown (Progress net) × Client net.World)
          → Returns (λ r. r.extended ≡ true) o
          → Extended (conclude net sdk balance_of unlock_of remove_item backend vault_id owner k' o)
      done (ok p, c) q = q
      done (err e, c) q = tt

      go :
          (r : Result Fault net.Signer)
          → Extended (elim r [
            | err e ↦ (err (fault e), k')
            | ok signer ↦
                wake_with net sdk balance_of unlock_of remove_item backend vault_id owner start
                  signer k'
          ])
      go (err e) = tt
      go (ok signer) =
          done _ (wake-Extended net sdk owner start vault_id signer copies (hold k'.client))

  -- If the keys of a preamble can always be read, a wake-up that succeeds has extended the lifetime
  -- of the vault, whether it had to restore it first or not.
  pub wake_up_vault-Extended :
      Extended (wake_up_vault net sdk balance_of unlock_of remove_item backend vault_id owner k)
  unfolding wake_up_vault
  wake_up_vault-Extended = go (net.load_signing_keypair k.client.world)
    where
      go :
          (o : Result Fault (Option net.Secret) × net.World)
          → Extended (elim o.0 [
            | err e ↦ (err (fault e), record k { client = record k.client { world = o.1 } })
            | ok kp ↦
                wake_unlocked net sdk balance_of unlock_of remove_item backend vault_id owner
                  k.client.world kp
                  (record k { client = record k.client { world = o.1 } })
          ])
      go (err e, w) = tt
      go (ok kp, w) = wake_unlocked-Extended k.client.world kp _
