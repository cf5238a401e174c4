-- ===== src/Api/Wake/Ends.antt =====
-- How the steps A to C of `wakeUpVault` (src/api/soroban-client.ts) can end.
use stellartimelock_core.Common.{
  ℕ, ◌+◌, ◌≤◌, String, ◌≡◌, refl, ap, Bool, true, false, Option, none, some, List, [], ◌∷◌, ◌++◌,
  length, length-append, arith,
}
use stellartimelock_core.Common.Action.{Result, ok, err, Action, ◌>>=◌, pure}
use stellartimelock_core.Api.Errors.{Fault, Thrown}
use stellartimelock_core.Api.Network.{Network, Simulation}
use stellartimelock_core.Api.Invoke.{Client, simulate_phase, load_account}
use stellartimelock_core.Api.Invoke.Phases.{simulate_phase-Quiet}
use stellartimelock_core.Api.Wake.{
  wake_method, Restoring, Progress, preamble_of, bare, computed, build_probe, probe_step,
  after_restore, restore_with, restore_from, restore_step, extend_failure, rethrowing, extend_with,
  extend_by, extend_data, extend_step,
}
use stellartimelock_core.Api.Wake.Submit.{submit_one}
use stellartimelock_core.Api.Wake.Moves.{Confirmed, Stopped, Post, Post-bind}
use stellartimelock_core.Api.Wake.Steps.{still, bare-Post, Quiet-Post, submit_one-Post}

abbrev pub bit : Bool → ℕ
bit true = 1
bit false = 0

pub bit_bound : (b : Bool) → bit b ≤ 1
bit_bound true = omega arith
bit_bound false = omega arith

module _ (net : Network) (sdk : Restoring net) (owner : String) (start : net.World)
    (vault_id : String) (signer : net.Signer) (c₀ : Client net.World) where
  open net use {World, Account, Transaction, ScVal, Footprint, Signer, current_rpc_url}

  -- Exactly the transactions that are recorded were sent, one for each flag that is set.
  abbrev pub Reached : Progress net → Client World → Type 0
  Reached p c =
      Confirmed wake_method p.tx_hashes c₀ c
      × (length p.tx_hashes ≡ bit p.restored + bit p.extended)

  abbrev pub Failed : Client World → Type 0
  Failed = Stopped wake_method 2 c₀

  -- A call that is not caught, and what follows it.
  bare-bind :
      {A B : Type 0} (G : B → Client World → Type 0) (hs : List String) (m : Action Fault World A)
      (f : A → Action Thrown (Client World) B) (c : Client World)
      → Confirmed wake_method hs c₀ c
      → length hs ≤ 2
      → ((a : A) (c₁ : Client World) → Confirmed wake_method hs c₀ c₁ → Post G Failed (f a c₁))
      → Post G Failed ((bare net sdk owner m >>= f) c)
  bare-bind G hs m f c p h next =
      Post-bind (λ a. Confirmed wake_method hs c₀) G Failed f next (bare net sdk owner m) c
        (bare-Post net wake_method 2 hs c₀ c p h sdk owner m)

  pub probe_step-Post :
      (c : Client World)
      → Confirmed wake_method [] c₀ c
      → Post (λ sim. Confirmed wake_method [] c₀) Failed (probe_step net sdk owner start vault_id c)
  unfolding probe_step
  probe_step-Post c p =
      bare-bind (λ sim. Confirmed wake_method [] c₀) [] (build_probe net sdk owner start vault_id)
        (λ tx c₁. simulate_phase net (current_rpc_url c₁.world) wake_method tx c₁) c p (omega arith)
        (λ tx c₁ q.
          Quiet-Post net wake_method 2 [] c₀ c₁ q (omega arith) _
            (simulate_phase-Quiet net wake_method c₁ (current_rpc_url c₁.world) tx))

  -- A transaction that is built without a catch, and what follows.
  build_bind :
      {B : Type 0} (G : B → Client World → Type 0) (hs : List String)
      (built : Account → Result Fault Transaction)
      (f : Transaction → Action Thrown (Client World) B) (c : Client World)
      → Confirmed wake_method hs c₀ c
      → length hs ≤ 2
      → ((tx : Transaction) (c₁ : Client World)
          → Confirmed wake_method hs c₀ c₁
          → Post G Failed (f tx c₁))
      → Post G Failed (
          (bare net sdk owner (load_account net owner) >>= λ source.
          bare net sdk owner (computed net sdk owner (built source)) >>= f)
            c)
  build_bind G hs built f c p h next =
      bare-bind G hs (load_account net owner)
        (λ source. bare net sdk owner (computed net sdk owner (built source)) >>= f) c p h
        (λ source c₁ q. bare-bind G hs (computed net sdk owner (built source)) f c₁ q h next)

  abbrev pub Restored : Progress net → Client World → Type 0
  Restored p c = Reached p c × (p.extended ≡ false)

  after_restore-Post :
      (sim : Simulation ScVal Footprint) (preamble : Footprint) (hash : String) (c : Client World)
      → Confirmed wake_method (hash ∷ []) c₀ c
      → Post Restored Failed (after_restore net sdk owner start vault_id signer sim preamble hash c)
  unfolding after_restore
  after_restore-Post sim preamble hash c q = ((still net wake_method 2 c₀ c _ q, omega arith), refl)

  restore_with-Post :
      (sim : Simulation ScVal Footprint) (preamble : Footprint) (tx : Transaction)
      (c : Client World)
      → Confirmed wake_method [] c₀ c
      → Post Restored Failed (restore_with net sdk owner start vault_id signer sim preamble tx c)
  unfolding restore_with
  restore_with-Post sim preamble tx c q =
      Post-bind (λ hash. Confirmed wake_method (hash ∷ []) c₀) Restored Failed
        (after_restore net sdk owner start vault_id signer sim preamble)
        (after_restore-Post sim preamble) (submit_one net wake_method signer tx) c
        (submit_one-Post net wake_method 2 [] c₀ c q (omega arith) signer tx (omega arith))

  pub restore_step-Post :
      (sim : Simulation ScVal Footprint) (c : Client World)
      → Confirmed wake_method [] c₀ c
      → Post Restored Failed (restore_step net sdk owner start vault_id signer sim c)
  unfolding restore_step restore_from
  restore_step-Post sim c q = go (preamble_of sim)
    where
      go :
          (o : Option Footprint)
          → Post Restored Failed (
              (elim o as (λ x. Action Thrown (Client World) (Progress net)) [
                | some preamble ↦ restore_from net sdk owner start vault_id signer sim preamble
                | none ↦ pure (record {
                  sim = sim;
                  extend_footprint = none;
                  restored = false;
                  extended = false;
                  tx_hashes = [];
                })
              ])
                c)
      go (some preamble) =
          build_bind Restored [] (λ source. sdk.build_restore source preamble start)
            (restore_with net sdk owner start vault_id signer sim preamble) c q (omega arith)
            (restore_with-Post sim preamble)
      go none = ((q, omega arith), refl)

  short : (p : Progress net) (c : Client World) → Restored p c → length p.tx_hashes ≤ 2
  short p c q = omega (arith, q.0.1, bit_bound p.restored, bit_bound p.extended)

  extend_with-Post :
      (p : Progress net) (tx : Transaction) (c : Client World)
      → Restored p c
      → Post Reached Failed (extend_with net sdk owner start vault_id signer p tx c)
  unfolding extend_with
  extend_with-Post p tx c ((q, n), off) = go (submit_one net wake_method signer tx c) (
      submit_one-Post net wake_method 2 p.tx_hashes c₀ c q (short p c ((q, n), off)) signer tx
        (omega (arith, n, bit_bound p.restored, ap bit off)))
    where
      go :
          (o : Result Thrown String × Client World)
          → Post (λ hash. Confirmed wake_method (p.tx_hashes ++ hash ∷ []) c₀) Failed o
          → Post Reached Failed (
              (rethrowing net sdk owner start vault_id signer
                    (extend_failure net sdk owner start vault_id signer p)
                    (λ c'. o)
                  >>= λ hash.
                      pure (record p { extended = true; tx_hashes = p.tx_hashes ++ hash ∷ [] }))
                c)
      go (ok hash, c₁) r = (r, omega (arith, length-append p.tx_hashes (hash ∷ []), n, ap bit off))
      go (err e, c₁) r = r

  pub extend_step-Post :
      (p : Progress net) (c : Client World)
      → Restored p c
      → Post Reached Failed (extend_step net sdk owner start vault_id signer p c)
  unfolding extend_step extend_by
  extend_step-Post p c q = go (extend_data net sdk owner start vault_id signer p)
    where
      go :
          (o : Option Footprint)
          → Post Reached Failed (
              (elim o as (λ x. Action Thrown (Client World) (Progress net)) [
                | none ↦ pure p
                | some d ↦ extend_by net sdk owner start vault_id signer d p
              ])
                c)
      go none = q.0
      go (some d) =
          build_bind Reached p.tx_hashes (λ source. sdk.build_extend source d start)
            (extend_with net sdk owner start vault_id signer p) c q.0.0 (short p c q)
            (λ tx c₁ r. extend_with-Post p tx c₁ ((r, q.0.1), q.1))
