-- ===== src/Api/Wake/Accounts.antt =====
-- What a run of `wakeUpVault` (src/api/soroban-client.ts) submits, and what it reports of it.
use stellartimelock_core.Common.{
  ◌+◌, ◌≤◌, String, ◌≡◌, refl, sym, Bool, true, false, ◌||◌, Option, none, some, List, [], length,
  arith,
}
use stellartimelock_core.Common.Action.{Result, ok, err, Action, ◌>>=◌, pure, throw}
use stellartimelock_core.Common.Int.{ℤ}
use stellartimelock_core.Api.Errors.{
  Fault, Thrown, soroban, fault, soroban_simulation_error, wallet_not_connected_error,
}
use stellartimelock_core.Api.Network.{Network, Simulation}
use stellartimelock_core.Api.Invoke.{Client}
use stellartimelock_core.Api.Wake.{
  wake_method, Restoring, Progress, probe_step, restore_step, extend_step, something_done, wake,
}
use stellartimelock_core.Api.Wake.Finish.{
  Waker, WakeResult, report_back, hold, wiped, conclude, wake_with, wake_unlocked, wake_up_vault,
  drop_caches,
}
use stellartimelock_core.Api.Wake.Moves.{Confirmed, Stopped, Post, Post-bind}
use stellartimelock_core.Api.Wake.Steps.{stopped}
use stellartimelock_core.Api.Wake.Ends.{
  bit, bit_bound, Reached, Restored, probe_step-Post, restore_step-Post, extend_step-Post,
}
use mathlib.Core.List.{append-nil}

or_bits : (r e : Bool) → r || e ≡ true → 1 ≤ bit r + bit e
or_bits true e h = ground arith
or_bits false true h = ground arith
or_bits false false h = ground arith

module _ (net : Network) (sdk : Restoring net) (owner : String) (start : net.World)
    (vault_id : String) (signer : net.Signer) where
  open net use {World}

  -- A wake-up that got to the end did something.
  abbrev Done : Client World → Progress net → Client World → Type 0
  Done c₀ p c = Reached net sdk owner start vault_id signer c₀ p c × (1 ≤ length p.tx_hashes)

  something_done-Post :
      (c₀ : Client World) (p : Progress net) (c : Client World)
      → Reached net sdk owner start vault_id signer c₀ p c
      → Post
          (Done c₀)
          (Stopped wake_method 2 c₀)
          (something_done net sdk owner start vault_id signer p c)
  unfolding something_done
  something_done-Post c₀ p c (q, n) = go (p.restored || p.extended) refl
    where
      go :
          (b : Bool)
          → p.restored || p.extended ≡ b
          → Post (Done c₀) (Stopped wake_method 2 c₀) (
              (elim b as (λ x. Action Thrown (Client World) (Progress net)) [
                | true ↦ pure p
                | false ↦ throw (
                    soroban (
                      soroban_simulation_error wake_method
                        "Vault is already live and has sufficient TTL. No action needed."))
              ])
                c)
      go true h = ((q, n), omega (arith, n, or_bits p.restored p.extended h))
      go false h =
          stopped net wake_method 2 c₀ c q
            (omega (arith, n, bit_bound p.restored, bit_bound p.extended))

  wake-Post :
      (c₀ c : Client World)
      → Confirmed wake_method [] c₀ c
      → Post (Done c₀) (Stopped wake_method 2 c₀) (wake net sdk owner start vault_id signer c)
  unfolding wake
  wake-Post c₀ c q =
      Post-bind (λ sim. Confirmed wake_method [] c₀) (Done c₀) Lost
        (λ sim. restore sim >>= λ r. extend r >>= final)
        (λ sim c₁ q₁.
          Post-bind (Restored net sdk owner start vault_id signer c₀) (Done c₀) Lost
            (λ r. extend r >>= final)
            (λ r c₂ q₂.
              Post-bind (Reached net sdk owner start vault_id signer c₀) (Done c₀) Lost final
                (something_done-Post c₀) (extend r) c₂
                (extend_step-Post net sdk owner start vault_id signer c₀ r c₂ q₂))
            (restore sim) c₁ (restore_step-Post net sdk owner start vault_id signer c₀ sim c₁ q₁))
        (probe_step net sdk owner start vault_id) c
        (probe_step-Post net sdk owner start vault_id signer c₀ c q)
    where
      Lost : Client World → Type 0
      Lost = Stopped wake_method 2 c₀

      restore : Simulation net.ScVal net.Footprint → Action Thrown (Client World) (Progress net)
      restore = restore_step net sdk owner start vault_id signer

      extend : Progress net → Action Thrown (Client World) (Progress net)
      extend = extend_step net sdk owner start vault_id signer

      final : Progress net → Action Thrown (Client World) (Progress net)
      final = something_done net sdk owner start vault_id signer

module _ {W : Type 0} (c c' : Client W) (w v : W) where
  -- The signer that was held for a wake-up is wiped after it.
  released :
      {hs : List String}
      → Confirmed wake_method hs (hold (record c { world = w })) c'
      → Confirmed wake_method hs c (record (wiped c') { world = v })
  released q = record {
    receipts = q.receipts;
    emitted = q.emitted;
    confirm = q.confirm;
    live_signers = omega (arith, q.live_signers);
    sends = q.sends;
  }

  let_go :
      Stopped wake_method 2 (hold (record c { world = w })) c' → Stopped wake_method 2 c (wiped c')
  let_go q = record { live_signers = omega (arith, q.live_signers); sends = q.sends }

module _ {A : Type 0} (net : Network) (sdk : Restoring net) (balance_of : net.ScVal → Option A)
    (unlock_of : net.ScVal → Option ℤ) (remove_item : net.World → net.World) (backend : Bool)
    (vault_id owner : String) (k : Waker net.World A) where
  open net use {World}

  abbrev pub Accounts : Result Thrown WakeResult × Waker World A → Type 0
  Accounts (ok r, k') =
      Confirmed wake_method r.tx_hashes k.client k'.client
      × (length r.tx_hashes ≡ bit r.restored + bit r.extended)
      × (1 ≤ length r.tx_hashes)
      × (k'.event_cache ≡ none)
  Accounts (err e, k') =
      Stopped wake_method 2 k.client k'.client
      × (k'.event_cache ≡ k.event_cache)
      × (k'.session ≡ k.session)

  -- Nothing was submitted.
  refused :
      (e : Thrown) (w : World)
      → Accounts (err e, record k { client = record k.client { world = w } })
  refused e w = (record { live_signers = refl; sends = omega arith }, refl, refl)

  wake_with-Accounts :
      (start w : World) (signer : net.Signer)
      → Accounts (
          wake_with net sdk balance_of unlock_of remove_item backend vault_id owner start signer
            (record k { client = record k.client { world = w } }))
  unfolding wake_with conclude report_back drop_caches
  wake_with-Accounts start w signer = go (wake net sdk owner start vault_id signer held) (
      wake-Post net sdk owner start vault_id signer held held (record {
        receipts = [];
        emitted = sym (append-nil k.client.receipts);
        confirm = tt;
        live_signers = refl;
        sends = omega arith;
      }))
    where
      held : Client World
      held = hold (record k.client { world = w })

      go :
          (o : Result Thrown (Progress net) × Client World)
          → Post (Done net sdk owner start vault_id signer held) (Stopped wake_method 2 held) o
          → Accounts (
              conclude net sdk balance_of unlock_of remove_item backend vault_id owner
                (record k { client = record k.client { world = w } })
                o)
      go (ok p, c) ((q, n), some_sent) =
          (released k.client c w (remove_item c.world) q, n, some_sent, refl)
      go (err e, c) q = (let_go k.client c w c.world q, refl, refl)

  wake_unlocked-Accounts :
      (start w : World) (kp : Option net.Secret)
      → Accounts (
          wake_unlocked net sdk balance_of unlock_of remove_item backend vault_id owner start kp
            (record k { client = record k.client { world = w } }))
  unfolding wake_unlocked
  wake_unlocked-Accounts start w none = refused (soroban (wallet_not_connected_error wake_method)) w
  wake_unlocked-Accounts start w (some secret) = go (net.from_secret secret)
    where
      go :
          (r : Result Fault net.Signer)
          → Accounts (elim r [
            | err e ↦ (err (fault e), record k { client = record k.client { world = w } })
            | ok signer ↦
                wake_with net sdk balance_of unlock_of remove_item backend vault_id owner start
                  signer
                  (record k { client = record k.client { world = w } })
          ])
      go (err e) = refused (fault e) w
      go (ok signer) = wake_with-Accounts start w signer

  -- A wake-up that succeeds reports the transactions that it submitted, all of them, each with one
  -- receipt of success, in their order: at least one, and one for each of restored and extended that
  -- it reports; and it empties the event cache. One that throws called sendTransaction at most twice
  -- and left the event cache and the session as they were. In both cases the signer is wiped.
  pub wake_up_vault-Accounts :
      Accounts (wake_up_vault net sdk balance_of unlock_of remove_item backend vault_id owner k)
  unfolding wake_up_vault
  wake_up_vault-Accounts = go (net.load_signing_keypair k.client.world)
    where
      go :
          (o : Result Fault (Option net.Secret) × World)
          → Accounts (elim o.0 [
            | err e ↦ (err (fault e), record k { client = record k.client { world = o.1 } })
            | ok kp ↦
                wake_unlocked net sdk balance_of unlock_of remove_item backend vault_id owner
                  k.client.world kp
                  (record k { client = record k.client { world = o.1 } })
          ])
      go (err e, w) = refused (fault e) w
      go (ok kp, w) = wake_unlocked-Accounts k.client.world w kp
