-- ===== src/Security/Keystore/Turns.antt =====
-- The operations of src/security/session-keystore.ts turn by turn: what runs between one awaited call
-- and the next is one turn of the event loop, and other turns may come between. A call of the device
-- takes effect when its answer arrives.
pub mod Alone
pub mod Told
pub mod Interrupted
mod Tests
use stellartimelock_core.Common.{
  ℕ, zero, suc, String, Bool, true, false, not, Option, none, some, List, [], ◌∷◌, ◌++◌, ◌≡◌,
  str_eq, if◌then◌else◌,
}
use stellartimelock_core.Common.Action.{Result, ok, err}
use stellartimelock_core.Security.Keystore.{
  Keystore, is_unlocked, cached_seed, cache_seed, touch, lock_now, drop_wallet, secret_key_for,
  auth_flag_key, auth_prompt,
}
use stellartimelock_core.Security.Keystore.Storage.{Device, Rejection}

-- An operation that waits for the device, by the call that it awaits. The flag is its `wasLocked`.
pub data Task : Type 0 where
  -- `getWalletSeed`
  reading_flag : Bool → String → Task
  reading_secret : Bool → String → Task
  reading_legacy : Bool → String → Task
  migrating : Bool → String → String → Task
  marking_read : Bool → String → String → Task
  -- `setWalletSeed`
  storing : Bool → String → String → Task
  marking_stored : Bool → String → String → Task
  storing_plain : Bool → String → String → Task

pub data Answer : Type 0 where
  seed_of : Option String → Answer
  written : Bool → Answer

pub data Turn : Type 0 where
  waits : Task → Turn
  ends : Result Rejection Answer → Turn

abbrev pub was_locked : Task → Bool
was_locked (reading_flag w id) = w
was_locked (reading_secret w id) = w
was_locked (reading_legacy w id) = w
was_locked (migrating w id seed) = w
was_locked (marking_read w id seed) = w
was_locked (storing w id seed) = w
was_locked (marking_stored w id seed) = w
was_locked (storing_plain w id seed) = w

abbrev pub pending : Turn → List Task
pending (waits t) = t ∷ []
pending (ends r) = []

module _ {S : Type 0} (d : Device S) where
  -- A rejection ends the operation.
  abbrev pub on_answer :
      {A : Type 0}
      → Keystore S
      → Result Rejection A × S
      → (A → Keystore S → Turn × Keystore S)
      → Turn × Keystore S
  on_answer ks (ok a, s) k = k a (record ks { device = s })
  on_answer ks (err e, s) k = (ends (err e), record ks { device = s })

  abbrev pub cached : Bool → String → String → Answer → Keystore S → Turn × Keystore S
  cached w id seed answer ks = (ends (ok answer), cache_seed d w id seed ks)

  pub begin_read : String → Keystore S → Turn × Keystore S
  begin_read id ks = elim (cached_seed id ks.session_cache) [
    | some found ↦ (ends (ok (seed_of (some found))), touch d ks)
    | none ↦ (waits (reading_flag (not (is_unlocked ks)) id), ks)
  ]

  pub begin_store : String → String → Keystore S → Turn × Keystore S
  begin_store id seed ks = (waits (storing (not (is_unlocked ks)) id seed), ks)

  pub take_turn : Task → Keystore S → Turn × Keystore S
  take_turn (reading_flag w id) ks =
      on_answer ks (d.get_item (auth_flag_key id) ks.device) (λ migrated ks'.
        (waits (if migrated then reading_secret w id else reading_legacy w id), ks'))
  take_turn (reading_secret w id) ks =
      on_answer ks (d.secure_get_authenticated (secret_key_for id) auth_prompt ks.device)
        (λ seed ks'.
          if str_eq seed ""
          then (ends (ok (seed_of none)), ks')
          else cached w id seed (seed_of (some seed)) ks')
  take_turn (reading_legacy w id) ks =
      on_answer ks (d.secure_get (secret_key_for id) ks.device) (λ legacy ks'.
        if str_eq legacy ""
        then (ends (ok (seed_of none)), ks')
        else (waits (migrating w id legacy), ks'))
  take_turn (migrating w id legacy) ks =
      on_answer ks (d.secure_set_authenticated (secret_key_for id) legacy auth_prompt ks.device)
        (λ done ks'.
          if done
          then (waits (marking_read w id legacy), ks')
          else cached w id legacy (seed_of (some legacy)) ks')
  take_turn (marking_read w id legacy) ks =
      on_answer ks (d.set_item (auth_flag_key id) true ks.device)
        (λ u ks'. cached w id legacy (seed_of (some legacy)) ks')
  take_turn (storing w id seed) ks =
      on_answer ks (d.secure_set_authenticated (secret_key_for id) seed auth_prompt ks.device)
        (λ done ks'.
          (waits (if done then marking_stored w id seed else storing_plain w id seed), ks'))
  take_turn (marking_stored w id seed) ks =
      on_answer ks (d.set_item (auth_flag_key id) true ks.device)
        (λ u ks'. cached w id seed (written true) ks')
  take_turn (storing_plain w id seed) ks =
      on_answer ks (d.secure_set (secret_key_for id) seed ks.device) (λ fallback_ok ks'.
        if fallback_ok
        then cached w id seed (written true) ks'
        else (ends (ok (written false)), ks'))

  -- At most so many turns with nothing between them.
  pub alone : ℕ → Turn × Keystore S → Turn × Keystore S
  alone zero x = x
  alone (suc n) (waits t, ks) = alone n (take_turn t ks)
  alone (suc n) (ends r, ks) = (ends r, ks)

-- The module with the operations that wait.
pub record System (S : Type 0) : Type 0 where
  pub store : Keystore S
  pub tasks : List Task

module _ {S : Type 0} (d : Device S) where
  abbrev pub after : List Task → List Task → Turn × Keystore S → System S
  after before rest (turn, ks) = record { store = ks; tasks = before ++ (pending turn ++ rest) }

  -- One turn: an operation begins, or one of those that wait goes on.
  pub data Move (s : System S) : System S → Type 0 where
    reads : (id : String) → Move s (after [] s.tasks (begin_read d id s.store))
    stores : (id seed : String) → Move s (after [] s.tasks (begin_store d id seed s.store))
    goes_on :
        (before rest : List Task) (t : Task)
        → s.tasks ≡ before ++ t ∷ rest
        → Move s (after before rest (take_turn d t s.store))

  pub data Moves (s : System S) : System S → Type 0 where
    here : Moves s s
    next : {t u : System S} → Moves s t → Move t u → Moves s u
