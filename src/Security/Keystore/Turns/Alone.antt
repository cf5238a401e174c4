-- ===== src/Security/Keystore/Turns/Alone.antt =====
-- A read or a store of src/security/session-keystore.ts with no turn of another between its own.
use stellartimelock_core.Common.{
  ℕ, zero, suc, String, Bool, true, false, not, Option, some, Option-cases, inl, inr, ◌≡◌, refl,
  arith, if◌then◌else◌,
}
use stellartimelock_core.Common.Action.{Result, ok, err}
use stellartimelock_core.Security.Keystore.{
  Keystore, is_unlocked, cached_seed, touch, auth_flag_key, get_wallet_seed, read_through,
  read_migrated, read_legacy, set_wallet_seed, set_plain,
}
use stellartimelock_core.Security.Keystore.Storage.{Device, Rejection}
use stellartimelock_core.Security.Keystore.Turns.{
  Turn, Answer, seed_of, written, waits, ends, reading_flag, reading_secret, reading_legacy,
  begin_read, begin_store, take_turn, alone, on_answer,
}

abbrev answered : {A : Type 0} → (A → Answer) → Result Rejection A → Turn
answered f (ok a) = ends (ok (f a))
answered f (err e) = ends (err e)

module _ {S : Type 0} (d : Device S) where
  ended :
      (n : ℕ) (r : Result Rejection Answer) (ks : Keystore S)
      → alone d n (ends r, ks) ≡ (ends r, ks)
  unfolding alone
  ended zero r ks = refl
  ended (suc n) r ks = refl

  alone-begin_store :
      (id seed : String) (ks : Keystore S)
      → alone d 3 (begin_store d id seed ks)
        ≡ (answered written (set_wallet_seed d id seed ks).0, (set_wallet_seed d id seed ks).1)
  unfolding alone begin_store take_turn set_wallet_seed set_plain
  alone-begin_store id seed ks = ground arith

  secret_alone :
      (w : Bool) (id : String) (ks : Keystore S)
      → alone d 3 (waits (reading_secret w id), ks)
        ≡ (answered seed_of (read_migrated d w id ks).0, (read_migrated d w id ks).1)
  unfolding alone take_turn read_migrated
  secret_alone w id ks = ground arith

  legacy_alone :
      (w : Bool) (id : String) (ks : Keystore S)
      → alone d 3 (waits (reading_legacy w id), ks)
        ≡ (answered seed_of (read_legacy d w id ks).0, (read_legacy d w id ks).1)
  unfolding alone take_turn read_legacy
  legacy_alone w id ks = ground arith

  -- What follows the answer to the first call of a read.
  abbrev after_flag :
      Bool
      → String
      → Keystore S
      → Result Rejection Bool × S
      → Result Rejection (Option String) × Keystore S
  after_flag w id ks x = elim x.0 [
    | ok migrated ↦
        (if migrated then read_migrated d w id else read_legacy d w id) (record ks { device = x.1 })
    | err e ↦ (err e, record ks { device = x.1 })
  ]

  flag_alone :
      (w : Bool) (id : String) (ks : Keystore S) (x : Result Rejection Bool × S)
      → alone d 3 (
          on_answer d ks x (λ migrated ks'.
            (waits (if migrated then reading_secret w id else reading_legacy w id), ks')))
        ≡ (answered seed_of (after_flag w id ks x).0, (after_flag w id ks x).1)
  flag_alone w id ks (ok true, s) = secret_alone w id (record ks { device = s })
  flag_alone w id ks (ok false, s) = legacy_alone w id (record ks { device = s })
  flag_alone w id ks (err e, s) = ended 3 (err e) (record ks { device = s })

  read_alone :
      (id : String) (ks : Keystore S)
      → alone d 4 (waits (reading_flag (not (is_unlocked ks)) id), ks)
        ≡ (answered seed_of (read_through d id ks).0, (read_through d id ks).1)
  unfolding alone take_turn read_through
  read_alone id ks =
      flag_alone (not (is_unlocked ks)) id ks (d.get_item (auth_flag_key id) ks.device)

  alone-begin_read :
      (id : String) (ks : Keystore S)
      → alone d 4 (begin_read d id ks)
        ≡ (answered seed_of (get_wallet_seed d id ks).0, (get_wallet_seed d id ks).1)
  unfolding begin_read get_wallet_seed
  alone-begin_read id ks = elim (Option-cases (cached_seed id ks.session_cache)) [
    | inl miss ↦ cc (miss, read_alone id ks)
    | inr (seed, hit) ↦ cc (hit, ended 4 (ok (seed_of (some seed))) (touch d ks))
  ]

  -- Left to itself, a read ends within four turns after the one that it began in, and a store within
  -- three, with the answer and the state of `getWalletSeed` and of `setWalletSeed`.
  operations_alone :
      (id seed : String) (ks : Keystore S)
      → (alone d 4 (begin_read d id ks)
          ≡ (answered seed_of (get_wallet_seed d id ks).0, (get_wallet_seed d id ks).1))
        × (alone d 3 (begin_store d id seed ks)
            ≡ (answered written (set_wallet_seed d id seed ks).0, (set_wallet_seed d id seed ks).1))
  operations_alone id seed ks = (alone-begin_read id ks, alone-begin_store id seed ks)
