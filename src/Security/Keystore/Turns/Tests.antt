-- ===== src/Security/Keystore/Turns/Tests.antt =====
-- Turns of src/security/session-keystore.ts on a device that keeps its stores in memory.
use stellartimelock_core.Common.{ℕ, true, false, ◌≡◌, refl, none, some, List, [], ◌∷◌, ◌++◌}
use stellartimelock_core.Common.Action.{ok}
use stellartimelock_core.Common.Dict.{lookup, insert}
use stellartimelock_core.Security.Keystore.{
  Keystore, cached_seed, is_unlocked, lock_now, cache_seed, touch, notify_lock_change,
}
use stellartimelock_core.Security.Keystore.Tests.{Store, memory, fresh, unlocked}
use stellartimelock_core.Security.Keystore.Turns.{
  System, Moves, here, next, reads, stores, goes_on, after, reading_flag, storing, marking_stored,
  begin_read, begin_store, take_turn, alone, ends, seed_of,
}
use stellartimelock_core.Security.Keystore.Turns.Told.{Moves-told}
use stellartimelock_core.Security.Keystore.Turns.Interrupted.{begin_read-lock_now}

abbrev idle : System Store
idle = record { store = fresh; tasks = [] }

-- A store, a read that begins while it waits, and the two turns that end the store.
abbrev storing_now : System Store
storing_now = after (memory true) [] [] (begin_store (memory true) "w" "SEED" idle.store)

abbrev reading_too : System Store
reading_too =
    after (memory true) [] storing_now.tasks (begin_read (memory true) "w" storing_now.store)

abbrev marking : System Store
marking =
    after (memory true) (reading_flag true "w" ∷ []) []
      (take_turn (memory true) (storing true "w" "SEED") reading_too.store)

abbrev stored_now : System Store
stored_now =
    after (memory true) (reading_flag true "w" ∷ []) []
      (take_turn (memory true) (marking_stored true "w" "SEED") marking.store)

interleaved : Moves (memory true) idle stored_now
unfolding begin_read begin_store take_turn is_unlocked lookup
interleaved =
    next
      (next (next (next here (stores "w" "SEED")) (reads "w"))
        (goes_on (reading_flag true "w" ∷ []) [] (storing true "w" "SEED") refl))
      (goes_on (reading_flag true "w" ∷ []) [] (marking_stored true "w" "SEED") refl)

locked_first : is_unlocked fresh ≡ false
unfolding is_unlocked
locked_first = refl

unlocked_last : is_unlocked stored_now.store ≡ true
unfolding begin_read begin_store take_turn is_unlocked cache_seed touch notify_lock_change insert
    lookup
unlocked_last = refl

Moves-told_example : (more : List ℕ) × (stored_now.store.calls ≡ [] ++ ((7 ∷ 8 ∷ []) ++ more))
Moves-told_example =
    Moves-told (memory true) idle stored_now refl locked_first interleaved unlocked_last

-- Another wallet's seed is on the device, under its flag.
abbrev two_wallets : Keystore Store
two_wallets = record unlocked {
  device = record unlocked.device { flag = λ k. true; secret = λ k. "OTHER" };
}

other_missing : cached_seed "v" two_wallets.session_cache ≡ none
unfolding lookup
other_missing = refl

unlocked_already : is_unlocked two_wallets ≡ true
unfolding is_unlocked
unlocked_already = refl

begin_read-lock_now_example :
    let (turn, begun) = begin_read (memory true) "v" two_wallets in
    let (answer, final) = alone (memory true) 2 (turn, lock_now begun) in
    (answer ≡ ends (ok (seed_of (some "OTHER"))))
    × (is_unlocked (lock_now begun) ≡ false)
    × (is_unlocked final ≡ true)
    × (final.calls ≡ [] ++ 7 ∷ 8 ∷ [])
begin_read-lock_now_example =
    begin_read-lock_now (memory true) "v" "OTHER" two_wallets two_wallets.device two_wallets.device
      unlocked_already other_missing refl refl refl
