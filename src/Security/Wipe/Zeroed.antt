-- ===== src/Security/Wipe/Zeroed.antt =====
-- What is zero after the wiping functions of src/security/secure-wipe.ts, and stays so.
use stellartimelock_core.Common.{
  ℕ, ◌+◌, ◌≤◌, ◌≡◌, ◌≢◌, refl, Option, none, some, List, [], ◌∷◌, map, arith, All,
}
use stellartimelock_core.Common.Action.{Action}
use stellartimelock_core.Security.Wipe.{
  Memory, Timer, Keypair, deferred_wipe_ms, fill_zero, wipe_bytes, run_timers, wipe_keypair,
  with_wiped_keypair,
}

abbrev pub IsZeroed : List ℕ → Type 0
IsZeroed = All (λ b. b ≡ 0)

-- The buffer, if there is one, holds zeros only.
abbrev pub Wiped : Option ℕ → Memory → Type 0
Wiped none m = Unit
Wiped (some a) m = IsZeroed (m.bytes a)

pub zeros-IsZeroed : (xs : List ℕ) → IsZeroed (map (λ _. 0) xs)
zeros-IsZeroed [] = tt
zeros-IsZeroed (x ∷ xs) = (refl, zeros-IsZeroed xs)

fill_zero-keeps : (a b : ℕ) (m : Memory) → IsZeroed (m.bytes b) → IsZeroed ((fill_zero a m).bytes b)
fill_zero-keeps a b m h = ground (arith, zeros-IsZeroed (m.bytes b))

pub wipe_bytes-Wiped : (buf : Option ℕ) (m : Memory) → Wiped buf (wipe_bytes buf m)
unfolding wipe_bytes
wipe_bytes-Wiped none m = tt
wipe_bytes-Wiped (some a) m = ground (arith, zeros-IsZeroed (m.bytes a))

wipe_bytes-keeps :
    (buf other : Option ℕ) (m : Memory) → Wiped other m → Wiped other (wipe_bytes buf m)
unfolding wipe_bytes
wipe_bytes-keeps none other m h = h
wipe_bytes-keeps (some a) none m h = tt
wipe_bytes-keeps (some a) (some b) m h = fill_zero-keeps a b m h

-- However the callback ends and whatever it does to the memory, its result is passed on, the key
-- pair ends with no reference to its buffers, and both buffers hold zeros only.
pub with_wiped_keypair-Wiped :
    {E A : Type 0} (kp : Keypair) (fn : Action E Memory A) (m : Memory)
    → let (r, kp', m') = with_wiped_keypair kp fn m in
      (r ≡ (fn m).0)
      × (kp' ≡ record { secret_seed = none; secret_key = none })
      × Wiped kp.secret_seed m'
      × Wiped kp.secret_key m'
unfolding with_wiped_keypair
with_wiped_keypair-Wiped kp fn m =
    let m' = (fn m).1 in
    (
      refl,
      refl,
      wipe_bytes-keeps kp.secret_key kp.secret_seed (wipe_bytes kp.secret_seed m')
          (wipe_bytes-Wiped kp.secret_seed m'),
      wipe_bytes-Wiped kp.secret_key (wipe_bytes kp.secret_seed m'),
    )

-- A buffer that neither field of the key pair refers to is left alone.
wipe_keypair_frame :
    (kp : Keypair) (m : Memory) (b : ℕ)
    → kp.secret_seed ≢ some b
    → kp.secret_key ≢ some b
    → (wipe_keypair kp m).1.bytes b ≡ m.bytes b
unfolding wipe_keypair
wipe_keypair_frame kp m b p q = grind arith

run_timers-keeps :
    (t : ℕ) (xs : List Timer) (m : Memory) (b : ℕ)
    → IsZeroed (m.bytes b)
    → IsZeroed ((run_timers t xs m).bytes b)
unfolding run_timers
run_timers-keeps t [] m b h = h
run_timers-keeps t (x ∷ xs) m b h =
    ground (arith, run_timers-keeps t xs m b h, fill_zero-keeps x.buffer b (run_timers t xs m))

-- Once the deferred pass of a wipe has run, the buffer holds zeros only, whatever was written to
-- any buffer in between.
run_timers-wipe_bytes :
    (a t : ℕ) (m after : Memory)
    → after.timers ≡ (wipe_bytes (some a) m).timers
    → m.now + deferred_wipe_ms ≤ t
    → IsZeroed ((run_timers t after.timers after).bytes a)
unfolding wipe_bytes run_timers
run_timers-wipe_bytes a t m after e late =
    let rest = run_timers t m.timers after in rw e (ground (arith, zeros-IsZeroed (rest.bytes a)))
