-- ===== src/Security/Wipe.antt =====
-- src/security/secure-wipe.ts: zeroing of byte buffers, word arrays and key pairs. A buffer is an
-- address in a memory, so that the deferred second pass of `wipeBytes` reaches the same buffer.
-- `fill` and the assignments do not throw here: each `catch` of the source ignores what it catches. A key pair
-- and a word array are there (for null the source returns at once), and the platform has `setTimeout`.
pub mod Utf8
pub mod Zeroed
mod Tests
use stellartimelock_core.Common.{
  ℕ, ◌+◌, Bool, Option, none, some, List, [], ◌∷◌, map, ◌==◌, leb, if◌then◌else◌,
}
use stellartimelock_core.Common.Action.{Result, Action}

abbrev pub deferred_wipe_ms : ℕ
deferred_wipe_ms = 115

pub record Timer : Type 0 where
  pub due : ℕ
  pub buffer : ℕ

-- The bytes behind each address, the clock, and the `setTimeout` calls that are still to run.
pub record Memory : Type 0 where
  pub bytes : ℕ → List ℕ
  pub now : ℕ
  pub timers : List Timer

-- `buf.fill(0)`
abbrev pub fill_zero : ℕ → Memory → Memory
fill_zero a m = record m { bytes = λ b. if a == b then map (λ _. 0) (m.bytes b) else m.bytes b }

pub wipe_bytes : Option ℕ → Memory → Memory
wipe_bytes none m = m
wipe_bytes (some a) m =
    let timer : Timer = record { due = m.now + deferred_wipe_ms; buffer = a } in
    record (fill_zero a m) { timers = timer ∷ m.timers }

-- The timers that are due by the time `t` run; the others wait.
pub run_timers : ℕ → List Timer → Memory → Memory
run_timers t [] m = record m { now = t; timers = [] }
run_timers t (x ∷ xs) m =
    let m' = run_timers t xs m in
    if leb x.due t then fill_zero x.buffer m' else record m' { timers = x ∷ m'.timers }

-- A CryptoJS WordArray.
pub record WordArray : Type 0 where
  pub words : List ℕ
  pub sig_bytes : ℕ

unfoldable pub wipe_word_array : WordArray → WordArray
wipe_word_array wa = record { words = map (λ _. 0) wa.words; sig_bytes = 0 }

-- The private fields of a Stellar SDK key pair, which hold buffers.
pub record Keypair : Type 0 where
  pub secret_seed : Option ℕ
  pub secret_key : Option ℕ

pub wipe_keypair : Keypair → Memory → Keypair × Memory
unfolding wipe_bytes
wipe_keypair kp m = (
  record { secret_seed = none; secret_key = none },
  wipe_bytes kp.secret_key (wipe_bytes kp.secret_seed m),
)

-- `fn` may read and write the memory, and its result or what it throws is passed on.
pub with_wiped_keypair :
    {E A : Type 0} → Keypair → Action E Memory A → Memory → Result E A × Keypair × Memory
unfolding wipe_keypair
with_wiped_keypair kp fn m =
    let (r, m') = fn m in let (kp', m'') = wipe_keypair kp m' in (r, kp', m'')
