-- ===== src/Security/Wipe/Tests.antt =====
-- src/security/secure-wipe.ts on a memory of two buffers, and on short texts.
use stellartimelock_core.Common.{ℕ, ◌≡◌, ◌≢◌, refl, Option, none, some, [], ◌∷◌, arith, inl, inr}
use stellartimelock_core.Common.Action.{err, Action}
use stellartimelock_core.Security.Wipe.{Memory, Keypair, wipe_bytes, with_wiped_keypair}
use stellartimelock_core.Security.Wipe.Zeroed.{Wiped, with_wiped_keypair-Wiped}
use stellartimelock_core.Security.Wipe.Utf8.{utf8_to_mutable_bytes, three_bytes, tail_byte}
use stellartimelock_core.Security.Wipe.Utf8.Rfc3629.{utf8_to_mutable_bytes-utf16, utf16, utf8}

abbrev two_buffers : Memory
two_buffers = record {
  bytes = λ a. elim a [ ℕ.zero ↦ 1 ∷ 2 ∷ [] | ℕ.suc b ↦ 3 ∷ [] ];
  now = 0;
  timers = [];
}

abbrev pair : Keypair
pair = record { secret_seed = some 0; secret_key = some 1 }

-- The callback throws.
abbrev throws : Action ℕ Memory ℕ
throws m = (err 9, m)

with_wiped_keypair-Wiped_example :
    let (r, kp, m) = with_wiped_keypair pair throws two_buffers in
    (r ≡ err 9)
    × (kp ≡ record { secret_seed = none; secret_key = none })
    × Wiped (some 0) m
    × Wiped (some 1) m
with_wiped_keypair-Wiped_example = with_wiped_keypair-Wiped pair throws two_buffers

not_its_seed : ◌≢◌ {A = Option ℕ} (some 0) (some 2)
not_its_seed = ground arith

not_its_key : ◌≢◌ {A = Option ℕ} (some 1) (some 2)
not_its_key = ground arith

-- Something writes to the buffer after the first pass.
abbrev written : Memory
written = record (wipe_bytes (some 0) two_buffers) { bytes = λ _. 5 ∷ [] }

utf8_to_mutable_bytes-utf16_example :
    utf8_to_mutable_bytes (utf16 (0x41 ∷ 0x20ac ∷ 0x1f600 ∷ []))
    ≡ utf8 (0x41 ∷ 0x20ac ∷ 0x1f600 ∷ [])
utf8_to_mutable_bytes-utf16_example =
    utf8_to_mutable_bytes-utf16 (0x41 ∷ 0x20ac ∷ 0x1f600 ∷ [])
      (inl (omega arith), (inl (omega arith), (inr (omega arith, omega arith), tt)))

euro_sign : utf8_to_mutable_bytes (0x20ac ∷ []) ≡ 0xe2 ∷ 0x82 ∷ 0xac ∷ []
unfolding utf8_to_mutable_bytes three_bytes tail_byte
euro_sign = refl
