-- ===== src/Security/Wipe/Utf8.antt =====
-- `utf8ToMutableBytes` of src/security/secure-wipe.ts, over the UTF-16 units of a string. A write
-- into the Uint8Array keeps the low 8 bits.
pub mod Rfc3629
pub mod Bounds
use Prim.Native.Nat.{bit_or}
use stellartimelock_core.Common.{
  ℕ, ◌+◌, ◌-◌, ◌*◌, ◌/◌, ◌%◌, ◌^◌, Bool, ◌&&◌, List, [], ◌∷◌, ◌++◌, ltb, leb, if◌then◌else◌,
}

-- x >> k and x & (2^k - 1)
abbrev pub shr : ℕ → ℕ → ℕ
shr x k = x / 2 ^ k

abbrev pub low_bits : ℕ → ℕ → ℕ
low_bits x k = x % 2 ^ k

abbrev pub u8 : ℕ → ℕ
u8 x = x % 256

-- 0x80 | (x & 0x3f)
unfoldable pub tail_byte : ℕ → ℕ
tail_byte x = u8 (bit_or 0x80 (low_bits x 6))

pub two_bytes : ℕ → List ℕ
unfolding tail_byte
two_bytes c = u8 (bit_or 0xc0 (shr c 6)) ∷ tail_byte c ∷ []

unfoldable pub three_bytes : ℕ → List ℕ
unfolding tail_byte
three_bytes c = u8 (bit_or 0xe0 (shr c 12)) ∷ tail_byte (shr c 6) ∷ tail_byte c ∷ []

pub four_bytes : ℕ → List ℕ
unfolding tail_byte
four_bytes c =
    u8 (bit_or 0xf0 (shr c 18)) ∷ tail_byte (shr c 12) ∷ tail_byte (shr c 6) ∷ tail_byte c ∷ []

abbrev pub is_high : ℕ → Bool
is_high c = leb 0xd800 c && leb c 0xdbff

-- `0x10000 + ((c - 0xd800) << 10) + (lo - 0xdc00)`, which is never negative for a high surrogate `c`
abbrev pub paired : ℕ → ℕ → ℕ
paired c lo = 0x10000 + (c - 0xd800) * 2 ^ 10 + lo - 0xdc00

-- The loop, from the unit at `i` on.
unfoldable pub utf8_to_mutable_bytes : List ℕ → List ℕ
utf8_to_mutable_bytes [] = []
utf8_to_mutable_bytes (c ∷ []) =
    if ltb c 0x80 then u8 c ∷ [] else if ltb c 0x800 then two_bytes c else three_bytes c
utf8_to_mutable_bytes (c ∷ lo ∷ s) =
    let next = utf8_to_mutable_bytes (lo ∷ s) in
    let after = utf8_to_mutable_bytes s in
    if ltb c 0x80
    then u8 c ∷ next
    else if ltb c 0x800
    then two_bytes c ++ next
    else if is_high c
    then four_bytes (paired c lo) ++ after
    else three_bytes c ++ next
