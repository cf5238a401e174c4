-- ===== src/Security/Wipe/Utf8/Bounds.antt =====
-- The size of what `utf8ToMutableBytes` writes, and what it makes of an unpaired surrogate.
use stellartimelock_core.Common.{
  ℕ, ◌+◌, ◌*◌, ◌/◌, ◌%◌, ◌≤◌, ◌<◌, ◌≡◌, refl, List, [], ◌∷◌, arith, All, All-append, length,
  length-append,
}
use stellartimelock_core.Security.Wipe.Utf8.{
  tail_byte, two_bytes, three_bytes, four_bytes, utf8_to_mutable_bytes, paired,
}
use stellartimelock_core.Security.Wipe.Utf8.Rfc3629.{four_bytes_lem}

abbrev IsByte : ℕ → Type 0
IsByte b = b < 256

tail_byte-lt : (x : ℕ) → tail_byte x < 256
unfolding tail_byte
tail_byte-lt x = omega arith

module _ (c : ℕ) where
  two_bytes-bounds : (length (two_bytes c) ≡ 2) × All IsByte (two_bytes c)
  unfolding two_bytes
  two_bytes-bounds = (refl, (omega arith, (tail_byte-lt c, tt)))

  three_bytes-bounds : (length (three_bytes c) ≡ 3) × All IsByte (three_bytes c)
  unfolding three_bytes
  three_bytes-bounds = (refl, (omega arith, (tail_byte-lt _, (tail_byte-lt _, tt))))

  four_bytes-bounds : (length (four_bytes c) ≡ 4) × All IsByte (four_bytes c)
  unfolding four_bytes
  four_bytes-bounds =
      (refl, (omega arith, (tail_byte-lt _, (tail_byte-lt _, (tail_byte-lt _, tt)))))

-- For any string, ill-formed ones included, the bytes fit the buffer of four for each unit, so that
-- no write falls outside it, and each is below 256.
utf8_to_mutable_bytes_bounds :
    (s : List ℕ)
    → (length (utf8_to_mutable_bytes s) ≤ length s * 4) × All IsByte (utf8_to_mutable_bytes s)
unfolding utf8_to_mutable_bytes
utf8_to_mutable_bytes_bounds [] = (omega arith, tt)
utf8_to_mutable_bytes_bounds (c ∷ []) = grind (arith, two_bytes-bounds c, three_bytes-bounds c)
utf8_to_mutable_bytes_bounds (c ∷ lo ∷ s) =
    let (fits, bytes) = utf8_to_mutable_bytes_bounds (lo ∷ s) in
    let (fits', bytes') = utf8_to_mutable_bytes_bounds s in
    let (n2, b2) = two_bytes-bounds c in
    let (n3, b3) = three_bytes-bounds c in
    let (n4, b4) = four_bytes-bounds (paired c lo) in
    ground (
      arith,
      n2,
      n3,
      n4,
      length-append (two_bytes c) (utf8_to_mutable_bytes (lo ∷ s)),
      length-append (three_bytes c) (utf8_to_mutable_bytes (lo ∷ s)),
      length-append (four_bytes (paired c lo)) (utf8_to_mutable_bytes s),
      All-append IsByte (two_bytes c) (utf8_to_mutable_bytes (lo ∷ s)) b2 bytes,
      All-append IsByte (three_bytes c) (utf8_to_mutable_bytes (lo ∷ s)) b3 bytes,
      All-append IsByte (four_bytes (paired c lo)) (utf8_to_mutable_bytes s) b4 bytes',
    )

-- The high surrogate 0xd800 before a unit that is no low surrogate is taken for half of a pair: the
-- two become four bytes that start as an overlong form does (0xf0, then a byte below 0x90).
unpaired_surrogate :
    (x : ℕ) (s : List ℕ)
    → x < 0xdc00
    → (b : ℕ) × (rest : List ℕ) × (utf8_to_mutable_bytes (0xd800 ∷ x ∷ s) ≡ 240 ∷ b ∷ rest)
      × (b < 144)
unfolding utf8_to_mutable_bytes
unpaired_surrogate x s h =
    let p = paired 0xd800 x in
    (
      128 + p / 4096 % 64,
      (128 + p / 64 % 64) ∷ (128 + p % 64) ∷ utf8_to_mutable_bytes s,
      ground (arith, four_bytes_lem p),
      omega arith,
    )
