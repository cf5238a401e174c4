-- ===== src/Security/Wipe/Utf8/Rfc3629.antt =====
-- `utf8ToMutableBytes` against UTF-8 as RFC 3629 defines it, on code points.
use mathlib.Core.Path.{◌∙◌}
use Prim.Native.Nat.{bit_or}
use stellartimelock_core.Common.{
  ℕ, zero, suc, ◌+◌, ◌-◌, ◌/◌, ◌%◌, ◌≤◌, ◌<◌, ◌≡◌, refl, Bool, true, false, ◌⊎◌, List, [], ◌∷◌,
  ◌++◌, ltb, ◌==◌, if◌then◌else◌, arith, All, ap,
}
use stellartimelock_core.Security.Wipe.Utf8.{
  tail_byte, two_bytes, three_bytes, four_bytes, utf8_to_mutable_bytes,
}

-- A Unicode scalar value.
abbrev pub IsScalarValue : ℕ → Type 0
IsScalarValue c = (c < 0xd800) ⊎ ((0xe000 ≤ c) × (c < 0x110000))

-- The UTF-16 units of a text, given by its code points.
abbrev pub units : ℕ → List ℕ → List ℕ
units c s =
    if ltb c 0x10000
    then c ∷ s
    else (0xd800 + (c - 0x10000) / 0x400) ∷ (0xdc00 + (c - 0x10000) % 0x400) ∷ s

pub utf16 : List ℕ → List ℕ
utf16 [] = []
utf16 (c ∷ cs) = units c (utf16 cs)

-- The octets of a code point: the table of RFC 3629, section 3.
abbrev pub octets : ℕ → List ℕ
octets c =
    if ltb c 0x80
    then c ∷ []
    else if ltb c 0x800
    then (192 + c / 64) ∷ (128 + c % 64) ∷ []
    else if ltb c 0x10000
    then (224 + c / 4096) ∷ (128 + c / 64 % 64) ∷ (128 + c % 64) ∷ []
    else (240 + c / 262144) ∷ (128 + c / 4096 % 64) ∷ (128 + c / 64 % 64) ∷ (128 + c % 64) ∷ []

pub utf8 : List ℕ → List ℕ
utf8 [] = []
utf8 (c ∷ cs) = octets c ++ utf8 cs

-- To set the bits of `mark` in each of the numbers below the bound adds it.
marks_add : (mark bound : ℕ) → Bool
marks_add mark zero = true
marks_add mark (suc b) =
    let below = marks_add mark b in if bit_or mark b == mark + b then below else false

bit_or_marked :
    (mark bound : ℕ) → marks_add mark bound ≡ true → (c : ℕ) → c < bound → bit_or mark c ≡ mark + c
unfolding marks_add
bit_or_marked mark zero e c lt = ground arith
bit_or_marked mark (suc b) e c lt =
    let below : marks_add mark b ≡ true = ground arith in
    ground (arith, bit_or_marked mark b below c)

tail_marks : marks_add 0x80 64 ≡ true
unfolding marks_add
tail_marks = refl

lead_marks : (marks_add 0xc0 32 ≡ true) × (marks_add 0xe0 16 ≡ true) × (marks_add 0xf0 8 ≡ true)
unfolding marks_add
lead_marks = (refl, refl, refl)

tail_byte_lem : (x : ℕ) → tail_byte x ≡ 128 + x % 64
unfolding tail_byte
tail_byte_lem x = let e = bit_or_marked 0x80 64 tail_marks (x % 64) (omega arith) in ground arith

two_bytes_lem : (c : ℕ) → c < 0x800 → two_bytes c ≡ (192 + c / 64) ∷ (128 + c % 64) ∷ []
unfolding two_bytes
two_bytes_lem c h =
    let e = bit_or_marked 0xc0 32 lead_marks.0 (c / 64) (omega arith) in
    ground (arith, tail_byte_lem c)

three_bytes_lem :
    (c : ℕ)
    → c < 0x10000
    → three_bytes c ≡ (224 + c / 4096) ∷ (128 + c / 64 % 64) ∷ (128 + c % 64) ∷ []
unfolding three_bytes
three_bytes_lem c h =
    let e = bit_or_marked 0xe0 16 lead_marks.1 (c / 4096) (omega arith) in
    ground (arith, tail_byte_lem c, tail_byte_lem (c / 64))

pub four_bytes_lem :
    (c : ℕ)
    → c < 0x200000
    → four_bytes c
      ≡ (240 + c / 262144) ∷ (128 + c / 4096 % 64) ∷ (128 + c / 64 % 64) ∷ (128 + c % 64) ∷ []
unfolding four_bytes
four_bytes_lem c h =
    let e = bit_or_marked 0xf0 8 lead_marks.2 (c / 262144) (omega arith) in
    ground (arith, tail_byte_lem c, tail_byte_lem (c / 64), tail_byte_lem (c / 4096))

-- One code point, and the rest of the text.
encode-units :
    (c : ℕ) (s : List ℕ)
    → IsScalarValue c
    → utf8_to_mutable_bytes (units c s) ≡ octets c ++ utf8_to_mutable_bytes s
unfolding utf8_to_mutable_bytes
encode-units c [] h = ground (arith, two_bytes_lem c, three_bytes_lem c, four_bytes_lem c)
encode-units c (lo ∷ s) h = ground (arith, two_bytes_lem c, three_bytes_lem c, four_bytes_lem c)

-- On the UTF-16 form of any text of Unicode scalar values the function gives its UTF-8 form.
pub utf8_to_mutable_bytes-utf16 :
    (cs : List ℕ) → All IsScalarValue cs → utf8_to_mutable_bytes (utf16 cs) ≡ utf8 cs
unfolding utf16 utf8 utf8_to_mutable_bytes
utf8_to_mutable_bytes-utf16 [] h = refl
utf8_to_mutable_bytes-utf16 (c ∷ cs) (h, hs) =
    encode-units c (utf16 cs) h ∙ ap (λ t. octets c ++ t) (utf8_to_mutable_bytes-utf16 cs hs)
