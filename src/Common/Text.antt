-- ===== src/Common/Text.antt =====
-- Texts as lists of code points, and the searches that the program makes in them.
use Prim.Native.Char.{Char, code}
use Prim.Native.String.{String}
use Prim.Native.Nat.{ℕ, zero, suc, ◌+◌, ◌*◌, ◌/◌, ◌%◌, ◌<◌}
use mathlib.Core.Path.{◌≡◌, refl}
use mathlib.Core.Bool.{Bool, ◌&&◌, ◌||◌}
use mathlib.Core.Option.{Option, none, some}
use mathlib.Core.List.{List, [], ◌∷◌, ◌++◌}
use native.Mathlib.Omega.{arith}
use package.stellartimelock_core.Common.Tests.{ltb, leb, ◌==◌, if◌then◌else◌, is_some}

abbrev pub codes : String → List ℕ
codes String.[] = []
codes (String.◌∷◌ c s) = code c ∷ codes s

-- What follows the prefix `p`, if the text begins with it.
unfoldable pub strip : List ℕ → List ℕ → Option (List ℕ)
strip [] s = some s
strip (c ∷ p) [] = none
strip (c ∷ p) (d ∷ s) = let rest = strip p s in if c == d then rest else none

-- `s.includes(p)`
unfoldable pub includes : List ℕ → List ℕ → Bool
unfolding strip
includes [] p = is_some (strip p [])
includes (c ∷ s) p = is_some (strip p (c ∷ s)) || includes s p

-- `toLowerCase`, on the letters of ASCII and on the one other character that it maps to such a
-- letter alone (the Kelvin sign); other characters do not bear on a search for ASCII texts.
unfoldable pub lower : ℕ → ℕ
lower c = if leb b'A' c && leb c b'Z' then c + 32 else if c == 0x212a then b'k' else c

unfoldable pub is_digit : ℕ → Bool
is_digit c = leb b'0' c && leb c b'9'

-- `\s` of a regular expression
unfoldable pub is_space : ℕ → Bool
is_space c =
    (leb 9 c && leb c 13)
    || c == 32
    || c == 0xa0
    || c == 0x1680
    || (leb 0x2000 c && leb c 0x200a)
    || c == 0x2028
    || c == 0x2029
    || c == 0x202f
    || c == 0x205f
    || c == 0x3000
    || c == 0xfeff

pub strip-append : (p s : List ℕ) → strip p (p ++ s) ≡ some s
unfolding strip
strip-append [] s = refl
strip-append (c ∷ p) s = ground (arith, strip-append p s)

-- The decimal digits of a number, the last one first: `n + 1` rounds of fuel are enough for `n`.
abbrev pub digits : ℕ → ℕ → List ℕ
digits zero n = []
digits (suc fuel) n = let rest = digits fuel (n / 10) in n % 10 ∷ (if ltb n 10 then [] else rest)

abbrev pub digits_value : List ℕ → ℕ
digits_value [] = 0
digits_value (d ∷ ds) = d + 10 * digits_value ds

pub digits-value : (fuel n : ℕ) → n < fuel → digits_value (digits fuel n) ≡ n
digits-value zero n h = ground arith
digits-value (suc fuel) n h = ground (arith, digits-value fuel (n / 10))

abbrev pub digit_char : ℕ → Char
digit_char d =
    if d == 0
    then "0"
    else if d == 1
    then "1"
    else if d == 2
    then "2"
    else if d == 3
    then "3"
    else if d == 4
    then "4"
    else if d == 5
    then "5"
    else if d == 6
    then "6"
    else if d == 7
    then "7"
    else if d == 8
    then "8"
    else "9"

abbrev pub text_before : List ℕ → String → String
text_before [] s = s
text_before (d ∷ ds) s = text_before ds (String.◌∷◌ (digit_char d) s)

-- `toString` of a natural number
unfoldable pub decimal : ℕ → String
decimal n = text_before (digits (suc n) n) ""
