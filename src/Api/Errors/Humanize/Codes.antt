-- ===== src/Api/Errors/Humanize/Codes.antt =====
-- Which message `humanizeSimulationError` shows for the contract's numbered errors.
use mathlib.Core.Path.{◌∙◌}
use stellartimelock_core.Common.{
  ℕ, ◌+◌, ◌-◌, ◌*◌, String, true, ◌≡◌, ◌≢◌, refl, none, some, List, [], ◌∷◌, ◌++◌, map, arith, All,
  or_else,
}
use stellartimelock_core.Common.Text.{codes, strip, is_digit, is_space, lower}
use stellartimelock_core.Api.Errors.Humanize.{
  skip_spaces, digits_then_paren, first_digit, after_hash, code_at, find_code, contract_message,
  numeric_message, free_text_message, humanize_simulation_error,
}

-- The value of a run of digits.
pub number : ℕ → List ℕ → ℕ
number n [] = n
number n (d ∷ ds) = number (n * 10 + (d - b'0')) ds

-- The text "Error(Contract,", any white space, "#", the digits and ")", and what follows.
abbrev pub numbered : List ℕ → ℕ → List ℕ → List ℕ → List ℕ
numbered spaces d ds post = codes "Error(Contract," ++ (spaces ++ b'#' ∷ d ∷ (ds ++ b')' ∷ post))

abbrev pub IsDigits : List ℕ → Type 0
IsDigits = All (λ d. is_digit d ≡ true)

abbrev pub IsSpaces : List ℕ → Type 0
IsSpaces = All (λ c. is_space c ≡ true)

abbrev pub HasNoParen : List ℕ → Type 0
HasNoParen = All (λ c. c ≢ b'(')

digits_then_paren-number :
    (n : ℕ) (ds post : List ℕ)
    → IsDigits ds
    → digits_then_paren n (ds ++ b')' ∷ post) ≡ some (number n ds)
unfolding digits_then_paren number is_digit
digits_then_paren-number n [] post h = refl
digits_then_paren-number n (d ∷ ds) post h =
    ground (arith, digits_then_paren-number (n * 10 + (d - b'0')) ds post h.1)

skip_spaces-append :
    (spaces s : List ℕ) → IsSpaces spaces → skip_spaces (spaces ++ b'#' ∷ s) ≡ b'#' ∷ s
unfolding skip_spaces is_space
skip_spaces-append [] s h = refl
skip_spaces-append (c ∷ spaces) s h = ground (arith, skip_spaces-append spaces s h.1)

code_at-numbered :
    (spaces : List ℕ) (d : ℕ) (ds post : List ℕ)
    → IsSpaces spaces
    → IsDigits (d ∷ ds)
    → code_at (numbered spaces d ds post) ≡ some (number 0 (d ∷ ds))
unfolding code_at after_hash first_digit number
code_at-numbered spaces d ds post hs hd =
    rw (skip_spaces-append spaces (d ∷ (ds ++ b')' ∷ post)) hs)
      (ground (arith, digits_then_paren-number (d - b'0') ds post hd.1))

-- No match begins before the text: the sixth character of a match is a parenthesis.
code_at_before :
    (c : ℕ) (p s : List ℕ)
    → HasNoParen (c ∷ p)
    → code_at ((c ∷ p) ++ (codes "Error(Contract," ++ s)) ≡ none
unfolding code_at strip
code_at_before c [] s h = ground arith
code_at_before c (c1 ∷ []) s h = ground arith
code_at_before c (c1 ∷ c2 ∷ []) s h = ground arith
code_at_before c (c1 ∷ c2 ∷ c3 ∷ []) s h = ground arith
code_at_before c (c1 ∷ c2 ∷ c3 ∷ c4 ∷ []) s h = ground arith
code_at_before c (c1 ∷ c2 ∷ c3 ∷ c4 ∷ c5 ∷ p) s h = ground arith

find_code_at : (s : List ℕ) (n : ℕ) → code_at s ≡ some n → find_code s ≡ some n
unfolding find_code
find_code_at [] n h = cc
find_code_at (c ∷ s) n h = ground arith

find_code_before :
    (p : List ℕ) (s : List ℕ)
    → HasNoParen p
    → find_code (p ++ (codes "Error(Contract," ++ s)) ≡ find_code (codes "Error(Contract," ++ s)
unfolding find_code
find_code_before [] s h = refl
find_code_before (c ∷ p) s h = ground (arith, code_at_before c p s h, find_code_before p s h.1)

-- The number is found behind any text with no parenthesis and before any text, with any white
-- space behind the comma and with any number of digits.
pub find_code-numbered :
    (pre spaces : List ℕ) (d : ℕ) (ds post : List ℕ)
    → HasNoParen pre
    → IsSpaces spaces
    → IsDigits (d ∷ ds)
    → find_code (pre ++ numbered spaces d ds post) ≡ some (number 0 (d ∷ ds))
find_code-numbered pre spaces d ds post hp hs hd =
    find_code_before pre (spaces ++ b'#' ∷ d ∷ (ds ++ b')' ∷ post)) hp
    ∙ find_code_at (numbered spaces d ds post) (number 0 (d ∷ ds))
        (code_at-numbered spaces d ds post hs hd)

-- A raw error that holds `Error(Contract, #n)`, behind any text with no parenthesis and before any
-- text, is shown with the contract's message for n, if n is one of its numbers, whatever else the
-- text says and whatever the method; any other number leaves the choice to the words of the text.
humanize_simulation_error-numbered :
    (m raw : String) (pre spaces : List ℕ) (d : ℕ) (ds post : List ℕ)
    → codes raw ≡ pre ++ numbered spaces d ds post
    → HasNoParen pre
    → IsSpaces spaces
    → IsDigits (d ∷ ds)
    → humanize_simulation_error m raw
      ≡ or_else (contract_message (number 0 (d ∷ ds))) (free_text_message m (map lower (codes raw)))
unfolding humanize_simulation_error numeric_message
humanize_simulation_error-numbered m raw pre spaces d ds post e hp hs hd =
    let found : find_code (codes raw) ≡ some (number 0 (d ∷ ds)) =
      rw e (find_code-numbered pre spaces d ds post hp hs hd) in
    grind (arith, found)
