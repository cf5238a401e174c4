-- ===== src/Api/Errors/Humanize.antt =====
-- `humanizeSimulationError` of src/api/soroban-errors.ts, over the code points of the raw error.
pub mod Codes
use Prim.Native.String as NativeString
use stellartimelock_core.Common.{
  ℕ, ◌+◌, ◌-◌, ◌*◌, String, Bool, true, false, ◌||◌, Option, none, some, List, [], ◌∷◌, map, ◌==◌,
  str_eq, if◌then◌else◌,
}
use stellartimelock_core.Common.Text.{codes, strip, includes, lower, is_digit, is_space}

skip_spaces : List ℕ → List ℕ
skip_spaces [] = []
skip_spaces (c ∷ s) = let rest = skip_spaces s in if is_space c then rest else c ∷ s

-- `(\d+)\)` after at least one digit, whose value so far is `n`
digits_then_paren : ℕ → List ℕ → Option ℕ
digits_then_paren n [] = none
digits_then_paren n (c ∷ s) =
    let more = digits_then_paren (n * 10 + (c - b'0')) s in
    if is_digit c then more else if c == b')' then some n else none

first_digit : List ℕ → Option ℕ
unfolding digits_then_paren
first_digit [] = none
first_digit (c ∷ s) = if is_digit c then digits_then_paren (c - b'0') s else none

after_hash : List ℕ → Option ℕ
unfolding first_digit
after_hash [] = none
after_hash (c ∷ s) = if c == b'#' then first_digit s else none

-- A match of /Error\(Contract,\s*#(\d+)\)/ that begins at the head of the text: its number.
code_at : List ℕ → Option ℕ
unfolding after_hash skip_spaces strip
code_at s = elim (strip (codes "Error(Contract,") s) [
  | none ↦ none
  | some rest ↦ after_hash (skip_spaces rest)
]

-- The first match in the text.
pub find_code : List ℕ → Option ℕ
unfolding code_at
find_code [] = none
find_code (c ∷ s) =
    let later = find_code s in elim (code_at (c ∷ s)) [ some n ↦ some n | none ↦ later ]

-- The `switch` on the contract's error numbers.
pub contract_message : ℕ → Option String
contract_message n =
    if n == 1
    then some "Only the vault owner can perform this action."
    else if n == 2
    then some "This vault is still locked. You can withdraw after the unlock date."
    else if n == 3
    then some "This vault has already been withdrawn."
    else if n == 4
    then some "Locks can only be extended further out, not shortened."
    else if n == 5
    then some "Vault not found on-chain. It may have been created on a different network."
    else if n == 6
    then some "Invalid amount. Deposits must be positive XLM values."
    else if n == 7
    then some "Invalid unlock timestamp. The unlock must be in the future."
    else if n == 8
    then some "The contract is already initialised."
    else none

-- The `switch` on the method.
pub method_message : String → String
method_message m =
    if str_eq m "create_vault"
    then "Could not create vault on-chain. Double-check the inputs and your XLM balance."
    else if str_eq m "deposit"
    then "Deposit rejected by the contract. Verify the amount and your wallet balance."
    else if str_eq m "extend_lock"
    then "Extension rejected by the contract. The new unlock must be in the future."
    else if str_eq m "withdraw"
    then "Withdrawal rejected by the contract. The vault may still be locked."
    else NativeString.◌++◌ "Soroban preflight rejected this " (NativeString.◌++◌ m " call.")

-- The free-text arm, on the lower-case text.
pub free_text_message : String → List ℕ → String
free_text_message m s =
    if includes s (codes "unauthorized")
      || includes s (codes "not owner")
      || includes s (codes "notowner")
    then "Only the vault owner can perform this action."
    else if includes s (codes "still locked")
        || includes s (codes "not unlocked")
        || includes s (codes "stilllocked")
    then "This vault is still locked. You can withdraw after the unlock date."
    else if includes s (codes "already withdrawn") || includes s (codes "alreadywithdrawn")
    then "This vault has already been withdrawn."
    else if includes s (codes "cannot shorten")
        || includes s (codes "must extend")
        || includes s (codes "shortenforbidden")
    then "Locks can only be extended further out, not shortened."
    else if includes s (codes "insufficient")
    then "Your wallet does not have enough XLM for this transaction."
    else if includes s (codes "not found") || includes s (codes "vaultnotfound")
    then "Account or vault not found on Stellar. Fund your account via friendbot first."
    else method_message m

-- The message for a number, if the text holds one that the contract defines.
pub numeric_message : List ℕ → Option String
numeric_message s = elim (find_code s) [ none ↦ none | some n ↦ contract_message n ]

pub humanize_simulation_error : String → String → String
unfolding lower
humanize_simulation_error m raw = elim (numeric_message (codes raw)) [
  | some message ↦ message
  | none ↦ free_text_message m (map lower (codes raw))
]
