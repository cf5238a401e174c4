-- ===== src/Api/Events.antt =====
-- The contract's events in src/api/soroban-client.ts: their kinds, `parseEvent` and the dates in
-- their notes. What the SDK and the platform make of a value is `Decoder`.
pub mod Replay
pub mod Fetch
use Prim.Native.String.{◌++◌}
use stellartimelock_core.Common.{
  ℕ, ◌+◌, ◌-◌, ◌*◌, String, Bool, true, false, ◌&&◌, ◌||◌, Option, none, some, List, [], ◌∷◌,
  str_eq, ltb, ◌==◌, if◌then◌else◌,
}
use stellartimelock_core.Common.Action.{Result, ok, err}
use stellartimelock_core.Common.Int.{ℤ, pos}
use stellartimelock_core.Common.Text.{is_digit}
use stellartimelock_core.Api.Errors.{Fault}
use stellartimelock_core.Api.Vault.{Platform, floor_seconds}

pub data EventKind : Type 0 where
  create deposit extend withdraw : EventKind

pub record ParsedEvent (A : Type 0) : Type 0 where
  pub tx_id : String
  pub vault_id : String
  pub owner_public_key : String
  pub kind : EventKind
  pub amount : A
  pub note : String
  pub timestamp : ℤ
  pub created_at : String

pub record EventResponse (ScVal : Type 0) : Type 0 where
  pub topic : List ScVal
  pub value : ScVal
  pub tx_hash : String
  pub ledger_closed_at : String

-- `Native` is what `scValToNative` gives; an element that is missing is `none` for the last two,
-- which throw then.
pub record Decoder (ScVal Native : Type 0) : Type 0 where
  -- scValToNative
  pub to_native : ScVal → Result Fault Native
  -- String(x)
  pub text_of : Native → String
  -- Array.isArray(x) ? x : nothing
  pub array_of : Native → Option (List Native)
  -- BigInt(x)
  pub big_int : Option Native → Result Fault ℤ
  -- new Date(Number(x) * 1000).toISOString().slice(0, 10)
  pub day_of : Option Native → Result Fault String
  -- new Date(s).getTime() of the ledger's closing time, in milliseconds
  pub time_of : String → ℤ

infixl 5 ◌>>=◌
abbrev ◌>>=◌ : {A B : Type 0} → Result Fault A → (A → Result Fault B) → Result Fault B
ok a >>= f = f a
err e >>= f = err e

abbrev pub decode_kind : String → Option EventKind
decode_kind s =
    if str_eq s "create"
    then some create
    else if str_eq s "deposit"
    then some deposit
    else if str_eq s "extend"
    then some extend
    else if str_eq s "withdraw"
    then some withdraw
    else none

abbrev nth : {B : Type 0} → List B → ℕ → Option B
nth [] i = none
nth (x ∷ xs) ℕ.zero = some x
nth (x ∷ xs) (ℕ.suc i) = nth xs i

module _ {A : Type 0} (pf : Platform A) where
  module _ {ScVal Native : Type 0} (dec : Decoder ScVal Native) where
    -- The amount and the note of an event, by its kind.
    amount_and_note : EventKind → List Native → Result Fault (A × String)
    amount_and_note create value = do
      stroops ← dec.big_int (nth value 1)
      day ← dec.day_of (nth value 2)
      ok (pf.of_stroops stroops, "unlock " ++ day)
    amount_and_note extend value = do
      day ← dec.day_of (nth value 1)
      ok (pf.zero_xlm, "new unlock " ++ day)
    amount_and_note _ value = do stroops ← dec.big_int (nth value 1); ok (pf.of_stroops stroops, "")

    unfoldable pub parse_value :
        EventResponse ScVal
        → EventKind
        → String
        → Option (List Native)
        → Result Fault (Option (ParsedEvent A))
    unfolding amount_and_note
    parse_value ev kind owner none = ok none
    parse_value ev kind owner (some []) = ok none
    parse_value ev kind owner (some (id ∷ rest)) = do
      (amount, note) ← amount_and_note kind (id ∷ rest)
      ok (
          some (record {
            tx_id = ev.tx_hash;
            vault_id = dec.text_of id;
            owner_public_key = owner;
            kind = kind;
            amount = amount;
            note = note;
            timestamp = floor_seconds (dec.time_of ev.ledger_closed_at);
            created_at = ev.ledger_closed_at;
          }))

    parse_topics : EventResponse ScVal → List ScVal → Result Fault (Option (ParsedEvent A))
    unfolding parse_value
    parse_topics ev (t0 ∷ t1 ∷ more) = do
      kind_raw ← dec.to_native t0
      elim (decode_kind (dec.text_of kind_raw)) [
        | none ↦ ok none
        | some kind ↦ do
          owner_raw ← dec.to_native t1
          value ← dec.to_native ev.value
          parse_value ev kind (dec.text_of owner_raw) (dec.array_of value)
      ]
    parse_topics ev _ = ok none

    unfoldable pub parse_event : EventResponse ScVal → Result Fault (Option (ParsedEvent A))
    unfolding parse_topics
    parse_event ev = parse_topics ev ev.topic

abbrev digit : ℕ → ℕ
digit c = c - b'0'

-- A match of /(\d{4})-(\d{2})-(\d{2})/ at the head of the text: year, month and day.
date_at : List ℕ → Option (ℕ × ℕ × ℕ)
unfolding is_digit
date_at (a ∷ b ∷ c ∷ d ∷ h ∷ e ∷ f ∷ k ∷ i ∷ j ∷ rest) =
    if is_digit a
      && is_digit b
      && is_digit c
      && is_digit d
      && h == b'-'
      && is_digit e
      && is_digit f
      && k == b'-'
      && is_digit i
      && is_digit j
    then some (
      digit a * 1000 + digit b * 100 + digit c * 10 + digit d,
      digit e * 10 + digit f,
      digit i * 10 + digit j,
    )
    else none
date_at _ = none

-- The first match in the text.
pub find_date : List ℕ → Option (ℕ × ℕ × ℕ)
unfolding date_at
find_date [] = none
find_date (c ∷ s) =
    let later = find_date s in elim (date_at (c ∷ s)) [ some d ↦ some d | none ↦ later ]
