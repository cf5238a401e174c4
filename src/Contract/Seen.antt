-- ===== src/Contract/Seen.antt =====
-- How the events of contracts/xlm_vault/src/lib.rs reach `parseEvent` of src/api/soroban-client.ts:
-- the host's encoding and the RPC, which are not in the repository, as a parameter.
use Prim.Native.String.{◌++◌ as join}
use stellartimelock_core.Common.{
  ℕ, ◌*◌, ◌≡◌, refl, ap, ◌∙◌, String, some, List, [], ◌∷◌, map, arith,
}
use stellartimelock_core.Common.Action.{ok, err}
use stellartimelock_core.Common.Int.{ℤ, pos}
use stellartimelock_core.Api.Errors.{Fault}
use stellartimelock_core.Api.Vault.{Platform, floor_seconds}
use stellartimelock_core.Api.Events.{
  EventKind, create, deposit, extend, withdraw, ParsedEvent, EventResponse, Decoder, parse_event,
  parse_value, decode_kind,
}
use stellartimelock_core.Contract.Host.{Address, Value, u64, i128, Event}

pub record Encoding (ScVal Native : Type 0) : Type 0 where
  pub symbol : String → ScVal
  pub address : Address → ScVal
  pub tuple : List Value → ScVal
  -- what `scValToNative` makes of an element of a tuple
  pub native : Value → Native
  pub tx_hash : Event → String
  pub closed_at : ℕ → String

abbrev pub happened : String → Address → List Value → ℕ → Event
happened symbol subject values closed = record {
  symbol = symbol;
  subject = subject;
  values = values;
  closed = closed;
}

module _ {ScVal Native : Type 0} (enc : Encoding ScVal Native) where
  -- An event as the RPC answers it.
  abbrev pub row : Event → EventResponse ScVal
  row ev = record {
    topic = enc.symbol ev.symbol ∷ enc.address ev.subject ∷ [];
    value = enc.tuple ev.values;
    tx_hash = enc.tx_hash ev;
    ledger_closed_at = enc.closed_at ev.closed;
  }

  -- What the SDK documents: it decodes what the host has encoded; ids have different texts; and the
  -- ledger's closing time is its time in milliseconds.
  pub record Agrees (dec : Decoder ScVal Native) : Type 0 where
    pub symbols :
        (s : String) → (n : Native) × (dec.to_native (enc.symbol s) ≡ ok n) × (dec.text_of n ≡ s)
    pub addresses :
        (s : Address) → (n : Native) × (dec.to_native (enc.address s) ≡ ok n) × (dec.text_of n ≡ s)
    pub tuples :
        (vs : List Value)
        → (n : Native) × (dec.to_native (enc.tuple vs) ≡ ok n)
          × (dec.array_of n ≡ some (map enc.native vs))
    pub ids :
        (m n : ℕ) → dec.text_of (enc.native (u64 m)) ≡ dec.text_of (enc.native (u64 n)) → m ≡ n
    pub amounts : (a : ℤ) → dec.big_int (some (enc.native (i128 a))) ≡ ok a
    pub times : (t : ℕ) → dec.time_of (enc.closed_at t) ≡ pos (t * 1000)

  module _ {A : Type 0} (pf : Platform A) (dec : Decoder ScVal Native) (agrees : Agrees dec) where
    abbrev pub key : ℕ → String
    key id = dec.text_of (enc.native (u64 id))

    -- The event as it is shown, with the amount and the note of its kind.
    abbrev pub shown : Event → EventKind → ℕ → A → String → ParsedEvent A
    shown ev kind id amount note = record {
      tx_id = enc.tx_hash ev;
      vault_id = key id;
      owner_public_key = ev.subject;
      kind = kind;
      amount = amount;
      note = note;
      timestamp = pos ev.closed;
      created_at = enc.closed_at ev.closed;
    }

    parse_decoded :
        (ev : Event) (kind : EventKind) (n a t : Native)
        → dec.to_native (enc.symbol ev.symbol) ≡ ok n
        → decode_kind (dec.text_of n) ≡ some kind
        → dec.to_native (enc.address ev.subject) ≡ ok a
        → dec.to_native (enc.tuple ev.values) ≡ ok t
        → parse_event pf dec (row ev)
          ≡ parse_value pf dec (row ev) kind (dec.text_of a) (dec.array_of t)
    unfolding parse_event
    parse_decoded ev kind n a t s k o v = cc

    parse_known :
        (ev : Event) (kind : EventKind)
        → decode_kind ev.symbol ≡ some kind
        → parse_event pf dec (row ev)
          ≡ parse_value pf dec (row ev) kind ev.subject (some (map enc.native ev.values))
    parse_known ev kind k =
        let (n, n1, n2) = agrees.symbols ev.symbol in
        let (a, a1, a2) = agrees.addresses ev.subject in
        let (t, t1, t2) = agrees.tuples ev.values in
        parse_decoded ev kind n a t n1 (ap decode_kind n2 ∙ k) a1 t1
        ∙ ap (λ x. parse_value pf dec (row ev) kind x (dec.array_of t)) a2
        ∙ ap (λ x. parse_value pf dec (row ev) kind ev.subject x) t2

    closing : (t : ℕ) → floor_seconds (dec.time_of (enc.closed_at t)) ≡ pos t
    closing t = rw (agrees.times t) (ap pos (omega arith))

    pub parse_create :
        (who : Address) (id unlock closed : ℕ) (amount : ℤ) (day : String)
        → dec.day_of (some (enc.native (u64 unlock))) ≡ ok day
        → (let ev = happened "create" who (u64 id ∷ i128 amount ∷ u64 unlock ∷ []) closed in
            parse_event pf dec (row ev)
            ≡ ok (some (shown ev create id (pf.of_stroops amount) (join "unlock " day))))
    unfolding parse_value
    parse_create who id unlock closed amount day h =
        parse_known (happened "create" who (u64 id ∷ i128 amount ∷ u64 unlock ∷ []) closed) create
          refl
        ∙ simp (agrees.amounts, closing, h)

    pub parse_deposit :
        (who : Address) (id closed : ℕ) (amount : ℤ)
        → (let ev = happened "deposit" who (u64 id ∷ i128 amount ∷ []) closed in
            parse_event pf dec (row ev) ≡ ok (some (shown ev deposit id (pf.of_stroops amount) "")))
    unfolding parse_value
    parse_deposit who id closed amount =
        parse_known (happened "deposit" who (u64 id ∷ i128 amount ∷ []) closed) deposit refl
        ∙ simp (agrees.amounts, closing)

    pub parse_extend :
        (who : Address) (id unlock closed : ℕ) (day : String)
        → dec.day_of (some (enc.native (u64 unlock))) ≡ ok day
        → (let ev = happened "extend" who (u64 id ∷ u64 unlock ∷ []) closed in
            parse_event pf dec (row ev)
            ≡ ok (some (shown ev extend id pf.zero_xlm (join "new unlock " day))))
    unfolding parse_value
    parse_extend who id unlock closed day h =
        parse_known (happened "extend" who (u64 id ∷ u64 unlock ∷ []) closed) extend refl
        ∙ simp (closing, h)

    pub parse_withdraw :
        (who : Address) (id closed : ℕ) (amount : ℤ)
        → (let ev = happened "withdraw" who (u64 id ∷ i128 amount ∷ []) closed in
            parse_event pf dec (row ev)
            ≡ ok (some (shown ev withdraw id (pf.of_stroops amount) "")))
    unfolding parse_value
    parse_withdraw who id closed amount =
        parse_known (happened "withdraw" who (u64 id ∷ i128 amount ∷ []) closed) withdraw refl
        ∙ simp (agrees.amounts, closing)

    -- An unlock time that is no day of the platform's makes `parseEvent` throw.
    pub parse_create_undated :
        (who : Address) (id unlock closed : ℕ) (amount : ℤ) (e : Fault)
        → dec.day_of (some (enc.native (u64 unlock))) ≡ err e
        → (let ev = happened "create" who (u64 id ∷ i128 amount ∷ u64 unlock ∷ []) closed in
            parse_event pf dec (row ev) ≡ err e)
    unfolding parse_value
    parse_create_undated who id unlock closed amount e h =
        parse_known (happened "create" who (u64 id ∷ i128 amount ∷ u64 unlock ∷ []) closed) create
          refl
        ∙ simp (agrees.amounts, h)

    pub parse_extend_undated :
        (who : Address) (id unlock closed : ℕ) (e : Fault)
        → dec.day_of (some (enc.native (u64 unlock))) ≡ err e
        → (let ev = happened "extend" who (u64 id ∷ u64 unlock ∷ []) closed in
            parse_event pf dec (row ev) ≡ err e)
    unfolding parse_value
    parse_extend_undated who id unlock closed e h =
        parse_known (happened "extend" who (u64 id ∷ u64 unlock ∷ []) closed) extend refl ∙ simp h
