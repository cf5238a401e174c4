-- ===== src/Contract/Shown.antt =====
-- What it means that an accumulator of the event loop of src/api/soroban-client.ts shows a vault of
-- contracts/xlm_vault/src/lib.rs, and that one more event keeps it so.
use Prim.Native.String.{◌++◌ as join}
use stellartimelock_core.Common.{
  ℕ, ◌+◌, ◌≡◌, refl, sym, ap, ◌∙◌, inl, inr, Bool-cases, String, true, false, Option, none, some,
  List, [], ◌∷◌, ◌++◌, str_eq, str_eq_iff, arith, ◌==◌,
}
use mathlib.Core.Path.{subst}
use stellartimelock_core.Common.Action.{Result, ok, err, Result-cases}
use stellartimelock_core.Common.Dict.{lookup}
use stellartimelock_core.Common.Int.{ℤ, pos, ◌+ℤ◌, ◌≤ℤ◌, int_laws}
use stellartimelock_core.Api.Errors.{Fault}
use stellartimelock_core.Api.Vault.{Platform}
use stellartimelock_core.Api.Events.{
  ParsedEvent, create, deposit, extend, withdraw, Decoder, parse_event,
}
use stellartimelock_core.Api.Events.Replay.{Accum, date_note_to_sec, replay, replay_one}
use stellartimelock_core.Api.Events.Replay.History.{lookup-replay_last, lookup-replay_start}
use stellartimelock_core.Contract.Host.{Vault, u64, Event, put_vault}
use stellartimelock_core.Contract.Effects.{new_vault}
use stellartimelock_core.Contract.Seen.{Encoding, row, Agrees, key, shown}

ok_inj : {E X : Type 0} {a b : X} → ◌≡◌ {A = Result E X} (ok a) (ok b) → a ≡ b
ok_inj h = cc

module _ {ScVal Native A : Type 0} (enc : Encoding ScVal Native) (dec : Decoder ScVal Native)
    (agrees : Agrees enc dec) (pf : Platform A) (day : ℕ → ℕ → ℕ → Option ℤ) where
  -- The day of an unlock time reads back as a time that is not after it.
  abbrev pub DaysBeginEarly : Type 0
  DaysBeginEarly =
      (t : ℕ) (s : String)
      → dec.day_of (some (enc.native (u64 t))) ≡ ok s
      → (date_note_to_sec pf day (join "unlock " s) ≤ℤ pos t)
        × (date_note_to_sec pf day (join "new unlock " s) ≤ℤ pos t)

  -- The events parsed in the order in which they were published; a chain has the latest first.
  unfoldable pub seen : List Event → Result Fault (List (ParsedEvent A))
  seen [] = ok []
  seen (ev ∷ evs) = elim (seen evs) [
    | err e ↦ err e
    | ok log ↦ elim (parse_event pf dec (row enc ev)) [
      | err e ↦ err e
      | ok none ↦ ok log
      | ok (some p) ↦ ok (log ++ p ∷ [])
    ]
  ]

  -- The payments into a vault, the latest first: their sum, and what the client adds up.
  abbrev pub paid : List ℤ → ℤ
  paid [] = pos 0
  paid (a ∷ l) = paid l +ℤ a

  abbrev pub added : List ℤ → A
  added [] = pf.zero_xlm
  added (a ∷ l) = pf.add (added l) (pf.of_stroops a)

  -- The client's accumulator shows the vault: both are made up of the same payments.
  pub record IsShown (v : Vault) (acc : Accum A) (payments : List ℤ) : Type 0 where
    pub held : v.balance ≡ paid payments
    pub balance : acc.balance_xlm ≡ added payments
    pub creation : acc.created_timestamp ≡ pos v.created_timestamp
    pub unlock : acc.unlock_timestamp ≤ℤ pos v.unlock_timestamp
    pub withdrawal : acc.withdrawn ≡ v.withdrawn

  abbrev pub Shows : Option Vault → Option (Accum A) → Type 0
  Shows none o = o ≡ none
  Shows (some v) o = (acc : Accum A) × (payments : List ℤ) × (o ≡ some acc) × IsShown v acc payments

  abbrev pub AllShown : (ℕ → Option Vault) → List Event → Type 0
  AllShown vaults events =
      (log : List (ParsedEvent A))
      → seen events ≡ ok log
      → (id : ℕ) → Shows (vaults id) (lookup (key enc pf dec agrees id) (replay pf day log []))

  not_same :
      (k id : ℕ) (text : String)
      → text ≡ key enc pf dec agrees k
      → (id == k) ≡ false
      → str_eq text (key enc pf dec agrees id) ≡ false
  not_same k id text at h = elim (Bool-cases (str_eq text (key enc pf dec agrees id))) [
    | inr off ↦ off
    | inl on ↦ let e : k ≡ id = agrees.ids k id (sym at ∙ (str_eq_iff text _).0 on) in ground arith
  ]

  seen_before :
      (ev : Event) (evs : List Event) (log : List (ParsedEvent A))
      → seen (ev ∷ evs) ≡ ok log
      → (old : List (ParsedEvent A)) × (seen evs ≡ ok old)
  unfolding seen
  seen_before ev evs log h = elim (Result-cases (seen evs)) [
    | inl found ↦ found
    | inr (e, bad) ↦ absurd (cc bad)
  ]

  seen_last :
      (ev : Event) (evs : List Event) (log old : List (ParsedEvent A)) (p : ParsedEvent A)
      → seen evs ≡ ok old
      → parse_event pf dec (row enc ev) ≡ ok (some p)
      → seen (ev ∷ evs) ≡ ok log
      → log ≡ old ++ p ∷ []
  unfolding seen
  seen_last ev evs log old p before parsed h = cc

  -- One more event that parses, on the vault that it writes.
  pub step_shown :
      (vaults : ℕ → Option Vault) (events : List Event) (ev : Event) (p : ParsedEvent A) (k : ℕ)
      (w : Vault)
      → parse_event pf dec (row enc ev) ≡ ok (some p)
      → p.vault_id ≡ key enc pf dec agrees k
      → ((o : Option (Accum A)) → Shows (vaults k) o → Shows (some w) (replay_one pf day o p))
      → AllShown vaults events
      → AllShown (put_vault k w vaults) (ev ∷ events)
  step_shown vaults events ev p k w parsed at one all log h id =
      let (old, before) = seen_before ev events log h in
      rw (seen_last ev events log old p before parsed h) (
        rw (lookup-replay_last pf day (key enc pf dec agrees id) old p [])
          (elim (Bool-cases (id == k)) [
            | inl here_it_is ↦
                let e : id ≡ k = ground arith in
                let same : str_eq p.vault_id (key enc pf dec agrees id) ≡ true =
                  (str_eq_iff p.vault_id _).1 (at ∙ ap (key enc pf dec agrees) (sym e)) in
                rw (here_it_is, same)
                  (subst
                    (λ x. Shows (some w) (replay_one pf day (lookup x (replay pf day old [])) p))
                    (sym at) (one _ (all old before k)))
            | inr elsewhere ↦
                let other : str_eq p.vault_id (key enc pf dec agrees id) ≡ false =
                  not_same k id p.vault_id at elsewhere in
                rw (elsewhere, other) (all old before id)
          ]))

  pub created_shown :
      (owner name day_text : String) (id unlock now : ℕ) (amount : ℤ) (ev : Event)
      → date_note_to_sec pf day (join "unlock " day_text) ≤ℤ pos unlock
      → ev.closed ≡ now
      → (o : Option (Accum A)) → o ≡ none
      → Shows (some (new_vault id owner name amount unlock now)) (
          replay_one pf day o
            (shown enc pf dec agrees ev create id (pf.of_stroops amount) (join "unlock " day_text)))
  unfolding replay_one
  created_shown owner name day_text id unlock now amount ev early closed o nothing = rw nothing (
    _,
    amount ∷ [],
    refl,
    record {
      held = omega int_laws;
      balance = refl;
      creation = ap pos closed;
      unlock = early;
      withdrawal = refl;
    },
  )

  pub deposited_shown :
      (v : Vault) (id : ℕ) (amount : ℤ) (ev : Event) (note : String) (o : Option (Accum A))
      → Shows (some v) o
      → Shows
          (some (record v { balance = v.balance +ℤ amount }))
          (replay_one pf day o (shown enc pf dec agrees ev deposit id (pf.of_stroops amount) note))
  unfolding replay_one
  deposited_shown v id amount ev note o (acc, payments, e, s) = rw e (
    _,
    amount ∷ payments,
    refl,
    record {
      held = ap (λ x. x +ℤ amount) s.held;
      balance = ap (λ x. pf.add x (pf.of_stroops amount)) s.balance;
      creation = s.creation;
      unlock = s.unlock;
      withdrawal = s.withdrawal;
    },
  )

  pub extended_shown :
      (v : Vault) (id seconds : ℕ) (amount : A) (ev : Event) (note : String) (o : Option (Accum A))
      → date_note_to_sec pf day note ≤ℤ pos (v.unlock_timestamp + seconds)
      → Shows (some v) o
      → Shows
          (some (record v { unlock_timestamp = v.unlock_timestamp + seconds }))
          (replay_one pf day o (shown enc pf dec agrees ev extend id amount note))
  unfolding replay_one
  extended_shown v id seconds amount ev note o early (acc, payments, e, s) = rw e (
    _,
    payments,
    refl,
    record {
      held = s.held;
      balance = ground (arith, s.balance);
      creation = ground (arith, s.creation);
      unlock = ground (arith, s.unlock);
      withdrawal = ground (arith, s.withdrawal);
    },
  )

  pub emptied_shown :
      (v : Vault) (id : ℕ) (amount : A) (ev : Event) (note : String) (o : Option (Accum A))
      → Shows (some v) o
      → Shows
          (some (record v { balance = pos 0; withdrawn = true }))
          (replay_one pf day o (shown enc pf dec agrees ev withdraw id amount note))
  unfolding replay_one
  emptied_shown v id amount ev note o (acc, payments, e, s) = rw e (
    _,
    [],
    refl,
    record {
      held = refl;
      balance = refl;
      creation = s.creation;
      unlock = s.unlock;
      withdrawal = refl;
    },
  )

  -- An event that does not parse leaves nothing to show.
  pub unseen :
      (vaults : ℕ → Option Vault) (events : List Event) (ev : Event) (e : Fault)
      → parse_event pf dec (row enc ev) ≡ err e
      → AllShown vaults (ev ∷ events)
  unfolding seen
  unseen vaults events ev e bad log h id =
      let (old, before) = seen_before ev events log h in absurd (cc before)

  -- Of no events nothing is shown.
  pub none_shown :
      (log : List (ParsedEvent A)) (id : ℕ)
      → seen [] ≡ ok log
      → lookup (key enc pf dec agrees id) (replay pf day log []) ≡ none
  unfolding seen
  none_shown log id h =
      subst (λ l. lookup (key enc pf dec agrees id) (replay pf day l []) ≡ none) (ok_inj h)
        (lookup-replay_start pf day (key enc pf dec agrees id))
