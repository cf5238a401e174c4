-- ===== src/Contract/Replayed.antt =====
-- What the client of src/api/soroban-client.ts makes of the events that
-- contracts/xlm_vault/src/lib.rs has published: `parseEvent` and the loop of
-- `aggregateVaultsFromEvents` against the contract's storage.
mod Tests
use Prim.Native.String.{◌++◌ as join}
use stellartimelock_core.Common.{
  ℕ, ◌+◌, ◌≤◌, ◌<◌, ◌≡◌, ◌≢◌, refl, sym, ap, ◌∙◌, inl, inr, Bool-cases, String, Bool, true, false,
  Option, none, some, List, [], ◌∷◌, ◌++◌, str_eq, str_eq_iff, str_eq_refl, arith, ◌==◌,
  if◌then◌else◌,
}
use mathlib.Core.Path.{subst}
use stellartimelock_core.Common.Action.{Result, ok, err, Result-cases}
use stellartimelock_core.Common.Dict.{lookup}
use stellartimelock_core.Common.Int.{ℤ, pos, ◌+ℤ◌, ◌≤ℤ◌, int_laws}
use stellartimelock_core.Api.Errors.{Fault}
use stellartimelock_core.Api.Vault.{Platform}
use stellartimelock_core.Api.Events.{
  ParsedEvent, EventKind, create, deposit, extend, withdraw, Decoder, parse_event,
}
use stellartimelock_core.Api.Events.Replay.{Accum, date_note_to_sec, replay, replay_one}
use stellartimelock_core.Api.Events.Replay.History.{lookup-replay_last, lookup-replay_start}
use stellartimelock_core.Contract.Host.{
  Address, Vault, u64, i128, Event, Chain, Token, IsLawful, put_vault,
}
use stellartimelock_core.Contract.Call.{Call}
use stellartimelock_core.Contract.Effects.{
  Effect, changed, rejected, initialised, created, deposited, extended, emptied, new_id, new_vault,
}
use stellartimelock_core.Contract.Calls.Effective.{perform-Effect}
use stellartimelock_core.Contract.Steps.{Step, called, passed, moved, Reach, here, next, IsNew}
use stellartimelock_core.Contract.Solvent.{IsSound, Reach-IsSound, some_inj}
use stellartimelock_core.Contract.Seen.{
  Encoding, row, Agrees, key, shown, happened, parse_create, parse_deposit, parse_extend,
  parse_withdraw, parse_create_undated, parse_extend_undated,
}
use stellartimelock_core.Contract.Shown.{
  DaysBeginEarly, seen, Shows, AllShown, step_shown, created_shown, deposited_shown, extended_shown,
  emptied_shown, unseen, none_shown,
}

module _ {ScVal Native A : Type 0} (enc : Encoding ScVal Native) (dec : Decoder ScVal Native)
    (agrees : Agrees enc dec) (pf : Platform A) (day : ℕ → ℕ → ℕ → Option ℤ) where
  module _ {L : Type 0} (tk : Token L) (self : Address)
      (early : DaysBeginEarly enc dec agrees pf day) where
    Effect-Shown :
        (auth : Address → Bool) {c d : Chain L} {call : Call}
        → Effect tk self auth c call d
        → IsSound tk self c
        → AllShown enc dec agrees pf day c.vaults c.events
        → AllShown enc dec agrees pf day d.vaults d.events
    Effect-Shown auth {c} (rejected none_fits) s all = all
    Effect-Shown auth {c} (changed (initialised token e)) s all = all
    Effect-Shown auth {c} (changed (created owner name amount unlock asset ledger a p l t m n)) s
          all =
        elim (Result-cases (dec.day_of (some (enc.native (u64 unlock))))) [
          | inl (text, dated) ↦
              step_shown enc dec agrees pf day c.vaults c.events _ _ (new_id c) _
                (parse_create enc pf dec agrees owner (new_id c) unlock c.now amount text dated)
                refl
                (λ o shows.
                  created_shown enc dec agrees pf day owner name text (new_id c) unlock c.now amount
                    _ (early unlock text dated).0 refl o
                    (subst (λ x. Shows enc dec agrees pf day x o) (s.fresh (new_id c) (omega arith))
                      shows))
                all
          | inr (e, undated) ↦ unseen enc dec agrees pf day _ c.events _ e (
              parse_create_undated enc pf dec agrees owner (new_id c) unlock c.now amount e undated)
        ]
    Effect-Shown auth {c} (changed (deposited caller id v amount asset ledger a p f o w t m n)) s
          all =
        step_shown enc dec agrees pf day c.vaults c.events _ _ id _
          (parse_deposit enc pf dec agrees caller id c.now amount) refl
          (λ o shows.
            deposited_shown enc dec agrees pf day v id amount _ "" o
              (subst (λ x. Shows enc dec agrees pf day x o) f shows))
          all
    Effect-Shown auth {c} (changed (extended caller id v seconds a p f o w n)) s all =
        elim (Result-cases (dec.day_of (some (enc.native (u64 (v.unlock_timestamp + seconds)))))) [
          | inl (text, dated) ↦
              step_shown enc dec agrees pf day c.vaults c.events _ _ id _
                (parse_extend enc pf dec agrees caller id _ c.now text dated) refl
                (λ o shows.
                  extended_shown enc dec agrees pf day v id seconds pf.zero_xlm _
                    (join "new unlock " text) o (early _ text dated).1
                    (subst (λ x. Shows enc dec agrees pf day x o) f shows))
                all
          | inr (e, undated) ↦
              unseen enc dec agrees pf day _ c.events _ e
                (parse_extend_undated enc pf dec agrees caller id _ c.now e undated)
        ]
    Effect-Shown auth {c} (changed (emptied caller id v asset ledger a f o w l t m)) s all =
        step_shown enc dec agrees pf day c.vaults c.events _ _ id _
          (parse_withdraw enc pf dec agrees caller id c.now v.balance) refl
          (λ o shows.
            emptied_shown enc dec agrees pf day v id _ _ "" o
              (subst (λ x. Shows enc dec agrees pf day x o) f shows))
          all

    Step-Shown :
        {c d : Chain L}
        → Step tk self c d
        → IsSound tk self c
        → AllShown enc dec agrees pf day c.vaults c.events
        → AllShown enc dec agrees pf day d.vaults d.events
    Step-Shown {c} (called auth call foreign) s all =
        Effect-Shown auth (perform-Effect tk self auth call c) s all
    Step-Shown (passed later le) s all = all
    Step-Shown (moved ledger more) s all = all

    IsNew-Shown : {c : Chain L} → IsNew c → AllShown enc dec agrees pf day c.vaults c.events
    IsNew-Shown new log h id =
        subst
          (λ x.
            Shows enc dec agrees pf day x
              (lookup (key enc pf dec agrees id) (replay pf day log [])))
          (sym (new.no_vault id))
          (none_shown enc dec agrees pf day log id
            (ap (seen enc dec agrees pf day) (sym new.no_event) ∙ h))

    Reach-Shown :
        (lawful : IsLawful tk) {c d : Chain L}
        → IsNew c
        → Reach tk self c d
        → AllShown enc dec agrees pf day d.vaults d.events
    Reach-Shown lawful new here = IsNew-Shown new
    Reach-Shown lawful {c} new (next {d} r step) =
        Step-Shown step (Reach-IsSound tk self lawful c d new r) (Reach-Shown lawful new r)

    -- However the contract was called, the client's event loop over the events that it published, all
    -- parsed and in their order, has an accumulator for just the vaults that exist; it agrees with the
    -- contract on withdrawal and on the time of creation, adds up the payments that make up the
    -- balance, and has no later unlock time. This is for a lawful token, an SDK that decodes what the
    -- host encodes, and days that read back as no later time.
    pub replay-Shows :
        (lawful : IsLawful tk) (b c : Chain L) (log : List (ParsedEvent A)) (id : ℕ)
        → IsNew b
        → Reach tk self b c
        → seen enc dec agrees pf day c.events ≡ ok log
        → Shows enc dec agrees pf day
            (c.vaults id)
            (lookup (key enc pf dec agrees id) (replay pf day log []))
    replay-Shows lawful b c log id new r h = Reach-Shown lawful new r log h id
