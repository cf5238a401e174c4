-- ===== src/Api/Events/Replay/History.antt =====
-- What the replay of events in src/api/soroban-client.ts computes for each vault.
use stellartimelock_core.Common.{
  ℕ, String, Bool, true, ◌≡◌, refl, Option, none, some, List, [], ◌∷◌, ◌++◌, keep, str_eq,
  str_eq_iff, arith, if◌then◌else◌,
}
use stellartimelock_core.Common.Dict.{Dict, lookup, lookup-insert}
use stellartimelock_core.Common.Int.{ℤ, ◌≤ℤ◌}
use stellartimelock_core.Api.Vault.{Platform}
use stellartimelock_core.Api.Events.{EventKind, create, deposit, extend, withdraw, ParsedEvent}
use stellartimelock_core.Api.Events.Replay.{Accum, replay_one, store, replay, apply_kind}

module _ {A : Type 0} (pf : Platform A) (day : ℕ → ℕ → ℕ → Option ℤ) where
  -- The history of one vault: its own events, one after the other.
  pub history : Option (Accum A) → List (ParsedEvent A) → Option (Accum A)
  history o [] = o
  history o (ev ∷ evs) = history (replay_one pf day o ev) evs

  abbrev pub of_vault : String → ParsedEvent A → Bool
  of_vault id ev = str_eq ev.vault_id id

  lookup-store_one :
      (id j : String) (ev : ParsedEvent A) (d : Dict (Accum A))
      → lookup j (store pf day id (replay_one pf day (lookup id d) ev) d)
        ≡ (if str_eq id j then replay_one pf day (lookup id d) ev else lookup j d)
  unfolding store replay_one
  lookup-store_one id j ev d = grind (arith, lookup-insert, str_eq_iff)

  -- The accumulator that the loop leaves for a vault is the history of that vault's own events: the
  -- other vaults' events, however they are interleaved, do not count.
  pub replay-history :
      (id : String) (evs : List (ParsedEvent A)) (d : Dict (Accum A))
      → lookup id (replay pf day evs d) ≡ history (lookup id d) (keep (of_vault id) evs)
  unfolding replay history
  replay-history id [] d = refl
  replay-history id (ev ∷ evs) d = ground (
    arith,
    str_eq_iff ev.vault_id id,
    lookup-store_one ev.vault_id id ev d,
    replay-history id evs
        (store pf day ev.vault_id (replay_one pf day (lookup ev.vault_id d) ev) d),
  )

  pub lookup-replay_start : (id : String) → lookup id (replay pf day [] []) ≡ none
  unfolding replay lookup
  lookup-replay_start id = refl

  -- One more event at the end is applied to what the loop has left for its vault.
  pub lookup-replay_last :
      (id : String) (evs : List (ParsedEvent A)) (ev : ParsedEvent A) (d : Dict (Accum A))
      → lookup id (replay pf day (evs ++ ev ∷ []) d) ≡ (
          if str_eq ev.vault_id id
          then replay_one pf day (lookup ev.vault_id (replay pf day evs d)) ev
          else lookup id (replay pf day evs d))
  unfolding replay
  lookup-replay_last id [] ev d = lookup-store_one ev.vault_id id ev d
  lookup-replay_last id (e ∷ evs) ev d =
      lookup-replay_last id evs ev
        (store pf day e.vault_id (replay_one pf day (lookup e.vault_id d) e) d)

  -- Once marked withdrawn, marked withdrawn; and the unlock time never goes back.
  abbrev pub IsLater : Accum A → Accum A → Type 0
  IsLater v w =
      (v.withdrawn ≡ true → w.withdrawn ≡ true) × (v.unlock_timestamp ≤ℤ w.unlock_timestamp)

  apply_kind-IsLater :
      (k : EventKind) (ev : ParsedEvent A) (v : Accum A) → IsLater v (apply_kind pf day k ev v)
  unfolding apply_kind
  apply_kind-IsLater create ev v = ground arith
  apply_kind-IsLater deposit ev v = ground arith
  apply_kind-IsLater extend ev v = ground arith
  apply_kind-IsLater withdraw ev v = ground arith

  history-IsLater :
      (v : Accum A) (evs : List (ParsedEvent A))
      → (w : Accum A) × (history (some v) evs ≡ some w) × IsLater v w
  unfolding history replay_one
  history-IsLater v [] = (v, refl, ((λ h. h), ground arith))
  history-IsLater v (ev ∷ evs) =
      let (w, eq, later) = history-IsLater (apply_kind pf day ev.kind ev v) evs in
      let first = apply_kind-IsLater ev.kind ev v in
      (w, eq, ((λ h. later.0 (first.0 h)), ground (arith, first.1, later.1)))

  -- A vault that the loop has seen stays: its later accumulator keeps the mark of withdrawal, and
  -- its unlock time never goes back.
  replay-IsLater :
      (id : String) (evs : List (ParsedEvent A)) (d : Dict (Accum A)) (v : Accum A)
      → lookup id d ≡ some v
      → (w : Accum A) × (lookup id (replay pf day evs d) ≡ some w) × IsLater v w
  replay-IsLater id evs d v h =
      rw (replay-history id evs d, h) (history-IsLater v (keep (of_vault id) evs))
