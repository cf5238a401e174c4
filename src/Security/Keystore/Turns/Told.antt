-- ===== src/Security/Keystore/Turns/Told.antt =====
-- What the lock listeners of src/security/session-keystore.ts are told when operations interleave.
use stellartimelock_core.Common.{
  ℕ, String, Bool, true, false, not, ◌≡◌, refl, sym, ap, ◌∙◌, ◌⊎◌, inl, inr, List, [], ◌∷◌, ◌++◌,
  All, All-append, Bool-cases, arith, if◌then◌else◌,
}
use mathlib.Core.Path.{subst}
use mathlib.Core.List.{append_assoc, append-nil}
use stellartimelock_core.Security.Keystore.{Keystore, is_empty, is_unlocked, cache_seed, touch}
use stellartimelock_core.Security.Keystore.Storage.{Device}
use stellartimelock_core.Security.Keystore.Turns.{
  Task, reading_flag, reading_secret, reading_legacy, migrating, marking_read, storing,
  marking_stored, storing_plain, Turn, was_locked, pending, begin_read, begin_store, take_turn,
  System, Move, reads, stores, goes_on, Moves, here, next,
}

module _ {S : Type 0} where
  -- A turn of an operation whose `wasLocked` is `w`: it caches nothing and calls nobody, or it caches
  -- a seed and calls each listener if the operation began on an empty cache.
  pub record IsTurn (w : Bool) (ks : Keystore S) (x : Turn × Keystore S) : Type 0 where
    pub listeners : x.1.lock_listeners ≡ ks.lock_listeners
    pub tasks : All (λ t. was_locked t ≡ w) (pending x.0)
    pub told :
        ((x.1.session_cache ≡ ks.session_cache) × (x.1.calls ≡ ks.calls))
        ⊎ (x.1.calls ≡ (if w then ks.calls ++ ks.lock_listeners else ks.calls))

module _ {S : Type 0} (d : Device S) where
  take_turn-IsTurn : (t : Task) (ks : Keystore S) → IsTurn (was_locked t) ks (take_turn d t ks)
  unfolding take_turn cache_seed
  take_turn-IsTurn (reading_flag w id) ks = grind arith
  take_turn-IsTurn (reading_secret w id) ks = grind arith
  take_turn-IsTurn (reading_legacy w id) ks = grind arith
  take_turn-IsTurn (migrating w id seed) ks = grind arith
  take_turn-IsTurn (marking_read w id seed) ks = grind arith
  take_turn-IsTurn (storing w id seed) ks = grind arith
  take_turn-IsTurn (marking_stored w id seed) ks = grind arith
  take_turn-IsTurn (storing_plain w id seed) ks = grind arith

  begin_read-IsTurn :
      (id : String) (ks : Keystore S) → IsTurn (not (is_unlocked ks)) ks (begin_read d id ks)
  unfolding begin_read touch
  begin_read-IsTurn id ks = grind arith

  begin_store-IsTurn :
      (id seed : String) (ks : Keystore S)
      → IsTurn (not (is_unlocked ks)) ks (begin_store d id seed ks)
  unfolding begin_store
  begin_store-IsTurn id seed ks = grind arith

apart : ¬ ◌≡◌ {A = Bool} false true
apart h = cc

All-middle :
    {A : Type 0} (P : A → Type 0) (before : List A) (t : A) (rest : List A)
    → All P (before ++ t ∷ rest)
    → All P before × P t × All P rest
All-middle P [] t rest h = (tt, h.0, h.1)
All-middle P (x ∷ before) t rest h =
    let (first, here_it_is, last) = All-middle P before t rest h.1 in
    ((h.0, first), here_it_is, last)

kept_flags :
    (before rest : List Task) (turn : Turn) (w : Bool)
    → w ≡ true
    → All (λ t. was_locked t ≡ true) before
    → All (λ t. was_locked t ≡ true) rest
    → All (λ t. was_locked t ≡ w) (pending turn)
    → All (λ t. was_locked t ≡ true) (before ++ (pending turn ++ rest))
kept_flags before rest turn w set first last own =
    All-append _ before (pending turn ++ rest) first (
      All-append _ (pending turn) rest
        (subst (λ b. All (λ t. was_locked t ≡ b) (pending turn)) set own) last)

no_call :
    (w : Bool) (calls heard : List ℕ) → w ≡ false → (if w then calls ++ heard else calls) ≡ calls
no_call w calls heard h = rw h refl

module _ (base ls : List ℕ) where
  first_call :
      (w : Bool) (calls heard : List ℕ)
      → w ≡ true
      → calls ≡ base
      → heard ≡ ls
      → (if w then calls ++ heard else calls) ≡ base ++ (ls ++ [])
  first_call w calls heard h c l = rw (h, c, l, append-nil ls) refl

  next_call :
      (w : Bool) (calls heard more : List ℕ)
      → w ≡ true
      → calls ≡ base ++ (ls ++ more)
      → heard ≡ ls
      → (if w then calls ++ heard else calls) ≡ base ++ (ls ++ (more ++ ls))
  next_call w calls heard more h c l = rw (h, c, l) (simp append_assoc)

module _ {S : Type 0} (base ls : List ℕ) where
  -- Nobody is unlocked or told of it, and all that wait began so; or each listener was called.
  pub record IsTold (s : System S) : Type 0 where
    pub listeners : s.store.lock_listeners ≡ ls
    pub told :
        ((is_unlocked s.store ≡ false)
          × All (λ t. was_locked t ≡ true) s.tasks
          × (s.store.calls ≡ base))
        ⊎ ((more : List ℕ) × (s.store.calls ≡ base ++ (ls ++ more)))

  same_cache :
      (ks ks' : Keystore S)
      → ks'.session_cache ≡ ks.session_cache
      → is_unlocked ks' ≡ is_unlocked ks
  unfolding is_unlocked
  same_cache ks ks' h = ap (λ c. not (is_empty c)) h

  -- A turn by an operation whose flag is set as long as nobody was told.
  turn-IsTold :
      (w : Bool) (s : System S) (before rest : List Task) (x : Turn × Keystore S)
      → IsTurn w s.store x
      → IsTold s
      → ((is_unlocked s.store ≡ false)
          → All (λ t. was_locked t ≡ true) s.tasks
          → (w ≡ true)
            × All (λ t. was_locked t ≡ true) before
            × All (λ t. was_locked t ≡ true) rest)
      → IsTold (record { store = x.1; tasks = before ++ (pending x.0 ++ rest) })
  turn-IsTold w s before rest x turn told flags = record {
    listeners = turn.listeners ∙ told.listeners;
    told = elim told.told [
      | inl (locked, waiting, quiet) ↦
          let (set, first, last) = flags locked waiting in
          elim turn.told [
            | inl (cache, calls) ↦ inl (
              same_cache s.store x.1 cache ∙ locked,
              kept_flags before rest x.0 w set first last turn.tasks,
              calls ∙ quiet,
            )
            | inr calls ↦ inr (
              [],
              calls
                  ∙ first_call base ls w s.store.calls s.store.lock_listeners set quiet
                      told.listeners,
            )
          ]
      | inr (more, calls) ↦ elim turn.told [
        | inl (cache, same) ↦ inr (more, same ∙ calls)
        | inr again ↦ elim (Bool-cases w) [
          | inl set ↦ inr (
            more ++ ls,
            again
                ∙ next_call base ls w s.store.calls s.store.lock_listeners more set calls
                    told.listeners,
          )
          | inr unset ↦
              inr (more, again ∙ no_call w s.store.calls s.store.lock_listeners unset ∙ calls)
        ]
      ]
    ];
  }

module _ {S : Type 0} (d : Device S) (base ls : List ℕ) where
  Move-IsTold : {s t : System S} → Move d s t → IsTold base ls s → IsTold base ls t
  Move-IsTold {s} (reads id) told =
      turn-IsTold base ls _ s [] s.tasks (begin_read d id s.store) (begin_read-IsTurn d id s.store)
        told (λ locked waiting. (ap not locked, tt, waiting))
  Move-IsTold {s} (stores id seed) told =
      turn-IsTold base ls _ s [] s.tasks (begin_store d id seed s.store)
        (begin_store-IsTurn d id seed s.store) told (λ locked waiting. (ap not locked, tt, waiting))
  Move-IsTold {s} (goes_on before rest t e) told =
      turn-IsTold base ls _ s before rest (take_turn d t s.store) (take_turn-IsTurn d t s.store)
        told
        (λ locked waiting.
          let (first, own, last) =
            All-middle _ before t rest (subst (λ l. All (λ u. was_locked u ≡ true) l) e waiting) in
          (own, first, last))

  Moves-IsTold : {s t : System S} → Moves d s t → IsTold base ls s → IsTold base ls t
  Moves-IsTold here told = told
  Moves-IsTold (next moves move) told = Move-IsTold move (Moves-IsTold moves told)

module _ {S : Type 0} (d : Device S) where
  -- However the turns of reads and stores that begin on an empty cache are interleaved, if a seed is
  -- cached afterwards each listener was called, and the first time before anything else was.
  pub Moves-told :
      (s t : System S)
      → s.tasks ≡ []
      → is_unlocked s.store ≡ false
      → Moves d s t
      → is_unlocked t.store ≡ true
      → (more : List ℕ) × (t.store.calls ≡ s.store.calls ++ (s.store.lock_listeners ++ more))
  Moves-told s t none_waits locked moves open_now =
      let told = Moves-IsTold d s.store.calls s.store.lock_listeners moves (record {
        listeners = refl;
        told =
            inl (locked, subst (λ l. All (λ u. was_locked u ≡ true) l) (sym none_waits) tt, refl);
      }) in
      elim told.told [
        | inl (still, waiting, quiet) ↦ absurd (apart (sym still ∙ open_now))
        | inr called ↦ called
      ]
