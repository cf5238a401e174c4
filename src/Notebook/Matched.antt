-- ===== src/Notebook/Matched.antt =====
-- The cached key of src/notebook/crypto.ts belongs to the wallet that is set.
use stellartimelock_core.Common.{
  ℕ, ◌+◌, ◌<◌, ◌≡◌, refl, sym, ap, Bool, true, false, Option, none, some, [], ◌∷◌, arith,
  if◌then◌else◌,
}
use mathlib.Core.Path.{subst}
use stellartimelock_core.Common.Action.{Result, ok, err, Action, pure, ◌>>=◌}
use stellartimelock_core.Security.Wipe.{WordArray}
use stellartimelock_core.Notebook.{
  Wallet, Notebook, seed_of, same_seed, put, wipe_array, reset_key_cache,
  set_active_wallet_for_crypto, usable, derived_key, scrub, keep_derived, hold_seed, derive,
  keep_legacy, outside, read_or_create_master_key, get_key, seal, encrypt_with, encrypt,
  decrypt_with, decrypt, after_dot, before_dot,
}
use stellartimelock_core.Security.Wipe.Utf8.{utf8_to_mutable_bytes}
use stellartimelock_core.Notebook.Libraries.{Text, Platform, text_eq}

text_eq_sound : (s t : Text) → text_eq s t ≡ true → s ≡ t
text_eq_sound [] [] h = refl
text_eq_sound (a ∷ s) (b ∷ t) h = ground (arith, text_eq_sound s t)
text_eq_sound [] (b ∷ t) h = ground arith
text_eq_sound (a ∷ s) [] h = ground arith

same_seed_sound : (o q : Option Text) → same_seed o q ≡ true → o ≡ q
same_seed_sound none none h = refl
same_seed_sound (some a) (some b) h = ap some (text_eq_sound a b h)
same_seed_sound none (some b) h = ground arith
same_seed_sound (some a) none h = ground arith

module _ {E W : Type 0} (p : Platform E W) where
  -- The key that is cached lies at an address in use, and is the one derived of the seed, if a
  -- wallet with a seed is set.
  abbrev pub Matched : Option ℕ → Option Text → (ℕ → WordArray) → ℕ → Type 0
  Matched none seed arrays next = Unit
  Matched (some a) none arrays next = a < next
  Matched (some a) (some seed) arrays next = (a < next) × (derived_key p seed ≡ ok (arrays a))

  abbrev pub IsMatched : Notebook W → Type 0
  IsMatched n = Matched n.key_cache (usable p 1 (seed_of n.active_wallet)) n.arrays n.next

  wiped-Matched :
      (o : Option ℕ) (n : Notebook W) (seed : Option Text)
      → let n' = wipe_array o (record n { key_cache = none }) in
        Matched n'.key_cache seed n'.arrays n'.next
  wiped-Matched none n seed = tt
  wiped-Matched (some a) n seed = tt

  reset_key_cache-IsMatched : (n : Notebook W) → IsMatched (reset_key_cache n)
  unfolding reset_key_cache
  reset_key_cache-IsMatched n = wiped-Matched n.key_cache n _

  set_active_wallet_for_crypto-IsMatched :
      (w : Option Wallet) (n : Notebook W)
      → IsMatched n
      → IsMatched (set_active_wallet_for_crypto w n)
  unfolding set_active_wallet_for_crypto reset_key_cache
  set_active_wallet_for_crypto-IsMatched w n m =
      go (same_seed (seed_of n.active_wallet) (seed_of w)) refl
    where
      go :
          (b : Bool)
          → same_seed (seed_of n.active_wallet) (seed_of w) ≡ b
          → let n' = if b then n else reset_key_cache n in
            Matched n'.key_cache (usable p 1 (seed_of w)) n'.arrays n'.next
      go true h =
          subst (λ o. Matched n.key_cache (usable p 1 o) n.arrays n.next)
            (same_seed_sound (seed_of n.active_wallet) (seed_of w) h) m
      go false h = wiped-Matched n.key_cache n (usable p 1 (seed_of w))

  derive-IsMatched :
      (seed : Text) (n : Notebook W)
      → usable p 1 (seed_of n.active_wallet) ≡ some seed
      → n.key_cache ≡ none
      → IsMatched (derive p seed n).1
  unfolding derive
  derive-IsMatched seed n h empty = go (derived_key p seed) refl
    where
      go :
          (r : Result E WordArray)
          → derived_key p seed ≡ r
          → IsMatched
              (keep_derived p n.next (n.next + 1) r (hold_seed p (utf8_to_mutable_bytes seed) n)).1
      go (err e) q =
          subst
            (λ o.
              Matched o (usable p 1 (seed_of n.active_wallet))
                (scrub p n.next (n.next + 1) (hold_seed p (utf8_to_mutable_bytes seed) n)).arrays
                (n.next + 1 + 1))
            (sym empty) tt
      go (ok words) q =
          subst
            (λ o.
              Matched (some (n.next + 1 + 1)) o
                (scrub p n.next (n.next + 1)
                  (put (n.next + 1 + 1) words (hold_seed p (utf8_to_mutable_bytes seed) n))).arrays
                (n.next + 1 + 1 + 1))
            (sym h) (omega arith, ground arith)

  keep_legacy-IsMatched :
      (b64 : Text) (n : Notebook W)
      → usable p 1 (seed_of n.active_wallet) ≡ none
      → IsMatched (keep_legacy p b64 n).1
  unfolding keep_legacy
  keep_legacy-IsMatched b64 n h =
      subst (λ o. Matched (some n.next) o (put n.next (p.base64_parse b64) n).arrays (n.next + 1))
        (sym h) (omega arith)

  get_key-IsMatched : (n : Notebook W) → IsMatched n → IsMatched (get_key p n).1
  unfolding get_key
  get_key-IsMatched n m = cached n.key_cache refl
    where
      legacy :
          (o : Result E Text × W)
          → usable p 1 (seed_of n.active_wallet) ≡ none
          → n.key_cache ≡ none
          → IsMatched
              (elim o.0 as (λ x. Result E ℕ × Notebook W) [
                | ok b64 ↦ keep_legacy p b64 (record n { world = o.1 })
                | err e ↦ (err e, record n { world = o.1 })
              ]).1
      legacy (ok b64, w) h empty = keep_legacy-IsMatched b64 (record n { world = w }) h
      legacy (err e, w) h empty =
          subst (λ o. Matched o (usable p 1 (seed_of n.active_wallet)) n.arrays n.next) (sym empty)
            tt

      seeded :
          (o : Option Text)
          → usable p 1 (seed_of n.active_wallet) ≡ o
          → n.key_cache ≡ none
          → IsMatched
              (elim o as (λ x. Result E ℕ × Notebook W) [
                | some seed ↦ derive p seed n
                | none ↦ (do b64 ← outside p (read_or_create_master_key p); keep_legacy p b64) n
              ]).1
      seeded (some seed) h empty = derive-IsMatched seed n h empty
      seeded none h empty = legacy (read_or_create_master_key p n.world) h empty

      cached :
          (o : Option ℕ)
          → n.key_cache ≡ o
          → IsMatched
              (elim o as (λ x. Result E ℕ × Notebook W) [
                | some key ↦ (ok key, n)
                | none ↦ elim (usable p 1 (seed_of n.active_wallet)) [
                  | some seed ↦ derive p seed n
                  | none ↦ (do b64 ← outside p (read_or_create_master_key p); keep_legacy p b64) n
                ]
              ]).1
      cached (some key) h = m
      cached none h = seeded (usable p 1 (seed_of n.active_wallet)) refl h

  -- What follows the key touches neither the cache nor the keys.
  encrypt_with-IsMatched :
      (text : Text) (key : ℕ) (n : Notebook W)
      → IsMatched n
      → IsMatched (encrypt_with p text key n).1
  unfolding encrypt_with seal
  encrypt_with-IsMatched text key n m = ground arith

  encrypt-IsMatched : (text : Text) (n : Notebook W) → IsMatched n → IsMatched (encrypt p text n).1
  unfolding encrypt
  encrypt-IsMatched text n m = go (get_key p n) (get_key-IsMatched n m)
    where
      go :
          (o : Result E ℕ × Notebook W)
          → IsMatched o.1
          → IsMatched
              (elim o.0 as (λ x. Result E Text × Notebook W) [
                | ok key ↦ encrypt_with p text key o.1
                | err e ↦ (err e, o.1)
              ]).1
      go (ok key, n') h = encrypt_with-IsMatched text key n' h
      go (err e, n') h = h

  decrypt-IsMatched : (text : Text) (n : Notebook W) → IsMatched n → IsMatched (decrypt p text n).1
  unfolding decrypt decrypt_with
  decrypt-IsMatched text n m = parts (after_dot text)
    where
      go :
          (rest : Text) (o : Result E ℕ × Notebook W)
          → IsMatched o.1
          → IsMatched
              (elim o.0 as (λ x. Result E Text × Notebook W) [
                | ok key ↦ decrypt_with p (before_dot text) (before_dot rest) key o.1
                | err e ↦ (err e, o.1)
              ]).1
      go rest (ok key, n') h = h
      go rest (err e, n') h = h

      parts :
          (o : Option Text)
          → IsMatched
              ((elim o as (λ x. Action E (Notebook W) Text) [
                | none ↦ pure []
                | some rest ↦ do
                  key ← get_key p
                  decrypt_with p (before_dot text) (before_dot rest) key
              ])
                n).1
      parts none = m
      parts (some rest) = go rest (get_key p n) (get_key-IsMatched n m)

  -- The notebooks that the operations lead to, each run to its end, from any with no key.
  pub data Reached : Notebook W → Type 0 where
    begin : (n : Notebook W) → n.key_cache ≡ none → Reached n
    switch :
        (w : Option Wallet) (n : Notebook W)
        → Reached n
        → Reached (set_active_wallet_for_crypto w n)
    reset : (n : Notebook W) → Reached n → Reached (reset_key_cache n)
    write : (text : Text) (n : Notebook W) → Reached n → Reached (encrypt p text n).1
    read : (payload : Text) (n : Notebook W) → Reached n → Reached (decrypt p payload n).1

  -- After any sequence of operations that began with no key, the key that is cached is the one
  -- derived of the seed of the active wallet, if that wallet has one.
  pub Reached-IsMatched : (n : Notebook W) → Reached n → IsMatched n
  Reached-IsMatched n (begin _ h) =
      subst (λ o. Matched o (usable p 1 (seed_of n.active_wallet)) n.arrays n.next) (sym h) tt
  Reached-IsMatched _ (switch w n r) =
      set_active_wallet_for_crypto-IsMatched w n (Reached-IsMatched n r)
  Reached-IsMatched _ (reset n r) = reset_key_cache-IsMatched n
  Reached-IsMatched _ (write text n r) = encrypt-IsMatched text n (Reached-IsMatched n r)
  Reached-IsMatched _ (read payload n r) = decrypt-IsMatched payload n (Reached-IsMatched n r)
