-- ===== src/Notebook/Erased.antt =====
-- What src/notebook/crypto.ts leaves of keys and seeds, and what two calls that are interleaved at an
-- await do.
use stellartimelock_core.Common.{
  ℕ, ◌+◌, ◌≡◌, refl, sym, ap, ◌∙◌, false, Option, none, some, List, arith, if◌then◌else◌,
}
use mathlib.Core.Path.{subst}
use stellartimelock_core.Common.Action.{Result, ok, err}
use stellartimelock_core.Security.Wipe.{WordArray, wipe_word_array}
use stellartimelock_core.Security.Wipe.Utf8.{utf8_to_mutable_bytes}
use stellartimelock_core.Security.Wipe.Zeroed.{IsZeroed, zeros-IsZeroed, wipe_bytes-Wiped}
use stellartimelock_core.Notebook.{
  Wallet, Notebook, seed_of, same_seed, put, wipe_array, reset_key_cache,
  set_active_wallet_for_crypto, derived_key, scrub, keep_derived, hold_seed, derive, keep_legacy,
  get_key, seal,
}
use stellartimelock_core.Notebook.Libraries.{Text, Platform}

wipe_word_array-Zeroed : (x : WordArray) → IsZeroed (wipe_word_array x).words
unfolding wipe_word_array
wipe_word_array-Zeroed x = zeros-IsZeroed x.words

module _ {W : Type 0} where
  put_same : (a : ℕ) (x : WordArray) (n : Notebook W) → (put a x n).arrays a ≡ x
  put_same a x n = ground arith

  wipe_array-Zeroed : (a : ℕ) (n : Notebook W) → IsZeroed ((wipe_array (some a) n).arrays a).words
  wipe_array-Zeroed a n =
      subst (λ (x : WordArray). IsZeroed x.words)
        (sym (put_same a (wipe_word_array (n.arrays a)) n)) (wipe_word_array-Zeroed (n.arrays a))

  -- What a switch to a wallet with another seed leaves.
  abbrev emptied : Option Wallet → ℕ → Notebook W → Notebook W
  emptied w a n = record (put a (wipe_word_array (n.arrays a)) (record n { key_cache = none })) {
    active_wallet = w;
  }

  switched :
      (w : Option Wallet) (n : Notebook W) (a : ℕ)
      → n.key_cache ≡ some a
      → same_seed (seed_of n.active_wallet) (seed_of w) ≡ false
      → set_active_wallet_for_crypto w n ≡ emptied w a n
  unfolding set_active_wallet_for_crypto reset_key_cache
  switched w n a cached other =
      ap (λ b. record (if b then n else reset_key_cache n) { active_wallet = w }) other
      ∙ ap (λ o. record (wipe_array o (record n { key_cache = none })) { active_wallet = w }) cached

  -- A switch to a wallet with another seed drops the key that is cached and leaves zeros of it.
  set_active_wallet_for_crypto_erases :
      (w : Option Wallet) (n : Notebook W) (a : ℕ)
      → n.key_cache ≡ some a
      → same_seed (seed_of n.active_wallet) (seed_of w) ≡ false
      → let m = set_active_wallet_for_crypto w n in
        (m.key_cache ≡ none) × IsZeroed (m.arrays a).words
  set_active_wallet_for_crypto_erases w n a cached other =
      subst (λ (m : Notebook W). (m.key_cache ≡ none) × IsZeroed (m.arrays a).words)
        (sym (switched w n a cached other)) (refl, wipe_array-Zeroed a n)

module _ {E W : Type 0} (p : Platform E W) where
  scrub-Zeroed :
      (at words : ℕ) (n : Notebook W)
      → IsZeroed ((scrub p at words n).memory.bytes at)
        × IsZeroed ((scrub p at words n).arrays words).words
  scrub-Zeroed at words n = (wipe_bytes-Wiped (some at) n.memory, wipe_array-Zeroed words n)

  -- The key, cached at the next address.
  abbrev kept : WordArray → Notebook W → Notebook W
  kept words m = record (put m.next words m) { key_cache = some m.next; next = m.next + 1 }

  -- However the derivation of a key ends, the bytes of the seed and their words hold zeros only.
  pub derive_erases :
      (seed : Text) (n : Notebook W)
      → IsZeroed ((derive p seed n).1.memory.bytes n.next)
        × IsZeroed ((derive p seed n).1.arrays (n.next + 1)).words
  unfolding derive
  derive_erases seed n = go (derived_key p seed)
    where
      go :
          (r : Result E WordArray)
          → let m =
              (keep_derived p n.next
                (n.next + 1)
                r
                (hold_seed p (utf8_to_mutable_bytes seed) n)).1 in
            IsZeroed (m.memory.bytes n.next) × IsZeroed (m.arrays (n.next + 1)).words
      go (err e) = scrub-Zeroed n.next (n.next + 1) (hold_seed p (utf8_to_mutable_bytes seed) n)
      go (ok words) =
          scrub-Zeroed n.next (n.next + 1) (kept words (hold_seed p (utf8_to_mutable_bytes seed) n))

  -- A text whose key was read before a switch to a wallet with another seed, and whose IV comes
  -- after it, is encrypted under zeros.
  pub encrypt_with_after_switch :
      (text : Text) (bytes : List ℕ) (w : Option Wallet) (n : Notebook W) (a : ℕ)
      → n.key_cache ≡ some a
      → same_seed (seed_of n.active_wallet) (seed_of w) ≡ false
      → (seal p text bytes a (set_active_wallet_for_crypto w n)).0
        ≡ (seal p text bytes a (put a (wipe_word_array (n.arrays a)) n)).0
  unfolding seal
  encrypt_with_after_switch text bytes w n a cached other =
      ap (λ (m : Notebook W). (seal p text bytes a m).0) (switched w n a cached other)
      ∙ ground arith

  -- A legacy key whose promise resolves after a wallet was set is cached, and what the next call
  -- returns.
  keep_legacy_after_switch :
      (b64 : Text) (w : Wallet) (n : Notebook W)
      → let m = (keep_legacy p b64 (set_active_wallet_for_crypto (some w) n)).1 in
        (key : ℕ) × (get_key p m ≡ (ok key, m)) × (m.arrays key ≡ p.base64_parse b64)
  unfolding keep_legacy get_key
  keep_legacy_after_switch b64 w n =
      ((set_active_wallet_for_crypto (some w) n).next, refl, ground arith)
