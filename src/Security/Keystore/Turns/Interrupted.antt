-- ===== src/Security/Keystore/Turns/Interrupted.antt =====
-- A lock between the turns of a read, in src/security/session-keystore.ts.
use stellartimelock_core.Common.{
  String, true, false, ◌≡◌, ap, ◌∙◌, ◌++◌, none, some, str_eq, arith, if◌then◌else◌,
}
use stellartimelock_core.Common.Action.{ok}
use stellartimelock_core.Security.Keystore.{
  Keystore, is_unlocked, cached_seed, cache_seed, lock_now, secret_key_for, auth_flag_key,
  auth_prompt,
}
use stellartimelock_core.Security.Keystore.Storage.{Device}
use stellartimelock_core.Security.Keystore.Notify.{lock_now_lem, is_empty-insert}
use stellartimelock_core.Security.Keystore.Turns.{
  waits, ends, seed_of, reading_flag, begin_read, take_turn, alone,
}

module _ {S : Type 0} (d : Device S) (id seed : String) where
  begins :
      (ks : Keystore S)
      → is_unlocked ks ≡ true
      → cached_seed id ks.session_cache ≡ none
      → begin_read d id ks ≡ (waits (reading_flag false id), ks)
  unfolding begin_read
  begins ks open_now miss = cc (open_now, miss)

  two_turns :
      (ks : Keystore S) (s s' : S)
      → d.get_item (auth_flag_key id) ks.device ≡ (ok true, s)
      → d.secure_get_authenticated (secret_key_for id) auth_prompt s ≡ (ok seed, s')
      → str_eq seed "" ≡ false
      → alone d 2 (waits (reading_flag false id), ks)
        ≡ (ends (ok (seed_of (some seed))), cache_seed d false id seed (record ks { device = s' }))
  unfolding alone take_turn
  two_turns ks s s' flag secret found = cc (flag, secret, found)

  cached_silently :
      (ks : Keystore S)
      → (is_unlocked (cache_seed d false id seed ks) ≡ true)
        × ((cache_seed d false id seed ks).calls ≡ ks.calls)
  unfolding cache_seed is_unlocked
  cached_silently ks = ground (arith, is_empty-insert id seed ks.session_cache)

  -- A read that began while another seed was cached, and whose seed arrives after a lock, puts its
  -- seed into the cache again; the listeners are told of the lock and of nothing after it.
  pub begin_read-lock_now :
      (ks : Keystore S) (s s' : S)
      → is_unlocked ks ≡ true
      → cached_seed id ks.session_cache ≡ none
      → d.get_item (auth_flag_key id) ks.device ≡ (ok true, s)
      → d.secure_get_authenticated (secret_key_for id) auth_prompt s ≡ (ok seed, s')
      → str_eq seed "" ≡ false
      → let (turn, begun) = begin_read d id ks in
        let (answer, final) = alone d 2 (turn, lock_now begun) in
        (answer ≡ ends (ok (seed_of (some seed))))
        × (is_unlocked (lock_now begun) ≡ false)
        × (is_unlocked final ≡ true)
        × (final.calls ≡ ks.calls ++ ks.lock_listeners)
  begin_read-lock_now ks s s' open_now miss flag secret found =
      let begun = begins ks open_now miss in
      let (emptied, locked, same, told) = lock_now_lem ks in
      let flag' = ap (λ x. d.get_item (auth_flag_key id) x) same ∙ flag in
      let final = record (lock_now ks) { device = s' } in
      let (open_again, silent) = cached_silently final in
      let ended =
        ap (λ x. alone d 2 (x.0, lock_now x.1)) begun
        ∙ two_turns (lock_now ks) s s' flag' secret found in
      (
        ap (λ x. x.0) ended,
        ap (λ x. is_unlocked (lock_now x.1)) begun ∙ locked,
        ap (λ x. is_unlocked x.1) ended ∙ open_again,
        ap (λ x. x.1.calls) ended
            ∙ silent
            ∙ told
            ∙ ap (λ b. if b then ks.calls ++ ks.lock_listeners else ks.calls) open_now,
      )
