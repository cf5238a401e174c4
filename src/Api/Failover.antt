-- ===== src/Api/Failover.antt =====
-- The retry loop of src/api/soroban-client.ts over the RPC endpoints, as in `loadAccount`. The loops
-- of `fetchContractEvents` leave it with the error where this one throws the error.
use Prim.Native.Nat.{max}
use stellartimelock_core.Common.{
  ℕ, zero, suc, ◌+◌, ◌-◌, Bool, true, false, not, ◌||◌, ◌≡◌, Option, none, some, ◌==◌,
  if◌then◌else◌, arith, or_else, Bool-cases, inl, inr,
}
use stellartimelock_core.Common.Action.{Result, ok, err, Action, Result-cases}
use stellartimelock_core.Api.Errors.{Fault, error}

shift : (k n : ℕ) → suc (k + suc n) ≡ suc (suc k + n)
shift k n = omega arith

-- `isRpcTransportError` and `rotateRpcUrl` of rpc-failover.ts, which is not in the repository.
module _ {S A : Type 0} (is_transport : Fault → Bool) (rotate : Fault → S → S)
    (op : Action Fault S A) where
  -- `left` rounds of `for (attempt = 0; attempt < Math.max(1, total); attempt++)` are to come, so
  -- that `attempt` is the bound less `left`; `last` is `lastErr`.
  unfoldable pub failover_from : ℕ → ℕ → Option Fault → Action Fault S A
  failover_from total zero last s = (err (or_else last (error "undefined")), s)
  failover_from total (suc left) last s =
      let (r, s') = op s in
      elim r [
        | ok a ↦ (ok a, s')
        | err e ↦
            let next = failover_from total left (some e) (rotate e s') in
            if not (is_transport e) || (max 1 total - suc left) == (total - 1)
            then (err e, s')
            else next
      ]

  unfoldable pub failover : ℕ → Action Fault S A
  unfolding failover_from
  failover total = failover_from total (max 1 total) none

  -- A run with `n` rotations left: the call returns; it throws what is no transport error, or with
  -- no rotation left, which is passed on; or it throws a transport error, and after a rotation a
  -- run with one rotation less follows.
  pub data Tries : ℕ → S → Result Fault A → S → Type 0 where
    returns : {n : ℕ} {s : S} {a : A} → (op s).0 ≡ ok a → Tries n s (ok a) (op s).1
    refused :
        {n : ℕ} {s : S} {e : Fault}
        → (op s).0 ≡ err e
        → is_transport e ≡ false
        → Tries n s (err e) (op s).1
    exhausted : {s : S} {e : Fault} → (op s).0 ≡ err e → Tries zero s (err e) (op s).1
    rotated :
        {n : ℕ} {s t : S} {e : Fault} {r : Result Fault A}
        → (op s).0 ≡ err e
        → is_transport e ≡ true
        → Tries n (rotate e (op s).1) r t
        → Tries (suc n) s r t

  module _ (total left : ℕ) (last : Option Fault) (s : S) where
    from_returns :
        {a : A} → (op s).0 ≡ ok a → failover_from total (suc left) last s ≡ (ok a, (op s).1)
    unfolding failover_from
    from_returns h = ground arith

    from_stops :
        {e : Fault}
        → (op s).0 ≡ err e
        → (not (is_transport e) || (max 1 total - suc left) == (total - 1)) ≡ true
        → failover_from total (suc left) last s ≡ (err e, (op s).1)
    unfolding failover_from
    from_stops h stop = ground arith

    from_rotates :
        {e : Fault}
        → (op s).0 ≡ err e
        → (not (is_transport e) || (max 1 total - suc left) == (total - 1)) ≡ false
        → failover_from total (suc left) last s
          ≡ failover_from total left (some e) (rotate e (op s).1)
    unfolding failover_from
    from_rotates h more = ground arith

  failover_from-Tries :
      (n k : ℕ) (last : Option Fault) (s : S)
      → let (r, t) = failover_from (suc (k + n)) (suc n) last s in Tries n s r t
  failover_from-Tries zero k last s = elim (Result-cases (op s).0) [
    | inl (a, h) ↦ rw (from_returns (suc (k + 0)) 0 last s h) (returns h)
    | inr (e, h) ↦ rw (from_stops (suc (k + 0)) 0 last s h (ground arith)) (exhausted h)
  ]
  failover_from-Tries (suc n) k last s = elim (Result-cases (op s).0) [
    | inl (a, h) ↦ rw (from_returns (suc (k + suc n)) (suc n) last s h) (returns h)
    | inr (e, h) ↦ elim (Bool-cases (is_transport e)) [
      | inl yes' ↦ rw (from_rotates (suc (k + suc n)) (suc n) last s h (ground arith)) (
          rotated h yes'
            (rw (shift k n) (failover_from-Tries n (suc k) (some e) (rotate e (op s).1))))
      | inr no' ↦ rw (from_stops (suc (k + suc n)) (suc n) last s h (ground arith)) (refused h no')
    ]
  ]

  -- With `n` fallback endpoints the loop makes at most `n` rotations: it returns what the call
  -- returns, stops at once at an error that is no transport error, rotates and tries again after a
  -- transport error, and throws the last one when no rotation is left.
  pub failover-Tries : (n : ℕ) (s : S) → let (r, t) = failover (1 + n) s in Tries n s r t
  unfolding failover
  failover-Tries n s =
      let bound : max 1 (1 + n) ≡ suc n = omega arith in
      let total : 1 + n ≡ suc (0 + n) = omega arith in
      rw (bound, total) (failover_from-Tries n 0 none s)
