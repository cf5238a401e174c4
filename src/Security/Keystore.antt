-- ===== src/Security/Keystore.antt =====
-- src/security/session-keystore.ts: the session cache of wallet seeds. Every operation runs to its
-- end here; Turns has reads and stores turn by turn. What runs after an awaited call that releases a
-- seed is a function of its own (`cache_seed`). Listeners are numbers, and a call of one is an entry
-- of `calls`; what a listener does, a throw included, cannot reach the module's state. The
-- development-only scratch buffer of `wipeCacheEntry` is left out.
pub mod Storage
pub mod IdleLock
pub mod Notify
pub mod Turns
pub mod RoundTrip
pub mod Cache
mod Tests
use Prim.Native.String as NativeString
use stellartimelock_core.Common.{
  ℕ, String, Bool, true, false, not, ◌&&◌, Option, none, some, List, [], ◌∷◌, ◌++◌, ◌==◌,
  if◌then◌else◌, str_eq, length, keep,
}
use stellartimelock_core.Common.Dict.{Dict, lookup, insert, erase}
use stellartimelock_core.Common.Action.{Result, ok, err, Action, pure, ◌>>=◌, ◌>>◌, modify}
use Storage.{Device, Rejection}

-- `${SECRET_PREFIX}${id}` and `${AUTH_FLAG_PREFIX}${id}`
pub secret_key_for : String → String
secret_key_for id = NativeString.◌++◌ "xlm_vault_wallet_secret_" id

pub auth_flag_key : String → String
auth_flag_key id = NativeString.◌++◌ "xlm_vault_wallet_secret_auth_v1_" id

abbrev pub auth_prompt : String
auth_prompt = "Unlock Stellar TimeLock"

-- The module's variables, with what lies outside as `device`.
pub record Keystore (S : Type 0) : Type 0 where
  pub session_cache : Dict String
  pub lock_listeners : List ℕ
  pub calls : List ℕ
  pub last_activity_ms : ℕ
  pub app_state_sub : Bool
  pub backgrounded_at_ms : Option ℕ
  pub device : S

-- `sessionCache.size === 0`
abbrev pub is_empty : Dict String → Bool
is_empty [] = true
is_empty (e ∷ d) = false

-- A string of as many zeros.
abbrev zeros : String → String
zeros String.[] = ""
zeros (String.◌∷◌ c s) = NativeString.◌++◌ "0" (zeros s)

-- `sessionCache.get(id)`, where the empty string counts as a miss
abbrev pub cached_seed : String → Dict String → Option String
cached_seed id cache = elim (lookup id cache) [
  | none ↦ none
  | some s ↦ if str_eq s "" then none else some s
]

abbrev has_listener : ℕ → List ℕ → Bool
has_listener l [] = false
has_listener l (k ∷ ks) = if k == l then true else has_listener l ks

module _ {S : Type 0} where
  -- The returned closure is `unsubscribe_session_lock`; `lockListeners` is a Set.
  pub subscribe_session_lock : ℕ → Keystore S → Keystore S
  subscribe_session_lock l ks =
      if has_listener l ks.lock_listeners
      then ks
      else record ks { lock_listeners = ks.lock_listeners ++ l ∷ [] }

  pub unsubscribe_session_lock : ℕ → Keystore S → Keystore S
  unsubscribe_session_lock l ks = record ks {
    lock_listeners = keep (λ k. not (k == l)) ks.lock_listeners;
  }

  pub notify_lock_change : Keystore S → Keystore S
  notify_lock_change ks = record ks { calls = ks.calls ++ ks.lock_listeners }

  pub is_unlocked : Keystore S → Bool
  is_unlocked ks = not (is_empty ks.session_cache)

  pub wipe_cache_entry : String → Keystore S → Keystore S
  wipe_cache_entry id ks =
      let wiped : Dict String = elim (cached_seed id ks.session_cache) [
        | none ↦ ks.session_cache
        | some s ↦ insert id (zeros s) ks.session_cache
      ] in
      record ks { session_cache = erase id wiped }

  pub drop_wallet : String → Keystore S → Keystore S
  unfolding wipe_cache_entry
  drop_wallet = wipe_cache_entry

  wipe_entries : Dict String → Keystore S → Keystore S
  unfolding wipe_cache_entry
  wipe_entries [] ks = ks
  wipe_entries ((k, _) ∷ entries) ks = wipe_entries entries (wipe_cache_entry k ks)

  pub lock_now : Keystore S → Keystore S
  unfolding wipe_entries is_unlocked notify_lock_change
  lock_now ks =
      let was_unlocked = is_unlocked ks in
      let ks' = record (wipe_entries ks.session_cache ks) { session_cache = [] } in
      if was_unlocked then notify_lock_change ks' else ks'

module _ {S : Type 0} (d : Device S) where
  pub touch : Keystore S → Keystore S
  touch ks = record ks { last_activity_ms = d.now ks.device }

  -- What follows each release of a seed: `sessionCache.set`, `touch`, and the notification if the
  -- cache was empty when the operation began.
  pub cache_seed : Bool → String → String → Keystore S → Keystore S
  unfolding touch notify_lock_change
  cache_seed was_locked id seed ks =
      let ks' = touch (record ks { session_cache = insert id seed ks.session_cache }) in
      if was_locked then notify_lock_change ks' else ks'

  -- A call of the device, seen from the module.
  abbrev pub on_device : {A : Type 0} → Action Rejection S A → Action Rejection (Keystore S) A
  on_device m ks = let (r, s) = m ks.device in (r, record ks { device = s })

  read_migrated : Bool → String → Action Rejection (Keystore S) (Option String)
  unfolding cache_seed secret_key_for
  read_migrated was_locked id = do
    seed ← on_device (d.secure_get_authenticated (secret_key_for id) auth_prompt)
    if str_eq seed ""
        then pure none
        else do modify (cache_seed was_locked id seed); pure (some seed)

  read_legacy : Bool → String → Action Rejection (Keystore S) (Option String)
  unfolding cache_seed secret_key_for auth_flag_key
  read_legacy was_locked id = do
    legacy ← on_device (d.secure_get (secret_key_for id))
    if str_eq legacy "" then pure none else do
      done ← on_device (d.secure_set_authenticated (secret_key_for id) legacy auth_prompt)
      if done then on_device (d.set_item (auth_flag_key id) true) else pure tt
      modify (cache_seed was_locked id legacy)
      pure (some legacy)

  read_through : String → Action Rejection (Keystore S) (Option String)
  unfolding is_unlocked auth_flag_key
  read_through id ks =
      let was_locked = not (is_unlocked ks) in
      (do
        migrated ← on_device (d.get_item (auth_flag_key id))
        if migrated then read_migrated was_locked id else read_legacy was_locked id)
        ks

  pub get_wallet_seed : String → Action Rejection (Keystore S) (Option String)
  unfolding touch
  get_wallet_seed id ks = elim (cached_seed id ks.session_cache) [
    | some cached ↦ (ok (some cached), touch ks)
    | none ↦ read_through id ks
  ]

  set_plain : Bool → String → String → Action Rejection (Keystore S) Bool
  unfolding cache_seed secret_key_for
  set_plain was_locked id seed = do
    fallback_ok ← on_device (d.secure_set (secret_key_for id) seed)
    if fallback_ok then modify (cache_seed was_locked id seed) else pure tt
    pure fallback_ok

  pub set_wallet_seed : String → String → Action Rejection (Keystore S) Bool
  unfolding cache_seed set_plain is_unlocked secret_key_for auth_flag_key
  set_wallet_seed id seed ks =
      let was_locked = not (is_unlocked ks) in
      (do
        done ← on_device (d.secure_set_authenticated (secret_key_for id) seed auth_prompt)
        if done
            then (do
              on_device (d.set_item (auth_flag_key id) true)
              modify (cache_seed was_locked id seed)
              pure true)
            else set_plain was_locked id seed)
        ks

  pub remove_wallet_seed : String → Action Rejection (Keystore S) (Unit {0})
  unfolding wipe_cache_entry secret_key_for auth_flag_key
  remove_wallet_seed id = do
    modify (wipe_cache_entry id)
    on_device (d.secure_remove (secret_key_for id))
    on_device (d.remove_item (auth_flag_key id))
