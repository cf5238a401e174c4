-- ===== src/Security/Biometric.antt =====
-- src/security/biometric.ts: enrolment, and the key derived of the root secret. A string of a store is
-- the list of its UTF-16 units.
pub mod Hkdf
pub mod Enrolment
mod Tests
use stellartimelock_core.Common.{
  ℕ, ◌+◌, ◌-◌, ◌/◌, ◌%◌, String, Bool, true, false, ◌&&◌, Option, none, some, List, [], ◌∷◌, ◌==◌,
  ltb, if◌then◌else◌,
}
use stellartimelock_core.Common.Action.{Result, ok, err, Action, pure, ◌>>=◌, ◌>>◌}
use stellartimelock_core.Common.Text.{codes}
use Hkdf.{hkdf_sha256}
use Prim.Native.String as NativeString

abbrev pub Text : Type 0
Text = List ℕ

abbrev pub enrolled_key : String
enrolled_key = "xlm_vault_biometric_enrolled_v1"

abbrev pub root_secret_key : String
root_secret_key = "xlm_vault_biometric_root_secret_v1"

-- What the code uses of expo-local-authentication, expo-secure-store, expo-crypto, crypto-js and, on
-- the web, of a localStorage, where there may be none: then nothing is read or written. `W` is the
-- state of all that lies outside, `E` what is thrown.
pub record Device (E W : Type 0) : Type 0 where
  pub is_web : Bool
  pub has_hardware : Action E W Bool
  pub is_enrolled : Action E W Bool
  pub authenticate : String → Action E W Bool
  pub local_get : String → Action E W (Option Text)
  pub local_set : String → Text → Action E W (Unit {0})
  pub get_item : String → Action E W (Option Text)
  pub set_item : String → Text → Action E W (Unit {0})
  -- with `requireAuthentication`
  pub get_item_authenticated : String → Action E W (Option Text)
  pub set_item_authenticated : String → Text → Action E W (Unit {0})
  pub random_bytes : ℕ → Action E W (List ℕ)
  -- e instanceof Error ? e.message : String(e)
  pub message : E → String
  -- HmacSHA256(message, key), enc.Hex.parse and enc.Utf8.parse of ASCII, on the bytes
  pub hmac_sha256 : List ℕ → List ℕ → List ℕ
  pub hex_parse : Text → List ℕ
  pub utf8_bytes : Text → List ℕ

pub data BiometricAvailability : Type 0 where
  available no_hardware not_enrolled unsupported_web : BiometricAvailability

pub record EnrollmentResult : Type 0 where
  pub ok : Bool
  pub reason : Option String

abbrev pub refused : String → EnrollmentResult
refused reason = record { ok = false; reason = some reason }

abbrev pub hex_digit : ℕ → ℕ
hex_digit n = if ltb n 10 then b'0' + n else b'a' + n - 10

-- b.toString(16).padStart(2, "0") for each byte
abbrev pub hex_of : List ℕ → Text
hex_of [] = []
hex_of (b ∷ bytes) = hex_digit (b / 16) ∷ hex_digit (b % 16) ∷ hex_of bytes

-- `?? null`, and then the test for an empty string
abbrev pub is_present : Option Text → Bool
is_present none = false
is_present (some []) = false
is_present (some (c ∷ s)) = true

module _ {E W : Type 0} (d : Device E W) where
  -- try { m } catch { return a }
  abbrev pub or_return : {A : Type 0} → A → Action E W A → W → A × W
  or_return a m w = let (r, w') = m w in elim r [ ok b ↦ (b, w') | err e ↦ (a, w') ]

  unfoldable pub get_biometric_availability : W → BiometricAvailability × W
  get_biometric_availability =
      if d.is_web
      then (λ w. (unsupported_web, w))
      else or_return no_hardware (do
        has_hardware ← d.has_hardware
        (if has_hardware
            then (do enrolled ← d.is_enrolled; pure (if enrolled then available else not_enrolled))
            else pure no_hardware))

  abbrev is_one : Option Text → Bool
  is_one none = false
  is_one (some []) = false
  is_one (some (c ∷ [])) = c == b'1'
  is_one (some (c ∷ d ∷ s)) = false

  unfoldable pub is_enrolled : W → Bool × W
  is_enrolled = or_return false (do
    flag ← (if d.is_web then d.local_get enrolled_key else d.get_item enrolled_key)
    pure (is_one flag))

  unfoldable pub set_enrolled_flag : Bool → W → W
  set_enrolled_flag v w =
      let val : Text = (if v then b'1' else b'0') ∷ [] in
      (or_return tt (if d.is_web then d.local_set enrolled_key val else d.set_item enrolled_key val)
        w).1

  unfoldable pub authenticate : String → W → Bool × W
  authenticate reason =
      if d.is_web then (λ w. (true, w)) else or_return false (d.authenticate reason)

  unfoldable pub generate_random_hex : ℕ → Action E W Text
  generate_random_hex n = do bytes ← d.random_bytes n; pure (hex_of bytes)

  unfoldable pub read_root_secret : W → Option Text × W
  read_root_secret =
      or_return none
        (if d.is_web then d.local_get root_secret_key else d.get_item_authenticated root_secret_key)

  unfoldable pub write_root_secret : Text → Action E W (Unit {0})
  write_root_secret hex =
      if d.is_web
      then d.local_set root_secret_key hex
      else d.set_item_authenticated root_secret_key hex

  abbrev pub flagged : W → Result E EnrollmentResult × W
  flagged w = (ok (record { ok = true; reason = none }), set_enrolled_flag true w)

  -- A new root secret, where none was read.
  unfoldable pub create_root_secret : Action E W EnrollmentResult
  unfolding generate_random_hex write_root_secret set_enrolled_flag
  create_root_secret w =
      let (r, w') = generate_random_hex 32 w in
      elim r [
        | err e ↦ (err e, w')
        | ok hex ↦
            let (s, w'') = write_root_secret hex w' in
            elim s [
              | ok u ↦ flagged w''
              | err e ↦ (
                ok (refused (NativeString.◌++◌ "Could not persist biometric key: " (d.message e))),
                w'',
              )
            ]
      ]

  unfoldable pub enroll_confirmed : Action E W EnrollmentResult
  unfolding create_root_secret read_root_secret set_enrolled_flag
  enroll_confirmed w =
      let (existing, w') = read_root_secret w in
      if is_present existing then flagged w' else create_root_secret w'

  unfoldable pub enroll_available : Action E W EnrollmentResult
  unfolding enroll_confirmed authenticate
  enroll_available w =
      let (confirmed, w') = authenticate "Enable biometric unlock for Stellar TimeLock" w in
      if confirmed
      then enroll_confirmed w'
      else (ok (refused "Biometric prompt was cancelled or failed."), w')

  unfoldable pub enroll : Action E W EnrollmentResult
  unfolding enroll_available get_biometric_availability
  enroll w =
      let (availability, w') = get_biometric_availability w in
      elim availability [
        | no_hardware ↦ (ok (refused "This device has no biometric hardware."), w')
        | not_enrolled ↦
            (ok (refused "Add a fingerprint or Face ID in your device settings first."), w')
        | available ↦ enroll_available w'
        | unsupported_web ↦ enroll_available w'
      ]

  unfoldable pub unenroll : W → W
  unfolding set_enrolled_flag
  unenroll = set_enrolled_flag false

  abbrev pub derive_of : Text → Option Text → Option (List ℕ)
  derive_of info none = none
  derive_of info (some []) = none
  derive_of info (some (c ∷ s)) = some (
      hkdf_sha256 d.hmac_sha256 (d.hex_parse (c ∷ s))
        (d.utf8_bytes (codes "xlm-vault:hkdf-salt:v1")) (d.utf8_bytes info) 32)

  unfoldable pub derive_key : Text → W → Option (List ℕ) × W
  unfolding read_root_secret
  derive_key info w = let (hex, w') = read_root_secret w in (derive_of info hex, w')
