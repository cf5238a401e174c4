-- ===== src/Security/Biometric/Tests.antt =====
-- A device with a root secret in its store, as text, or none.
use stellartimelock_core.Common.{
  ℕ, ◌≡◌, refl, true, false, Option, none, some, List, [], ◌∷◌, ◌++◌, arith,
}
use stellartimelock_core.Common.Action.{ok, err}
use stellartimelock_core.Security.Biometric.{Text, Device, enroll, unenroll}
use stellartimelock_core.Security.Biometric.Hkdf.{hkdf_sha256, rfc_5869, hkdf_sha256-Rfc5869}
use stellartimelock_core.Security.Biometric.Enrolment.{IsLawful, enroll-keeps_root}

-- The world is the root secret that is stored.
abbrev phone : Device (Unit {0}) (Option Text)
phone = record {
  is_web = false;
  has_hardware = λ w. (ok true, w);
  is_enrolled = λ w. (ok true, w);
  authenticate = λ reason w. (ok true, w);
  local_get = λ k w. (ok none, w);
  local_set = λ k v w. (ok tt, w);
  get_item = λ k w. (ok none, w);
  set_item = λ k v w. (ok tt, w);
  get_item_authenticated = λ k w. (ok w, w);
  set_item_authenticated = λ k v w. (ok tt, some v);
  random_bytes = λ n w. (ok (7 ∷ []), w);
  message = λ e. "denied";
  hmac_sha256 = λ message key. message ++ key;
  hex_parse = λ t. t;
  utf8_bytes = λ t. t;
}

phone-IsLawful : IsLawful phone
phone-IsLawful = record {
  root = λ w. w;
  has_hardware_law = λ w. refl;
  is_enrolled_law = λ w. refl;
  authenticate_law = λ reason w. refl;
  flag_law = λ v w. refl;
  local_flag_law = λ v w. refl;
  read_law = λ w. (refl, λ v native same. ground arith);
  local_read_law = λ w. (refl, λ v web same. ground arith);
}

enroll-keeps_root_example :
    ((enroll phone (some (b'a' ∷ []))).1 ≡ some (b'a' ∷ []))
    × (unenroll phone (some (b'a' ∷ [])) ≡ some (b'a' ∷ []))
unfolding phone-IsLawful
enroll-keeps_root_example =
    enroll-keeps_root phone phone-IsLawful (λ w. ((w, refl), (none, refl))) (some (b'a' ∷ [])) refl

-- The prompt of the read is cancelled.
abbrev cancelling : Device (Unit {0}) (Option Text)
cancelling = record phone { get_item_authenticated = λ k w. (err tt, w) }

abbrev digest : List ℕ → List ℕ → List ℕ
digest message key = message ++ key

hkdf_sha256-Rfc5869_example :
    hkdf_sha256 digest (1 ∷ 2 ∷ []) (3 ∷ []) (4 ∷ []) 48
    ≡ rfc_5869 digest (1 ∷ 2 ∷ []) (3 ∷ []) (4 ∷ []) 48
hkdf_sha256-Rfc5869_example =
    hkdf_sha256-Rfc5869 digest (1 ∷ 2 ∷ []) (3 ∷ []) (4 ∷ []) 48 (omega arith)
