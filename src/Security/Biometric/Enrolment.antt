-- ===== src/Security/Biometric/Enrolment.antt =====
-- What enrolling and unenrolling of src/security/biometric.ts do to the root secret.
use stellartimelock_core.Common.{
  String, ◌≡◌, ap, ◌∙◌, Bool, true, false, Option, [], ◌∷◌, arith, if◌then◌else◌,
}
use stellartimelock_core.Common.Action.{ok, err}
use stellartimelock_core.Security.Biometric.{
  Text, Device, root_secret_key, enrolled_key, is_present, get_biometric_availability, authenticate,
  set_enrolled_flag, read_root_secret, write_root_secret, generate_random_hex, create_root_secret,
  enroll_confirmed, enroll_available, enroll, unenroll, flagged,
}

-- What the platform is documented to do, through a view of the root secret that is stored: nothing
-- but a write of it changes it, and a read of it that throws nothing gives what is stored.
pub record IsLawful {E W : Type 0} (d : Device E W) : Type 0 where
  pub root : W → Option Text
  pub has_hardware_law : (w : W) → root (d.has_hardware w).1 ≡ root w
  pub is_enrolled_law : (w : W) → root (d.is_enrolled w).1 ≡ root w
  pub authenticate_law : (reason : String) (w : W) → root (d.authenticate reason w).1 ≡ root w
  pub flag_law : (v : Text) (w : W) → root (d.set_item enrolled_key v w).1 ≡ root w
  pub local_flag_law : (v : Text) (w : W) → root (d.local_set enrolled_key v w).1 ≡ root w
  pub read_law :
      (w : W)
      → (root (d.get_item_authenticated root_secret_key w).1 ≡ root w)
        × ((v : Option Text)
            → d.is_web ≡ false
            → (d.get_item_authenticated root_secret_key w).0 ≡ ok v
            → v ≡ root w)
  pub local_read_law :
      (w : W)
      → (root (d.local_get root_secret_key w).1 ≡ root w)
        × ((v : Option Text)
            → d.is_web ≡ true
            → (d.local_get root_secret_key w).0 ≡ ok v
            → v ≡ root w)

module _ {E W : Type 0} (d : Device E W) (laws : IsLawful d) where
  root_after_availability : (w : W) → laws.root (get_biometric_availability d w).1 ≡ laws.root w
  unfolding get_biometric_availability
  root_after_availability w =
      ground (arith, laws.has_hardware_law w, laws.is_enrolled_law (d.has_hardware w).1)

  root_after_authenticate :
      (reason : String) (w : W) → laws.root (authenticate d reason w).1 ≡ laws.root w
  unfolding authenticate
  root_after_authenticate reason w = ground (arith, laws.authenticate_law reason w)

  root_after_flag : (v : Bool) (w : W) → laws.root (set_enrolled_flag d v w) ≡ laws.root w
  unfolding set_enrolled_flag
  root_after_flag v w =
      let val : Text = (if v then b'1' else b'0') ∷ [] in
      ground (arith, laws.flag_law val w, laws.local_flag_law val w)

  root_after_read : (w : W) → laws.root (read_root_secret d w).1 ≡ laws.root w
  unfolding read_root_secret
  root_after_read w = ground (arith, (laws.read_law w).0, (laws.local_read_law w).0)

  -- The read of the root secret throws nothing.
  abbrev pub Readable : Type 0
  Readable =
      (w : W)
      → ((v : Option Text) × ((d.get_item_authenticated root_secret_key w).0 ≡ ok v))
        × ((v : Option Text) × ((d.local_get root_secret_key w).0 ≡ ok v))

  reads_root : Readable → (w : W) → (read_root_secret d w).0 ≡ laws.root w
  unfolding read_root_secret
  reads_root readable w =
      let (v, same) = (readable w).0 in
      let (u, local) = (readable w).1 in
      let here = (laws.read_law w).1 v in
      let there = (laws.local_read_law w).1 u in ground (arith, same, local, here, there)

  root_after_confirmed :
      Readable
      → (w : W) → is_present (laws.root w) ≡ true
      → laws.root (enroll_confirmed d w).1 ≡ laws.root w
  unfolding enroll_confirmed
  root_after_confirmed readable w there = ground (
    arith,
    reads_root readable w,
    root_after_read w,
    root_after_flag true (read_root_secret d w).1,
  )

  root_after_available :
      Readable
      → (w : W) → is_present (laws.root w) ≡ true
      → laws.root (enroll_available d w).1 ≡ laws.root w
  unfolding enroll_available
  root_after_available readable w there =
      let asked = authenticate d "Enable biometric unlock for Stellar TimeLock" w in
      let same = root_after_authenticate "Enable biometric unlock for Stellar TimeLock" w in
      ground (arith, same, root_after_confirmed readable asked.1 (ap is_present same ∙ there))

  -- If the root secret can be read whenever it is asked for, enrolling again keeps the one that is
  -- stored; unenrolling always keeps what is stored.
  pub enroll-keeps_root :
      Readable
      → (w : W) → is_present (laws.root w) ≡ true
      → (laws.root (enroll d w).1 ≡ laws.root w) × (laws.root (unenroll d w) ≡ laws.root w)
  unfolding enroll unenroll
  enroll-keeps_root readable w there =
      let same = root_after_availability w in
      (
        ground (
          arith,
          same,
          root_after_available readable (get_biometric_availability d w).1
              (ap is_present same ∙ there),
        ),
        root_after_flag false w,
      )

module _ {E W : Type 0} (d : Device E W) where
  -- Where the read of the root secret throws, as for a prompt that is cancelled, a new secret is
  -- written over the one that is stored.
  enroll_confirmed_overwrites :
      (w w' w'' : W) (e : E) (hex : Text)
      → d.is_web ≡ false
      → d.get_item_authenticated root_secret_key w ≡ (err e, w')
      → generate_random_hex d 32 w' ≡ (ok hex, w'')
      → (d.set_item_authenticated root_secret_key hex w'').0 ≡ ok tt
      → enroll_confirmed d w ≡ flagged d (d.set_item_authenticated root_secret_key hex w'').1
  unfolding enroll_confirmed create_root_secret read_root_secret write_root_secret
  enroll_confirmed_overwrites w w' w'' e hex native thrown made kept = ground arith
