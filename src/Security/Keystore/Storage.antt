-- ===== src/Security/Keystore/Storage.antt =====
-- What session-keystore.ts uses of code that is not in the repository: the module
-- `@/src/utils/storage` with the platform's stores behind it, and the clock. `S` is the state of
-- all that lies outside. A promise that rejects is `err`.
use stellartimelock_core.Common.{ℕ, String, Bool, true, false, ◌≡◌, ◌⊎◌}
use stellartimelock_core.Common.Action.{ok, Action}

pub data Rejection : Type 0 where
  rejected : Rejection

abbrev pub Call : Type 0 → Type 0 → Type 0
Call S A = Action Rejection S A

pub record Device (S : Type 0) : Type 0 where
  -- Date.now()
  pub now : S → ℕ
  -- getItem<boolean>(key, false), setItem(key, flag), removeItem(key)
  pub get_item : String → Call S Bool
  pub set_item : String → Bool → Call S (Unit {0})
  pub remove_item : String → Call S (Unit {0})
  -- secureGet<string>(key, ""), secureGetAuthenticated<string>(key, "", prompt)
  pub secure_get : String → Call S String
  pub secure_get_authenticated : String → String → Call S String
  -- secureSet(key, value), secureSetAuthenticated(key, value, prompt), secureRemove(key)
  pub secure_set : String → String → Call S Bool
  pub secure_set_authenticated : String → String → String → Call S Bool
  pub secure_remove : String → Call S (Unit {0})

-- What the stores are documented to do, through a view of what they hold. A read may come back
-- with the default "" (no item, a prompt that was cancelled), never with another value; a write
-- that reports success has written. Nothing is said of one that reports failure.
pub record IsLawful {S : Type 0} (d : Device S) : Type 0 where
  pub flag : S → String → Bool
  pub secret : S → String → String
  pub get_item_law :
      (k : String) (s : S) {b : Bool}
      → (d.get_item k s).0 ≡ ok b
      → (b ≡ flag s k) × (flag (d.get_item k s).1 ≡ flag s) × (secret (d.get_item k s).1 ≡ secret s)
  pub set_item_law :
      (k : String) (b : Bool) (s : S)
      → (d.set_item k b s).0 ≡ ok tt
      → (flag (d.set_item k b s).1 k ≡ b) × (secret (d.set_item k b s).1 ≡ secret s)
  pub remove_item_law :
      (k : String) (s : S)
      → (d.remove_item k s).0 ≡ ok tt
      → (flag (d.remove_item k s).1 k ≡ false) × (secret (d.remove_item k s).1 ≡ secret s)
  pub secure_get_law :
      (k : String) (s : S) {v : String} → (d.secure_get k s).0 ≡ ok v → (v ≡ "") ⊎ (v ≡ secret s k)
  pub secure_get_authenticated_law :
      (k p : String) (s : S) {v : String}
      → (d.secure_get_authenticated k p s).0 ≡ ok v
      → (v ≡ "") ⊎ (v ≡ secret s k)
  pub secure_set_law :
      (k v : String) (s : S)
      → (d.secure_set k v s).0 ≡ ok true
      → secret (d.secure_set k v s).1 k ≡ v
  pub secure_set_authenticated_law :
      (k v p : String) (s : S)
      → (d.secure_set_authenticated k v p s).0 ≡ ok true
      → secret (d.secure_set_authenticated k v p s).1 k ≡ v
  pub secure_remove_law :
      (k : String) (s : S) → (d.secure_remove k s).0 ≡ ok tt → secret (d.secure_remove k s).1 k ≡ ""
