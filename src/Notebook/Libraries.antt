-- ===== src/Notebook/Libraries.antt =====
-- What src/notebook/crypto.ts uses of code that is not in the repository: expo-crypto, the stores of
-- the platform, and crypto-js. `W` is the state of all that lies outside; what is thrown is an `E`.
use stellartimelock_core.Common.{ℕ, Bool, true, false, ◌&&◌, ◌==◌, Option, List, [], ◌∷◌}
use stellartimelock_core.Common.Action.{Result, Action}
use stellartimelock_core.Security.Wipe.{WordArray}

-- A string, by its UTF-16 units.
abbrev pub Text : Type 0
Text = List ℕ

abbrev pub text_eq : Text → Text → Bool
text_eq [] [] = true
text_eq (a ∷ s) (b ∷ t) = a == b && text_eq s t
text_eq _ _ = false

pub record Platform (E W : Type 0) : Type 0 where
  -- Platform.OS === "web", and whether there is a localStorage
  pub is_web : Bool
  pub local_storage : Bool
  pub local_get : Text → Action E W (Option Text)
  pub local_set : Text → Text → Action E W (Unit {0})
  -- SecureStore.getItemAsync, setItemAsync
  pub secure_get : Text → Action E W (Option Text)
  pub secure_set : Text → Text → Action E W (Unit {0})
  -- Crypto.getRandomBytesAsync, and `btoa` of the bytes as characters
  pub random_bytes : ℕ → Action E W (List ℕ)
  pub btoa : List ℕ → Text
  -- enc.Base64.parse, toString(enc.Base64), enc.Utf8.parse, toString(enc.Utf8)
  pub base64_parse : Text → WordArray
  pub base64_string : WordArray → Text
  pub utf8_parse : Text → Result E WordArray
  pub utf8_string : WordArray → Result E Text
  -- enc.Utf8.parse(WALLET_KDF_SALT), which is a text of ASCII
  pub salt_words : WordArray
  -- PBKDF2(password, salt, keySize, iterations); AES in CBC mode with Pkcs7: text, key, IV
  pub pbkdf2 : WordArray → WordArray → ℕ → ℕ → Result E WordArray
  pub aes_encrypt : WordArray → WordArray → WordArray → WordArray
  pub aes_decrypt : WordArray → WordArray → WordArray → WordArray
