-- ===== src/Notebook.antt =====
-- src/notebook/crypto.ts: the key of the notebook, and encryption under it. The keys that crypto-js
-- holds and the bytes of a seed lie at addresses, so that a wipe is seen through every reference.
-- Strings are lists of UTF-16 units.
pub mod Libraries
pub mod Matched
pub mod Payload
pub mod Erased
mod Tests
use Prim.Native.Nat.{bit_or}
use stellartimelock_core.Common.{
  ℕ, ◌+◌, ◌*◌, ◌%◌, ◌^◌, Bool, true, false, not, ◌&&◌, ◌||◌, Option, none, some, List, [], ◌∷◌,
  ◌++◌, map, length, leb, ltb, ◌==◌, if◌then◌else◌, is_some,
}
use stellartimelock_core.Common.Action.{Result, ok, err, Action, pure, ◌>>=◌, ◌>>◌, modify}
use stellartimelock_core.Common.Text.{codes}
use stellartimelock_core.Security.Wipe.{Memory, WordArray, wipe_bytes, wipe_word_array}
use stellartimelock_core.Security.Wipe.Utf8.{utf8_to_mutable_bytes}
use Libraries.{Text, Platform, text_eq}

-- MASTER_KEY_STORE_KEY
abbrev pub master_key : Text
master_key = codes "xlm_vault_notebook_master_key_v1"

abbrev pub wallet_kdf_iterations : ℕ
wallet_kdf_iterations = 10000

pub record Wallet : Type 0 where
  pub public_key : Text
  pub secret_seed : Text

-- `_keyWordArrayCache` and `_activeWalletForCrypto`; the word arrays and the byte buffers by their
-- addresses, of which those from `next` on are not in use; and the rest of the world.
pub record Notebook (W : Type 0) : Type 0 where
  pub world : W
  pub key_cache : Option ℕ
  pub active_wallet : Option Wallet
  pub arrays : ℕ → WordArray
  pub memory : Memory
  pub next : ℕ

abbrev pub seed_of : Option Wallet → Option Text
seed_of none = none
seed_of (some w) = some w.secret_seed

abbrev pub same_seed : Option Text → Option Text → Bool
same_seed none none = true
same_seed (some a) (some b) = text_eq a b
same_seed _ _ = false

module _ {W : Type 0} where
  abbrev pub put : ℕ → WordArray → Notebook W → Notebook W
  put a words n = record n { arrays = λ b. if a == b then words else n.arrays b }

  -- A word array at an address that is not in use.
  abbrev pub alloc : WordArray → Notebook W → ℕ × Notebook W
  alloc words n = (n.next, record (put n.next words n) { next = n.next + 1 })

  -- wipeWordArray(ref)
  abbrev pub wipe_array : Option ℕ → Notebook W → Notebook W
  wipe_array none n = n
  wipe_array (some a) n = put a (wipe_word_array (n.arrays a)) n

  unfoldable pub reset_key_cache : Notebook W → Notebook W
  reset_key_cache n = wipe_array n.key_cache (record n { key_cache = none })

  unfoldable pub set_active_wallet_for_crypto : Option Wallet → Notebook W → Notebook W
  unfolding reset_key_cache
  set_active_wallet_for_crypto wallet n =
      let n' =
        if same_seed (seed_of n.active_wallet) (seed_of wallet) then n else reset_key_cache n in
      record n' { active_wallet = wallet }

-- Four bytes of a word, the first one highest; a byte is below 256.
abbrev pub word_of : ℕ → ℕ → ℕ → ℕ → ℕ
word_of a b c d = bit_or (bit_or (bit_or (a * 2 ^ 24) (b * 2 ^ 16)) (c * 2 ^ 8)) d

-- The loop: a byte past the end counts as 0.
unfoldable pub pack_words : List ℕ → List ℕ
pack_words [] = []
pack_words (a ∷ []) = word_of a 0 0 0 ∷ []
pack_words (a ∷ b ∷ []) = word_of a b 0 0 ∷ []
pack_words (a ∷ b ∷ c ∷ []) = word_of a b c 0 ∷ []
pack_words (a ∷ b ∷ c ∷ d ∷ bytes) = word_of a b c d ∷ pack_words bytes

unfoldable pub words_from_bytes : List ℕ → WordArray
unfolding pack_words
words_from_bytes bytes = record { words = pack_words bytes; sig_bytes = length bytes }

abbrev pub before_dot : Text → Text
before_dot [] = []
before_dot (c ∷ s) = let rest = before_dot s in if c == b'.' then [] else c ∷ rest

-- The text after the first dot, if there is one.
abbrev pub after_dot : Text → Option Text
after_dot [] = none
after_dot (c ∷ s) = let rest = after_dot s in if c == b'.' then some s else rest

module _ {E W : Type 0} (p : Platform E W) where
  open p use {
    random_bytes, btoa, is_web, local_storage, local_get, local_set, secure_get, secure_set,
    base64_parse, base64_string, utf8_parse, utf8_string, salt_words, pbkdf2, aes_encrypt,
    aes_decrypt,
  }

  unfoldable pub generate_master_key_base64 : Action E W Text
  generate_master_key_base64 = do bytes ← random_bytes 32; pure (btoa bytes)

  -- `try { m } catch {}`
  abbrev pub ignoring : {A : Type 0} → Action E W A → Action E W (Option A)
  ignoring m w = let (r, w') = m w in elim r [ ok a ↦ (ok (some a), w') | err e ↦ (ok none, w') ]

  -- The item that is in a store, if it is as long as asked for.
  abbrev pub usable : ℕ → Option Text → Option Text
  usable n none = none
  usable n (some t) = if leb n (length t) then some t else none

  abbrev pub flatten : Option (Option Text) → Option Text
  flatten none = none
  flatten (some t) = t

  web_master_key : Action E W Text
  unfolding generate_master_key_base64
  web_master_key = do
    existing ← local_get master_key
    elim (usable 1 existing) [
      | some key ↦ pure key
      | none ↦ do created ← generate_master_key_base64; local_set master_key created; pure created
    ]

  native_master_key : Action E W Text
  unfolding generate_master_key_base64
  native_master_key = do
    existing ← ignoring (secure_get master_key)
    elim (usable 40 (flatten existing)) [
      | some key ↦ pure key
      | none ↦ do
        created ← generate_master_key_base64
        written ← ignoring (secure_set master_key created)
        pure created
    ]

  unfoldable pub read_or_create_master_key : Action E W Text
  unfolding web_master_key native_master_key
  read_or_create_master_key =
      if is_web
      then if local_storage then web_master_key else pure (codes "web-fallback-key-plaintext-only")
      else native_master_key

  -- The key that a seed stands for.
  abbrev pub derived_key : Text → Result E WordArray
  derived_key seed =
      pbkdf2 (words_from_bytes (utf8_to_mutable_bytes seed)) salt_words 8 wallet_kdf_iterations

  -- The `finally` of the derivation: the bytes of the seed and their words are wiped.
  abbrev pub scrub : ℕ → ℕ → Notebook W → Notebook W
  scrub at words n = record (wipe_array (some words) n) { memory = wipe_bytes (some at) n.memory }

  abbrev pub keep_derived : ℕ → ℕ → Result E WordArray → Notebook W → Result E ℕ × Notebook W
  keep_derived at words (err e) n = (err e, scrub at words n)
  keep_derived at words (ok derived) n =
      let (key, stored) = alloc derived n in
      (ok key, scrub at words (record stored { key_cache = some key }))

  -- Where the bytes of the seed lie, and their words.
  abbrev pub hold_seed : List ℕ → Notebook W → Notebook W
  hold_seed bytes n =
      let at = n.next in
      let memory : Memory = record n.memory {
        bytes = λ b. if at == b then bytes else n.memory.bytes b;
      } in
      (alloc (words_from_bytes bytes) (record n { memory = memory; next = at + 1 })).1

  unfoldable pub derive : Text → Action E (Notebook W) ℕ
  derive seed n =
      keep_derived n.next (n.next + 1) (derived_key seed) (hold_seed (utf8_to_mutable_bytes seed) n)

  abbrev pub outside : {A : Type 0} → Action E W A → Action E (Notebook W) A
  outside m n = let (r, w) = m n.world in (r, record n { world = w })

  -- The first await of the path without a wallet, and what follows it.
  unfoldable pub keep_legacy : Text → Action E (Notebook W) ℕ
  keep_legacy b64 n =
      let (key, stored) = alloc (base64_parse b64) n in
      (ok key, record stored { key_cache = some key })

  unfoldable pub get_key : Action E (Notebook W) ℕ
  unfolding derive keep_legacy
  get_key n = elim n.key_cache [
    | some key ↦ (ok key, n)
    | none ↦ elim (usable 1 (seed_of n.active_wallet)) [
      | some seed ↦ derive seed n
      | none ↦ (do b64 ← outside read_or_create_master_key; keep_legacy b64) n
    ]
  ]

  unfoldable pub seal : Text → List ℕ → ℕ → Action E (Notebook W) Text
  unfolding words_from_bytes
  seal plaintext bytes key n =
      let iv = words_from_bytes bytes in
      elim (utf8_parse plaintext) [
        | err e ↦ (err e, n)
        | ok text ↦
            let ct = aes_encrypt text (n.arrays key) iv in
            (ok (base64_string iv ++ b'.' ∷ base64_string ct), n)
      ]

  -- What follows the key in `encrypt`: the key is read at its address after the next await.
  unfoldable pub encrypt_with : Text → ℕ → Action E (Notebook W) Text
  unfolding seal
  encrypt_with plaintext key = do bytes ← outside (random_bytes 16); seal plaintext bytes key

  unfoldable pub encrypt : Text → Action E (Notebook W) Text
  unfolding get_key encrypt_with
  encrypt plaintext = do key ← get_key; encrypt_with plaintext key

  unfoldable pub decrypt_with : Text → Text → ℕ → Action E (Notebook W) Text
  decrypt_with iv ct key n =
      (utf8_string (aes_decrypt (base64_parse ct) (n.arrays key) (base64_parse iv)), n)

  -- `payload.split(".", 2)`: the text before the first dot, and that between it and the next.
  unfoldable pub decrypt : Text → Action E (Notebook W) Text
  unfolding get_key decrypt_with
  decrypt payload = elim (after_dot payload) [
    | none ↦ pure []
    | some rest ↦ do key ← get_key; decrypt_with (before_dot payload) (before_dot rest) key
  ]

-- /^[A-Za-z0-9+/=]+$/
abbrev pub is_b64 : ℕ → Bool
is_b64 c =
    (leb b'A' c && leb c b'Z')
    || (leb b'a' c && leb c b'z')
    || (leb b'0' c && leb c b'9')
    || c == b'+'
    || c == b'/'
    || c == b'='

abbrev pub all_b64 : Text → Bool
all_b64 [] = true
all_b64 (c ∷ s) = is_b64 c && all_b64 s

unfoldable pub is_encrypted_payload : Text → Bool
is_encrypted_payload s = elim (after_dot s) [
  | none ↦ false
  | some rest ↦
      not (ltb (length s) 32)
      && not (ltb (length (before_dot s)) 8)
      && all_b64 (before_dot s)
      && ltb 0 (length rest)
      && all_b64 rest
]
