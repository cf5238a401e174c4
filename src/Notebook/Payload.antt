-- ===== src/Notebook/Payload.antt =====
-- What `encrypt` of src/notebook/crypto.ts writes, and what `decrypt` reads of it.
use stellartimelock_core.Common.{
  ℕ, ◌≤◌, ◌<◌, ◌≡◌, refl, sym, ap, ◌∙◌, true, some, List, [], ◌∷◌, ◌++◌, length, length-append,
  arith, All,
}
use stellartimelock_core.Common.Action.{Result, ok, err}
use stellartimelock_core.Security.Wipe.{WordArray}
use stellartimelock_core.Notebook.{
  Notebook, seal, words_from_bytes, get_key, encrypt_with, encrypt, decrypt_with, decrypt,
  after_dot, before_dot, all_b64, is_encrypted_payload,
}
use stellartimelock_core.Notebook.Libraries.{Text, Platform}

-- A text of base64 has no dot.
before_dot-b64 : (s t : Text) → all_b64 s ≡ true → before_dot (s ++ b'.' ∷ t) ≡ s
before_dot-b64 [] t h = refl
before_dot-b64 (c ∷ s) t h = ground (arith, before_dot-b64 s t)

after_dot-b64 : (s t : Text) → all_b64 s ≡ true → after_dot (s ++ b'.' ∷ t) ≡ some t
after_dot-b64 [] t h = refl
after_dot-b64 (c ∷ s) t h = ground (arith, after_dot-b64 s t)

before_dot-whole : (s : Text) → all_b64 s ≡ true → before_dot s ≡ s
before_dot-whole [] h = refl
before_dot-whole (c ∷ s) h = ground (arith, before_dot-whole s)

-- What crypto-js and expo-crypto are documented to do: base64 is read back as it was written, for the
-- words of bytes and for what AES encrypted, and has no less characters than bytes, all of them of
-- the alphabet; AES in CBC mode under a key of 32 bytes decrypts a text that it encrypted, into whole
-- blocks with at least one byte of padding; and as many random bytes come as were asked for.
pub record IsLawful {E W : Type 0} (p : Platform E W) : Type 0 where
  pub base64_bytes_law :
      (bytes : List ℕ)
      → All (λ b. b < 256) bytes
      → p.base64_parse (p.base64_string (words_from_bytes bytes)) ≡ words_from_bytes bytes
  pub base64_cipher_law :
      (t key iv : WordArray)
      → p.base64_parse (p.base64_string (p.aes_encrypt t key iv)) ≡ p.aes_encrypt t key iv
  pub alphabet_law : (w : WordArray) → all_b64 (p.base64_string w) ≡ true
  pub base64_length_law : (w : WordArray) → w.sig_bytes ≤ length (p.base64_string w)
  pub aes_law :
      (text : Text) (t key iv : WordArray)
      → p.utf8_parse text ≡ ok t
      → key.sig_bytes ≡ 32
      → p.utf8_string (p.aes_decrypt (p.aes_encrypt t key iv) key iv) ≡ ok text
  pub block_law : (t key iv : WordArray) → 16 ≤ (p.aes_encrypt t key iv).sig_bytes
  pub random_law :
      (k : ℕ) (w : W) {bytes : List ℕ}
      → (p.random_bytes k w).0 ≡ ok bytes
      → (length bytes ≡ k) × All (λ b. b < 256) bytes

module _ {E W : Type 0} (p : Platform E W) (laws : IsLawful p) where
  -- The payload of a text that was sealed is opened to that text.
  opened :
      (text : Text) (t : WordArray) (bytes : List ℕ) (key : ℕ) (n : Notebook W)
      → (n.arrays key).sig_bytes ≡ 32
      → All (λ b. b < 256) bytes
      → n.key_cache ≡ some key
      → p.utf8_parse text ≡ ok t
      → let iv = words_from_bytes bytes in
        let ct = p.aes_encrypt t (n.arrays key) iv in
        (decrypt p (p.base64_string iv ++ b'.' ∷ p.base64_string ct) n).0 ≡ ok text
  unfolding decrypt decrypt_with get_key
  opened text t bytes key n sized small cached parsed =
      let iv = words_from_bytes bytes in
      let ct = p.aes_encrypt t (n.arrays key) iv in
      grind (
        arith,
        after_dot-b64 (p.base64_string iv) (p.base64_string ct) (laws.alphabet_law iv),
        before_dot-b64 (p.base64_string iv) (p.base64_string ct) (laws.alphabet_law iv),
        before_dot-whole (p.base64_string ct) (laws.alphabet_law ct),
        laws.base64_bytes_law bytes small,
        laws.base64_cipher_law t (n.arrays key) iv,
        laws.aes_law text t (n.arrays key) iv parsed sized,
      )

  -- What `seal` returns, if it returns.
  sealed :
      (text payload : Text) (bytes : List ℕ) (key : ℕ) (n : Notebook W)
      → (seal p text bytes key n).0 ≡ ok payload
      → (t : WordArray) × (p.utf8_parse text ≡ ok t)
        × (payload
            ≡ p.base64_string (words_from_bytes bytes)
              ++ b'.' ∷ p.base64_string (p.aes_encrypt t (n.arrays key) (words_from_bytes bytes)))
  unfolding seal
  sealed text payload bytes key n h = go (p.utf8_parse text) refl
    where
      go :
          (r : Result E WordArray)
          → p.utf8_parse text ≡ r
          → (t : WordArray) × (p.utf8_parse text ≡ ok t)
            × (payload
                ≡ p.base64_string (words_from_bytes bytes)
                  ++ b'.'
                    ∷ p.base64_string (p.aes_encrypt t (n.arrays key) (words_from_bytes bytes)))
      go (ok t) q = (t, q, ground arith)
      go (err e) q = absurd (ground arith)

  -- The random bytes that an encryption under a key took, if it returned.
  with_bytes :
      (text payload : Text) (key : ℕ) (n : Notebook W)
      → (encrypt_with p text key n).0 ≡ ok payload
      → (bytes : List ℕ) × ((p.random_bytes 16 n.world).0 ≡ ok bytes)
        × ((encrypt_with p text key n).1 ≡ record n { world = (p.random_bytes 16 n.world).1 })
        × ((seal p text bytes key n).0 ≡ ok payload)
  unfolding encrypt_with seal
  with_bytes text payload key n h = go (p.random_bytes 16 n.world) refl
    where
      go :
          (o : Result E (List ℕ) × W)
          → p.random_bytes 16 n.world ≡ o
          → (bytes : List ℕ) × ((p.random_bytes 16 n.world).0 ≡ ok bytes)
            × ((encrypt_with p text key n).1 ≡ record n { world = (p.random_bytes 16 n.world).1 })
            × ((seal p text bytes key n).0 ≡ ok payload)
      go (ok bytes, w) q = (bytes, ap (λ o. o.0) q, ground arith, ground arith)
      go (err e, w) q = absurd (ground arith)

  cached_key : (key : ℕ) (n : Notebook W) → n.key_cache ≡ some key → get_key p n ≡ (ok key, n)
  unfolding get_key
  cached_key key n h = ground arith

  by_key :
      (text : Text) (key : ℕ) (n : Notebook W)
      → n.key_cache ≡ some key
      → encrypt p text n ≡ encrypt_with p text key n
  unfolding encrypt
  by_key text key n h =
      ap
        (λ o. elim o.0 as (λ x. Result E Text × Notebook W) [
          | ok k ↦ encrypt_with p text k o.1
          | err e ↦ (err e, o.1)
        ])
        (cached_key key n h)

  -- A text encrypted under a cached key of 32 bytes is what a decryption of the payload returns, as
  -- long as the key stays cached.
  pub decrypt-encrypt :
      (text payload : Text) (key : ℕ) (n : Notebook W)
      → n.key_cache ≡ some key
      → (n.arrays key).sig_bytes ≡ 32
      → (encrypt p text n).0 ≡ ok payload
      → (decrypt p payload (encrypt p text n).1).0 ≡ ok text
  decrypt-encrypt text payload key n cached sized h =
      let (bytes, random, state, same) =
        with_bytes text payload key n (ap (λ o. o.0) (sym (by_key text key n cached)) ∙ h) in
      let (t, parsed, form) = sealed text payload bytes key n same in
      let later : Notebook W = record n { world = (p.random_bytes 16 n.world).1 } in
      ap (λ m. (decrypt p payload m).0) (ap (λ o. o.1) (by_key text key n cached) ∙ state)
      ∙ ap (λ s. (decrypt p s later).0) form
      ∙ opened text t bytes key later sized (laws.random_law 16 n.world random).1 cached parsed

  sized : (bytes : List ℕ) → (words_from_bytes bytes).sig_bytes ≡ length bytes
  unfolding words_from_bytes
  sized bytes = refl

  recognised :
      (s t : Text)
      → all_b64 s ≡ true
      → all_b64 t ≡ true
      → 16 ≤ length s
      → 16 ≤ length t
      → is_encrypted_payload (s ++ b'.' ∷ t) ≡ true
  unfolding is_encrypted_payload
  recognised s t hs ht ls lt =
      grind (arith, after_dot-b64 s t hs, before_dot-b64 s t hs, length-append s (b'.' ∷ t))

  -- A payload that was written is recognised as one.
  encrypt-is_encrypted_payload :
      (text payload : Text) (n : Notebook W)
      → (encrypt p text n).0 ≡ ok payload
      → is_encrypted_payload payload ≡ true
  unfolding encrypt
  encrypt-is_encrypted_payload text payload n h = go (get_key p n) h
    where
      go :
          (o : Result E ℕ × Notebook W)
          → (elim o.0 as (λ x. Result E Text × Notebook W) [
            | ok key ↦ encrypt_with p text key o.1
            | err e ↦ (err e, o.1)
          ]).0
            ≡ ok payload
          → is_encrypted_payload payload ≡ true
      go (ok key, m) q =
          let (bytes, random, state, same) = with_bytes text payload key m q in
          let (t, parsed, form) = sealed text payload bytes key m same in
          let iv = words_from_bytes bytes in
          let ct = p.aes_encrypt t (m.arrays key) iv in
          ap is_encrypted_payload form
          ∙ recognised (p.base64_string iv) (p.base64_string ct) (laws.alphabet_law iv)
              (laws.alphabet_law ct)
              (omega (
                arith,
                laws.base64_length_law iv,
                sized bytes,
                (laws.random_law 16 m.world random).0,
              ))
              (omega (arith, laws.base64_length_law ct, laws.block_law t (m.arrays key) iv))
      go (err e, m) q = absurd (ground arith)
