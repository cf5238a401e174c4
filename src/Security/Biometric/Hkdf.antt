-- ===== src/Security/Biometric/Hkdf.antt =====
-- `hkdfSha256` of src/security/biometric.ts, on the bytes of the word arrays, against RFC 5869.
use stellartimelock_core.Common.{
  ℕ, zero, suc, ◌+◌, ◌*◌, ◌/◌, ◌%◌, ◌≤◌, ◌<◌, ◌≡◌, ap, ◌∙◌, List, [], ◌∷◌, ◌++◌, arith,
}

-- words.slice(…) and a length in bytes: the first `n` bytes.
abbrev pub take : {A : Type 0} → ℕ → List A → List A
take zero xs = []
take (suc n) [] = []
take (suc n) (x ∷ xs) = x ∷ take n xs

module _ (hmac : List ℕ → List ℕ → List ℕ) where
  -- The loop from `i` on, for the rounds that are left: `t` is the last block, `output` what was put
  -- out so far. The counter is the highest byte of `i << 24`.
  pub expand : List ℕ → List ℕ → ℕ → ℕ → List ℕ → List ℕ → List ℕ
  expand prk info zero i t output = output
  expand prk info (suc n) i t output =
      let block = hmac (t ++ info ++ (i % 256) ∷ []) prk in
      expand prk info n (suc i) block (output ++ block)

  unfoldable pub hkdf_sha256 : (ikm salt info : List ℕ) → ℕ → List ℕ
  unfolding expand
  hkdf_sha256 ikm salt info size =
      take size (expand (hmac ikm salt) info ((size + 31) / 32) 1 [] [])

  -- RFC 5869, section 2: T(0) is empty, T(n + 1) = HMAC-Hash(PRK, T(n) | info | n + 1).
  pub block : List ℕ → List ℕ → ℕ → List ℕ
  block prk info zero = []
  block prk info (suc n) = hmac (block prk info n ++ info ++ suc n ∷ []) prk

  -- T(1) | … | T(n)
  pub blocks : List ℕ → List ℕ → ℕ → List ℕ
  unfolding block
  blocks prk info zero = []
  blocks prk info (suc n) = blocks prk info n ++ block prk info (suc n)

  abbrev pub rfc_5869 : (ikm salt info : List ℕ) → ℕ → List ℕ
  rfc_5869 ikm salt info size = take size (blocks (hmac ikm salt) info ((size + 31) / 32))

  -- The loop goes on from where the first `m` blocks end.
  expand-blocks :
      (prk info : List ℕ) (n m : ℕ)
      → m + n < 256
      → expand prk info n (suc m) (block prk info m) (blocks prk info m) ≡ blocks prk info (m + n)
  unfolding expand block blocks
  expand-blocks prk info zero m h =
      let none_left : m ≡ m + 0 = omega arith in ap (blocks prk info) none_left
  expand-blocks prk info (suc n) m h =
      let counter : suc m % 256 ≡ suc m = omega arith in
      let moved : suc m + n ≡ m + suc n = omega arith in
      ap
        (λ i.
          let b = hmac (block prk info m ++ info ++ i ∷ []) prk in
          expand prk info n (suc (suc m)) b (blocks prk info m ++ b))
        counter
      ∙ expand-blocks prk info n (suc m) (omega arith)
      ∙ ap (blocks prk info) moved

  -- Up to the 255 blocks that RFC 5869 allows, the derivation is HKDF as the RFC defines it.
  pub hkdf_sha256-Rfc5869 :
      (ikm salt info : List ℕ) (size : ℕ)
      → size ≤ 255 * 32
      → hkdf_sha256 ikm salt info size ≡ rfc_5869 ikm salt info size
  unfolding hkdf_sha256 block blocks
  hkdf_sha256-Rfc5869 ikm salt info size h =
      let from_zero : 0 + (size + 31) / 32 ≡ (size + 31) / 32 = omega arith in
      ap (take size) (
        expand-blocks (hmac ikm salt) info ((size + 31) / 32) 0 (omega arith)
        ∙ ap (blocks (hmac ikm salt) info) from_zero)
