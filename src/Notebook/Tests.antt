-- ===== src/Notebook/Tests.antt =====
-- A toy platform for the notebook: texts of base64 spell out the numbers, and the cipher text is the
-- text with one block more.
use stellartimelock_core.Common.{
  ℕ, zero, suc, ◌+◌, ◌-◌, ◌≤◌, ◌<◌, ◌≡◌, refl, ap, ◌∙◌, true, false, ◌==◌, if◌then◌else◌, none,
  some, List, [], ◌∷◌, ◌++◌, length, arith, All,
}
use mathlib.Core.Path.{subst}
use stellartimelock_core.Common.Action.{ok}
use stellartimelock_core.Security.Wipe.{WordArray, wipe_word_array}
use stellartimelock_core.Security.Wipe.Zeroed.{IsZeroed}
use stellartimelock_core.Notebook.{
  Wallet, Notebook, all_b64, words_from_bytes, derive, encrypt, decrypt,
  set_active_wallet_for_crypto, put, seal,
}
use stellartimelock_core.Notebook.Libraries.{Text, Platform}
use stellartimelock_core.Notebook.Matched.{IsMatched, Reached, Reached-IsMatched}
use stellartimelock_core.Notebook.Payload.{IsLawful, decrypt-encrypt}
use stellartimelock_core.Notebook.Erased.{derive_erases, encrypt_with_after_switch}

abbrev run : ℕ → ℕ → Text → Text
run c zero s = s
run c (suc n) s = c ∷ run c n s

abbrev spell_words : List ℕ → Text
spell_words [] = []
spell_words (x ∷ xs) = run b'A' x (b'B' ∷ spell_words xs)

abbrev spell : WordArray → Text
spell w = run b'C' w.sig_bytes (spell_words w.words)

abbrev read_words : ℕ → Text → List ℕ
read_words n [] = []
read_words n (c ∷ s) =
    let more = read_words (n + 1) s in
    let next = read_words 0 s in if c == b'A' then more else n ∷ next

abbrev read_spelled : ℕ → Text → WordArray
read_spelled n [] = record { words = []; sig_bytes = n }
read_spelled n (c ∷ s) =
    let rest = read_spelled (n + 1) s in
    if c == b'C' then rest else record { words = read_words 0 (c ∷ s); sig_bytes = n }

read_run : (x n : ℕ) (s : Text) → read_words n (run b'A' x (b'B' ∷ s)) ≡ (n + x) ∷ read_words 0 s
read_run zero n s = ground arith
read_run (suc x) n s = ground (arith, read_run x (n + 1) s)

read_words-spell : (xs : List ℕ) → read_words 0 (spell_words xs) ≡ xs
read_words-spell [] = refl
read_words-spell (x ∷ xs) = ground (arith, read_run x 0 (spell_words xs), read_words-spell xs)

read_rest :
    (xs : List ℕ) (n : ℕ) → read_spelled n (spell_words xs) ≡ record { words = xs; sig_bytes = n }
read_rest [] n = refl
read_rest (zero ∷ xs) n =
    ap (λ ws. record { words = ws; sig_bytes = n }) (read_words-spell (zero ∷ xs))
read_rest (suc x ∷ xs) n =
    ap (λ ws. record { words = ws; sig_bytes = n }) (read_words-spell (suc x ∷ xs))

read_spell :
    (m n : ℕ) (xs : List ℕ)
    → read_spelled n (run b'C' m (spell_words xs)) ≡ record { words = xs; sig_bytes = n + m }
read_spell zero n xs = read_rest xs n ∙ ap (λ k. record { words = xs; sig_bytes = k }) (omega arith)
read_spell (suc m) n xs =
    read_spell m (n + 1) xs ∙ ap (λ k. record { words = xs; sig_bytes = k }) (omega arith)

read_whole : (w : WordArray) → read_spelled 0 (spell w) ≡ w
read_whole w =
    read_spell w.sig_bytes 0 w.words
    ∙ ap (λ k. record { words = w.words; sig_bytes = k }) (omega arith)

run-b64 :
    (c n : ℕ) (s : Text) → all_b64 (c ∷ []) ≡ true → all_b64 s ≡ true → all_b64 (run c n s) ≡ true
run-b64 c zero s h q = q
run-b64 c (suc n) s h q = ground (arith, run-b64 c n s h q)

spell_words-b64 : (xs : List ℕ) → all_b64 (spell_words xs) ≡ true
spell_words-b64 [] = refl
spell_words-b64 (x ∷ xs) = run-b64 b'A' x (b'B' ∷ spell_words xs) refl (spell_words-b64 xs)

length-run : (c n : ℕ) (s : Text) → n ≤ length (run c n s)
length-run c zero s = omega arith
length-run c (suc n) s = omega (arith, length-run c n s)

sevens : ℕ → List ℕ
sevens zero = []
sevens (suc n) = 7 ∷ sevens n

sevens-random : (k : ℕ) → (length (sevens k) ≡ k) × All (λ b. b < 256) (sevens k)
unfolding sevens
sevens-random zero = (refl, tt)
sevens-random (suc k) = (omega (arith, (sevens-random k).0), (omega arith, (sevens-random k).1))

abbrev toy : Platform (Unit {0}) ℕ
toy = record {
  is_web = false;
  local_storage = false;
  local_get = λ k w. (ok none, w);
  local_set = λ k v w. (ok tt, w);
  secure_get = λ k w. (ok none, w);
  secure_set = λ k v w. (ok tt, w);
  random_bytes = λ k w. (ok (sevens k), w);
  btoa = λ bytes. bytes;
  base64_parse = read_spelled 0;
  base64_string = spell;
  utf8_parse = λ t. ok (record { words = t; sig_bytes = 0 });
  utf8_string = λ w. ok w.words;
  salt_words = record { words = []; sig_bytes = 0 };
  pbkdf2 = λ password salt size rounds. ok (record { words = password.words; sig_bytes = 32 });
  aes_encrypt = λ t key iv. record { words = t.words; sig_bytes = t.sig_bytes + 16 };
  aes_decrypt = λ t key iv. record { words = t.words; sig_bytes = t.sig_bytes - 16 };
}

toy-IsLawful : IsLawful toy
toy-IsLawful = record {
  base64_bytes_law = λ bytes small. read_whole (words_from_bytes bytes);
  base64_cipher_law =
      λ t key iv. read_whole (record { words = t.words; sig_bytes = t.sig_bytes + 16 });
  alphabet_law = λ w. run-b64 b'C' w.sig_bytes (spell_words w.words) refl (spell_words-b64 w.words);
  base64_length_law = λ w. length-run b'C' w.sig_bytes (spell_words w.words);
  aes_law = λ text t key iv parsed sized. ground arith;
  block_law = λ t key iv. omega arith;
  random_law = λ k w same.
      subst (λ (bs : List ℕ). (length bs ≡ k) × All (λ b. b < 256) bs) (ground arith)
        (sevens-random k);
}

abbrev vault_wallet : Wallet
vault_wallet = record { public_key = b'G' ∷ []; secret_seed = b'S' ∷ [] }

abbrev fresh : Notebook ℕ
fresh = record {
  world = 0;
  key_cache = none;
  active_wallet = none;
  arrays = λ a. record { words = []; sig_bytes = 0 };
  memory = record { bytes = λ a. []; now = 0; timers = [] };
  next = 0;
}

abbrev with_key : Notebook ℕ
with_key = record fresh {
  key_cache = some 3;
  arrays = λ a. record { words = 9 ∷ []; sig_bytes = 32 };
  next = 4;
}

Reached-IsMatched_example :
    IsMatched toy
      (set_active_wallet_for_crypto (some vault_wallet) (encrypt toy (b'h' ∷ []) fresh).1)
Reached-IsMatched_example =
    Reached-IsMatched toy
      (set_active_wallet_for_crypto (some vault_wallet) (encrypt toy (b'h' ∷ []) fresh).1)
      (Reached.switch (some vault_wallet) (encrypt toy (b'h' ∷ []) fresh).1
        (Reached.write (b'h' ∷ []) fresh (Reached.begin fresh refl)))

abbrev hi_payload : Text
hi_payload =
    spell (words_from_bytes (sevens 16))
    ++ b'.' ∷ spell (record { words = b'h' ∷ []; sig_bytes = 16 })

decrypt-encrypt_example :
    (decrypt toy hi_payload (encrypt toy (b'h' ∷ []) with_key).1).0 ≡ ok (b'h' ∷ [])
unfolding encrypt
decrypt-encrypt_example =
    decrypt-encrypt toy toy-IsLawful (b'h' ∷ []) hi_payload 3 with_key refl refl refl

derive_erases_example :
    IsZeroed ((derive toy (b'S' ∷ []) fresh).1.memory.bytes 0)
    × IsZeroed ((derive toy (b'S' ∷ []) fresh).1.arrays 1).words
derive_erases_example = derive_erases toy (b'S' ∷ []) fresh

encrypt_with_after_switch_example :
    (seal toy
      (b'h' ∷ [])
      (sevens 16)
      3
      (set_active_wallet_for_crypto (some vault_wallet) with_key)).0
    ≡ (seal toy
        (b'h' ∷ [])
        (sevens 16)
        3
        (put 3 (record { words = 0 ∷ []; sig_bytes = 0 }) with_key)).0
unfolding wipe_word_array
encrypt_with_after_switch_example =
    encrypt_with_after_switch toy (b'h' ∷ []) (sevens 16) (some vault_wallet) with_key 3 refl refl
