-- ===== src/Tests/Crypto.antt =====
-- A small crypto library, which satisfies the documented behaviour that the client relies on.
use kingdom.Base.{
  ℕ, ◌+◌, ◌≡◌, refl, subst, ap, Bytes, true, false, none, some, [], ◌∷◌, ◌++◌, length, drop,
  replicate, ltb, ◌==◌, arith, if◌then◌else◌,
}
use kingdom.Outcome.{some-injective}
use kingdom.Toolkit.{Crypto, tag_bytes}
use kingdom.Toolkit.Laws.{CryptoLaws}

abbrev first : Bytes → ℕ
first [] = 0
first (b ∷ bytes) = b

abbrev total : Bytes → ℕ
total [] = 0
total (b ∷ bytes) = b + total bytes

-- The values for nonces and the salt have their sizes.
abbrev pub drawn : ℕ → Bytes
drawn n =
    if n == 1
    then replicate 24 9
    else if n == 24
    then replicate 24 8
    else if n == 23
    then replicate 16 5
    else (n + 1) ∷ replicate 31 0

abbrev pub sealed : Bytes → Bytes → Bytes
sealed text key = first key ∷ (replicate 15 0 ++ text)

abbrev pub crypto : Crypto
crypto = record {
  ready = true;
  random = drawn;
  base64 = λ s. s;
  unbase64 = λ s. some s;
  hkdf = λ secret info salt. some (total secret ∷ []);
  argon2 = λ password salt ops mem. some (total password ∷ []);
  box_keypair = λ seed. (first seed ∷ replicate 31 0, first seed ∷ replicate 31 1);
  sign_keypair = λ seed. (first seed ∷ replicate 31 2, first seed ∷ replicate 63 3);
  sign_detached = λ text key. (first key + length text) ∷ replicate 63 1;
  verify_detached = λ signature text key. first signature == first key + length text;
  scalarmult = λ secret public. some ((first secret + first public) ∷ []);
  aead_encrypt = λ text aad nonce key. some (sealed text key);
  aead_decrypt = λ ciphertext aad nonce key.
      if first ciphertext == first key then some (drop 16 ciphertext) else none;
}

same_number : (n : ℕ) → (n == n) ≡ true
same_number n = ground arith

long_enough : (text key : Bytes) → ltb (length (sealed text key)) tag_bytes ≡ false
long_enough text key = ground arith

opened :
    (text aad nonce key : Bytes) {ciphertext : Bytes}
    → crypto.aead_encrypt text aad nonce key ≡ some ciphertext
    → (crypto.aead_decrypt ciphertext aad nonce key ≡ some text)
      × (ltb (length ciphertext) tag_bytes ≡ false)
opened text aad nonce key {ciphertext} h =
    subst
      (λ s. (crypto.aead_decrypt s aad nonce key ≡ some text) × (ltb (length s) tag_bytes ≡ false))
      (some-injective h) (rw (same_number (first key)) refl, long_enough text key)

sums : (n m : ℕ) → n + m ≡ m + n
sums n m = omega arith

pub crypto-CryptoLaws : CryptoLaws crypto
crypto-CryptoLaws = record {
  unbase64-base64 = λ s. refl;
  scalarmult-box_keypair = λ a b. ap (λ n. some (n ∷ [])) (sums (first a) (first b));
  length-box_keypair = λ a. refl;
  length-sign_keypair = λ a. refl;
  length-sign_detached = λ text key. refl;
  verify_detached-sign_detached = λ text a. same_number (first a + length text);
  aead_decrypt-aead_encrypt = opened;
}
