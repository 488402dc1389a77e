-- ===== src/KeyStore/Signup.antt =====
-- createForSignup.
use kingdom.Base.{ℕ, Bytes, codes, not, value_or, Option, [], ◌∷◌, pos}
use kingdom.Outcome.{◌|>◌, Result, ok, runtime_error, other_error, or_err, guard}
use kingdom.Toolkit.{Toolkit, Crypto, ops_limit_moderate, mem_limit_moderate}
use kingdom.Drive.{Io, pure, lift, exists, ◌>>=◌, ◌>>◌}
use kingdom.KeyStore.Encoding.{ensure_sodium_initialized, derive_key, default_key_path}
use kingdom.KeyStore.Identity.{
  LocalIdentityKey, RegistrationKeyMaterial, make_pre_key, make_pre_keys,
  encrypted_private_material,
}
use kingdom.KeyStore.Bundle.{public_bundle}
use kingdom.KeyStore.Files.{write_json_file, used_ids_key}

abbrev pub one_time_pre_key_batch_size : ℕ
one_time_pre_key_batch_size = 20

abbrev pub kdf_algorithm : Bytes
kdf_algorithm = codes "Argon2id+HKDF-SHA256"

abbrev pub file_algorithm : Bytes
file_algorithm = codes "XChaCha20-Poly1305"

abbrev pub key_encryption_info : Bytes
key_encryption_info = codes "kd-key-encryption-v1"

-- The n-th key pair, salt or nonce of the call comes from the n-th drawn value.
unfoldable pub new_identity : Crypto → LocalIdentityKey
new_identity c = record {
  public_key = c.base64 (c.box_keypair (c.random 0)).0;
  private_key = (c.box_keypair (c.random 0)).1;
  signing_public_key = c.base64 (c.sign_keypair (c.random 1)).0;
  signing_secret_key = (c.sign_keypair (c.random 1)).1;
  signed_pre_key = make_pre_key c 2 1;
  one_time_pre_keys = make_pre_keys c one_time_pre_key_batch_size 3 0;
  key_file_path = [];
}

abbrev pub signup_salt : Crypto → Bytes
signup_salt c = c.random 23

abbrev pub signup_nonce : Crypto → Bytes
signup_nonce c = c.random 24

-- The key that the password gives for a salt and the limits.
unfoldable pub key_encryption_key : Crypto → Bytes → Bytes → ℕ → ℕ → Result Bytes
key_encryption_key c password salt ops_limit mem_limit =
    or_err (runtime_error "Failed to derive local key-encryption secret")
      (c.argon2 password salt ops_limit mem_limit)
    |> λ secret. derive_key c secret key_encryption_info (c.base64 salt)

module _ (tk : Toolkit) (c : Crypto) where
  open tk use {Json, print, string, unsigned, integer, array, object}

  unfoldable pub key_file_json : Bytes → Json → Bytes → Json
  key_file_json username bundle ciphertext = object (
      (codes "version", integer (pos 2))
      ∷ (codes "username", string username)
      ∷ (codes "publicKeyBundle", bundle)
      ∷ (
        codes "privateMaterial",
        object (
            (codes "algorithm", string file_algorithm)
            ∷ (codes "ciphertext", string (c.base64 ciphertext))
            ∷ (codes "nonce", string (c.base64 (signup_nonce c)))
            ∷ []),
      )
      ∷ (
        codes "kdf",
        object (
            (codes "algorithm", string kdf_algorithm)
            ∷ (
              codes "hkdf",
              object (
                  (codes "digest", string (codes "SHA-256"))
                  ∷ (codes "info", string key_encryption_info)
                  ∷ []),
            )
            ∷ (codes "salt", string (c.base64 (signup_salt c)))
            ∷ (codes "opsLimit", unsigned ops_limit_moderate)
            ∷ (codes "memLimit", unsigned mem_limit_moderate)
            ∷ []),
      )
      ∷ (used_ids_key, array [])
      ∷ [])

  -- The call's result is not tested; where it fails, the size of the ciphertext stays 0.
  unfoldable pub encrypted_material : Bytes → Bytes → Bytes → Bytes
  encrypted_material username key material =
      value_or (c.aead_encrypt material username (signup_nonce c) key) []

  unfoldable pub create_for_signup : Option Bytes → Bytes → Bytes → Io RegistrationKeyMaterial
  create_for_signup home username password = do
    lift (ensure_sodium_initialized c)
    path ← lift (default_key_path home username)
    taken ← λ d. (ok (exists path d), d)
    lift (guard (not taken) (runtime_error "Local key file already exists"))
    key ← lift (key_encryption_key c password (signup_salt c) ops_limit_moderate mem_limit_moderate)
    material ← lift (or_err other_error (print (encrypted_private_material tk c (new_identity c))))
    let ciphertext = encrypted_material username key material
    bundle ← lift (public_bundle tk c (new_identity c))
    write_json_file tk path (key_file_json username bundle ciphertext)
    text ← lift (or_err other_error (print bundle))
    pure (record { public_key_bundle = text; key_file_path = path })
