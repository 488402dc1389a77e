-- ===== src/MessageStore/Crypt.antt =====
-- The encryption of a store at rest: keys, the envelope, its parameters.
use kingdom.Base.{
  ℕ, zero, Bytes, codes, bytes_eq, Bool, false, not, ◌&&◌, ◌||◌, [], ◌∷◌, ◌++◌, length, ltb, is_int,
  pos, if◌then◌else◌,
}
use kingdom.Outcome.{Result, ok, runtime_error, other_error, or_err, guard, ◌>>=◌, ◌>>◌}
use kingdom.Toolkit.{
  Toolkit, Crypto, salt_bytes, nonce_bytes, tag_bytes, ops_limit_moderate, mem_limit_moderate,
}
use kingdom.Drive.{Drive, exists}
use kingdom.KeyStore.Encoding.{base64_decode, base64_decode_array, derive_key}
use kingdom.KeyStore.Bundle.{field, string_field}
use kingdom.MessageStore.Memory.{MessageStore}
use kingdom.MessageStore.Files.{parse_json_file_lenient, normalize_store}

abbrev pub cache_kdf_algorithm : Bytes
cache_kdf_algorithm = codes "Argon2id+HKDF-SHA256"

abbrev pub cache_encryption_algorithm : Bytes
cache_encryption_algorithm = codes "XChaCha20-Poly1305"

abbrev pub cache_encryption_info : Bytes
cache_encryption_info = codes "kd-message-cache-encryption-v1"

unfoldable pub cache_associated_data : Bytes → Bytes
cache_associated_data username = codes "kingdom-message-cache-v2" ++ (zero ∷ username)

unfoldable pub derive_cache_encryption_key : Crypto → Bytes → Bytes → ℕ → ℕ → Result Bytes
derive_cache_encryption_key c password salt ops_limit mem_limit = do
  secret ←
      or_err (runtime_error "Failed to derive message-cache encryption secret")
        (c.argon2 password salt ops_limit mem_limit)
  derive_key c secret cache_encryption_info salt

pub record StoreKdfParams : Type 0 where
  pub salt : Bytes
  pub ops_limit : ℕ
  pub mem_limit : ℕ

-- The salt is the first value that the call draws.
abbrev pub default_params : Crypto → StoreKdfParams
default_params c = record {
  salt = c.random 0;
  ops_limit = ops_limit_moderate;
  mem_limit = mem_limit_moderate;
}

module _ (tk : Toolkit) (c : Crypto) where
  open tk use {
    Json, parse, print_indented, is_object, is_string, contains, index, get_string, value_int,
    value_string, value_uint64, string, unsigned, integer, object,
  }

  unfoldable pub stored_params : Json → Result StoreKdfParams
  stored_params kdf = do
    salt_text ← or_err other_error (get_string (index kdf (codes "salt")))
    salt ← base64_decode_array c salt_bytes salt_text
    ops_limit ← or_err other_error (value_uint64 kdf (codes "opsLimit") ops_limit_moderate)
    mem_limit ← or_err other_error (value_uint64 kdf (codes "memLimit") mem_limit_moderate)
    ok (record { salt = salt; ops_limit = ops_limit; mem_limit = mem_limit })

  unfoldable pub params_of : Json → Result StoreKdfParams
  unfolding stored_params
  params_of parsed = do
    version ← or_err other_error (value_int parsed (codes "version") (pos 1))
    if not (is_int 2 version)
          || not (contains parsed (codes "kdf"))
          || not (contains (index parsed (codes "kdf")) (codes "salt"))
          || not (is_string (index (index parsed (codes "kdf")) (codes "salt")))
        then ok (default_params c)
        else stored_params (index parsed (codes "kdf"))

  unfoldable pub kdf_params_for_store : Bytes → Drive → Result StoreKdfParams
  kdf_params_for_store path d =
      if exists path d then params_of (parse_json_file_lenient tk path d) else ok (default_params c)

  -- The first condition on an envelope of version 2, in the order of its tests.
  unfoldable pub is_envelope : Json → Result Bool
  is_envelope envelope = do
    version ← or_err other_error (value_int envelope (codes "version") (pos 0))
    if not (is_int 2 version)
        then ok false
        else or_err other_error (value_string envelope (codes "algorithm")) >>= λ algorithm. ok (
            bytes_eq algorithm cache_encryption_algorithm
            && contains envelope (codes "kdf")
            && contains envelope (codes "nonce")
            && contains envelope (codes "ciphertext"))

  hkdf_matches : Json → Result Bool
  hkdf_matches hkdf = do
    digest ← or_err other_error (value_string hkdf (codes "digest"))
    if not (bytes_eq digest (codes "SHA-256"))
        then ok false
        else or_err other_error (value_string hkdf (codes "info")) >>= λ info.
            ok (bytes_eq info cache_encryption_info)

  -- The second condition, on the parameters of the key derivation.
  unfoldable pub has_cache_parameters : Json → Result Bool
  unfolding hkdf_matches
  has_cache_parameters kdf = do
    algorithm ← or_err other_error (value_string kdf (codes "algorithm"))
    if bytes_eq algorithm cache_kdf_algorithm && contains kdf (codes "hkdf")
        then field tk kdf (codes "hkdf") >>= hkdf_matches
        else ok false

  unfoldable pub decrypt_envelope : MessageStore → Json → Result Json
  decrypt_envelope store envelope = do
    supported ← is_envelope envelope
    guard supported (runtime_error "Unsupported local message store format")
    kdf ← field tk envelope (codes "kdf")
    parameters ← has_cache_parameters kdf
    guard parameters (runtime_error "Unsupported local message store crypto parameters")
    nonce_text ← string_field tk envelope (codes "nonce")
    nonce ← base64_decode_array c nonce_bytes nonce_text
    ciphertext_text ← string_field tk envelope (codes "ciphertext")
    ciphertext ← base64_decode c ciphertext_text
    guard (not (ltb (length ciphertext) tag_bytes))
        (runtime_error "Local message store ciphertext is too short")
    plaintext ← or_err (runtime_error "Failed to decrypt local message store") (
        c.aead_decrypt ciphertext (cache_associated_data store.username) nonce store.encryption_key)
    parsed ←
        or_err (runtime_error "Decrypted local message store is not valid JSON") (parse plaintext)
    guard (is_object parsed) (runtime_error "Decrypted local message store is not valid JSON")
    ok (normalize_store tk parsed)

  unfoldable pub envelope_json : MessageStore → Bytes → Bytes → Json
  envelope_json store nonce ciphertext = object (
      (codes "version", integer (pos 2))
      ∷ (codes "algorithm", string cache_encryption_algorithm)
      ∷ (
        codes "kdf",
        object (
            (codes "algorithm", string cache_kdf_algorithm)
            ∷ (
              codes "hkdf",
              object (
                  (codes "digest", string (codes "SHA-256"))
                  ∷ (codes "info", string cache_encryption_info)
                  ∷ []),
            )
            ∷ (codes "salt", string (c.base64 store.salt))
            ∷ (codes "opsLimit", unsigned store.ops_limit)
            ∷ (codes "memLimit", unsigned store.mem_limit)
            ∷ []),
      )
      ∷ (codes "nonce", string (c.base64 nonce))
      ∷ (codes "ciphertext", string (c.base64 ciphertext))
      ∷ [])

  -- The nonce is the n-th value that the call draws.
  unfoldable pub encrypt_store : MessageStore → ℕ → Json → Result Json
  encrypt_store store draw body = do
    guard c.ready (runtime_error "Failed to initialize libsodium")
    text ← or_err other_error (print_indented body)
    ciphertext ← or_err (runtime_error "Failed to encrypt local message store") (
        c.aead_encrypt text (cache_associated_data store.username) (c.random draw)
          store.encryption_key)
    ok (envelope_json store (c.random draw) ciphertext)
