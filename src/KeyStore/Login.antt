-- ===== src/KeyStore/Login.antt =====
-- loadForLogin.
use kingdom.Base.{
  ℕ, Bytes, codes, bytes_eq, Bool, true, false, not, ◌&&◌, ◌||◌, Option, List, [], ◌∷◌, any, ◌==◌,
  if◌then◌else◌,
}
use kingdom.Outcome.{Result, ok, runtime_error, other_error, or_err, guard, ◌>>=◌, ◌>>◌}
use kingdom.Toolkit.{Toolkit, Crypto, salt_bytes, nonce_bytes, box_key_bytes, sign_secret_bytes}
use kingdom.Drive.{Drive}
use kingdom.KeyStore.Encoding.{
  ensure_sodium_initialized, base64_decode, base64_decode_array, default_key_path,
}
use kingdom.KeyStore.Identity.{LocalPreKey, LocalIdentityKey}
use kingdom.KeyStore.Bundle.{
  field, string_field, number_field, has_version, parse_json, validate_bundle,
}
use kingdom.KeyStore.Files.{read_json_file, used_ids_key}
use kingdom.KeyStore.Signup.{kdf_algorithm, file_algorithm, key_encryption_info, key_encryption_key}

module _ (tk : Toolkit) where
  open tk use {Json, contains, is_array, elements, get_uint64, at}

  -- The condition on the file, in the order of its tests.
  unfoldable pub is_supported_file : Bytes → Json → Result Bool
  is_supported_file username file =
      if not (contains file (codes "version"))
      then ok false
      else has_version tk 2 file >>= λ current.
          if not current || not (contains file (codes "username"))
          then ok false
          else string_field tk file (codes "username") >>= λ owner. ok (
              bytes_eq owner username
              && contains file (codes "publicKeyBundle")
              && contains file (codes "privateMaterial")
              && contains file (codes "kdf"))

  -- A test of a text field, behind an earlier one that failed or held.
  unfoldable pub and_text : Json → Bytes → Bytes → Bool → Result Bool
  and_text json key expected false = ok false
  and_text json key expected true = do
    found ← string_field tk json key
    ok (bytes_eq found expected)

  unfoldable pub hkdf_parameters : Json → Bool → Result Bool
  unfolding and_text
  hkdf_parameters kdf false = ok false
  hkdf_parameters kdf true = do
    hkdf ← field tk kdf (codes "hkdf")
    digest_ok ← and_text hkdf (codes "digest") (codes "SHA-256") true
    and_text hkdf (codes "info") key_encryption_info digest_ok

  unfoldable pub has_crypto_parameters : Json → Json → Result Bool
  unfolding and_text hkdf_parameters
  has_crypto_parameters private_json kdf = do
    file_ok ← and_text private_json (codes "algorithm") file_algorithm true
    kdf_ok ← and_text kdf (codes "algorithm") kdf_algorithm file_ok
    hkdf_parameters kdf kdf_ok

  unfoldable pub id_list : List Json → Result (List ℕ)
  id_list [] = ok []
  id_list (entry ∷ rest) = do
    n ← or_err other_error (get_uint64 entry)
    ns ← id_list rest
    ok (n ∷ ns)

  unfoldable pub used_ids : Json → Result (List ℕ)
  unfolding id_list
  used_ids file =
      if not (contains file used_ids_key)
      then ok []
      else field tk file used_ids_key >>= λ used.
          if is_array used then id_list (elements used) else ok []

abbrev pub is_used : List ℕ → ℕ → Bool
is_used used pre_key_id = any (λ (n : ℕ). n == pre_key_id) used

module _ (tk : Toolkit) (c : Crypto) where
  open tk use {Json, elements}

  unfoldable pub load_pre_key : Json → Result LocalPreKey
  load_pre_key json = do
    pre_key_id ← number_field tk json (codes "id")
    public_key ← string_field tk json (codes "publicKey")
    private_text ← string_field tk json (codes "privateKey")
    private_key ← base64_decode_array c box_key_bytes private_text
    ok (record { id = pre_key_id; public_key = public_key; private_key = private_key })

  unfoldable pub load_unless : Bool → Json → Result (List LocalPreKey) → Result (List LocalPreKey)
  load_unless true json rest = rest
  load_unless false json rest = do key ← load_pre_key json; keys ← rest; ok (key ∷ keys)

  -- The loop over the one-time prekeys: what is used is left out.
  unfoldable pub load_pre_keys : List ℕ → List Json → Result (List LocalPreKey)
  unfolding load_unless
  load_pre_keys used [] = ok []
  load_pre_keys used (json ∷ rest) = do
    pre_key_id ← number_field tk json (codes "id")
    load_unless (is_used used pre_key_id) json (load_pre_keys used rest)

  unfoldable pub load_one_time_pre_keys : Json → Json → Result (List LocalPreKey)
  load_one_time_pre_keys file material = do
    used ← used_ids tk file
    pre_keys_json ← field tk material (codes "oneTimePreKeys")
    load_pre_keys used (elements pre_keys_json)

  -- The private material of a key file, decrypted with the password.
  unfoldable pub private_material : Bytes → Bytes → Json → Json → Result Json
  private_material username password private_json kdf = do
    salt_text ← string_field tk kdf (codes "salt")
    salt ← base64_decode_array c salt_bytes salt_text
    nonce_text ← string_field tk private_json (codes "nonce")
    nonce ← base64_decode_array c nonce_bytes nonce_text
    ciphertext_text ← string_field tk private_json (codes "ciphertext")
    ciphertext ← base64_decode c ciphertext_text
    ops_limit ← number_field tk kdf (codes "opsLimit")
    mem_limit ← number_field tk kdf (codes "memLimit")
    key ← key_encryption_key c password salt ops_limit mem_limit
    plaintext ←
        or_err (runtime_error "Failed to decrypt local private key")
          (c.aead_decrypt ciphertext username nonce key)
    parse_json tk plaintext

  -- The identity from its public bundle, its private material and the ids that are used.
  unfoldable pub load_identity : Bytes → Json → Json → Json → Result LocalIdentityKey
  load_identity path file bundle material = do
    public_key ← string_field tk bundle (codes "identityKey")
    private_text ← string_field tk material (codes "identityPrivateKey")
    private_key ← base64_decode_array c box_key_bytes private_text
    signing_public_key ← string_field tk bundle (codes "signingKey")
    signing_text ← string_field tk material (codes "signingSecretKey")
    signing_secret_key ← base64_decode_array c sign_secret_bytes signing_text
    signed_json ← field tk material (codes "signedPreKey")
    signed_pre_key ← load_pre_key signed_json
    one_time_pre_keys ← load_one_time_pre_keys file material
    ok (record {
      public_key = public_key;
      private_key = private_key;
      signing_public_key = signing_public_key;
      signing_secret_key = signing_secret_key;
      signed_pre_key = signed_pre_key;
      one_time_pre_keys = one_time_pre_keys;
      key_file_path = path;
    })

  -- What loadForLogin does with the parsed file.
  unfoldable pub load_file : Bytes → Bytes → Bytes → Json → Result LocalIdentityKey
  load_file path username password file = do
    supported ← is_supported_file tk username file
    guard supported (runtime_error "Unsupported local key file format")
    bundle ← field tk file (codes "publicKeyBundle")
    validate_bundle tk c bundle
    private_json ← field tk file (codes "privateMaterial")
    kdf ← field tk file (codes "kdf")
    parameters ← has_crypto_parameters tk private_json kdf
    guard parameters (runtime_error "Unsupported local key file crypto parameters")
    material ← private_material username password private_json kdf
    load_identity path file bundle material

  unfoldable pub load_for_login : Option Bytes → Bytes → Bytes → Drive → Result LocalIdentityKey
  load_for_login home username password d = do
    ensure_sodium_initialized c
    path ← default_key_path home username
    file ← (read_json_file tk path d).0
    load_file path username password file
