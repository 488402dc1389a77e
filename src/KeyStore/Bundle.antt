-- ===== src/KeyStore/Bundle.antt =====
-- The public bundle of an identity: making it, checking it.
use kingdom.Base.{
  ℕ, Bytes, codes, bytes_eq, Bool, not, ◌&&◌, ◌||◌, List, [], ◌∷◌, ◌++◌, map, is_int, pos, false,
  if◌then◌else◌,
}
use kingdom.Outcome.{Result, ok, runtime_error, other_error, or_err, guard, ◌>>=◌, ◌>>◌}
use kingdom.Toolkit.{Toolkit, Crypto, box_key_bytes, sign_public_bytes, sign_bytes}
use kingdom.KeyStore.Encoding.{base64_decode, base64_decode_array, append_uint64_le}
use kingdom.KeyStore.Identity.{LocalPreKey, LocalIdentityKey}

abbrev pub bundle_algorithm : Bytes
bundle_algorithm = codes "KD-X3DH-BUNDLE-V1"

abbrev pub signature_info : Bytes
signature_info = codes "kd-x3dh-signed-prekey-signature-v1"

module _ (c : Crypto) where
  unfoldable pub signed_pre_key_signature_input : ℕ → Bytes → Result Bytes
  signed_pre_key_signature_input pre_key_id pre_key_public_key = do
    public_key ← base64_decode c pre_key_public_key
    ok (append_uint64_le signature_info pre_key_id ++ public_key)

  unfoldable pub sign_signed_pre_key : ℕ → Bytes → Bytes → Result Bytes
  sign_signed_pre_key pre_key_id pre_key_public_key signing_key = do
    input ← signed_pre_key_signature_input pre_key_id pre_key_public_key
    ok (c.base64 (c.sign_detached input signing_key))

module _ (tk : Toolkit) where
  open tk use {Json, parse, at, is_object, get_string, get_uint64, get_int, contains}

  -- `json.at(key)`, and its value by type.
  unfoldable pub field : Json → Bytes → Result Json
  field json key = or_err other_error (at json key)

  unfoldable pub string_field : Json → Bytes → Result Bytes
  string_field json key = do found ← field json key; or_err other_error (get_string found)

  unfoldable pub number_field : Json → Bytes → Result ℕ
  number_field json key = do found ← field json key; or_err other_error (get_uint64 found)

  -- `json.at("version").get<int>() == expected`
  unfoldable pub has_version : ℕ → Json → Result Bool
  has_version expected json = do
    found ← field json (codes "version")
    version ← or_err other_error (get_int found)
    ok (is_int expected version)

  unfoldable pub parse_json : Bytes → Result Json
  parse_json text = do
    parsed ← or_err (runtime_error "Invalid JSON") (parse text)
    guard (is_object parsed) (runtime_error "Invalid JSON")
    ok parsed

module _ (tk : Toolkit) (c : Crypto) where
  open tk use {Json, at, get_string, contains, string, unsigned, integer, array, object}

  unfoldable pub verify_signed_pre_key_signature : Json → Result (Unit {0})
  verify_signed_pre_key_signature bundle = do
    signing_text ← string_field tk bundle (codes "signingKey")
    signing_key ← base64_decode_array c sign_public_bytes signing_text
    signed_pre_key ← field tk bundle (codes "signedPreKey")
    signature_text ← string_field tk signed_pre_key (codes "signature")
    signature ← base64_decode_array c sign_bytes signature_text
    pre_key_id ← number_field tk signed_pre_key (codes "id")
    pre_key_public_key ← string_field tk signed_pre_key (codes "publicKey")
    input ← signed_pre_key_signature_input c pre_key_id pre_key_public_key
    guard (c.verify_detached signature input signing_key)
        (runtime_error "Signed prekey signature verification failed")

  -- The condition of validateBundle, in the order of its tests; an absent field ends it.
  unfoldable pub is_supported_bundle : Json → Result Bool
  is_supported_bundle bundle =
      if not (contains bundle (codes "version"))
      then ok false
      else has_version tk 1 bundle >>= λ current.
          if not current || not (contains bundle (codes "algorithm"))
          then ok false
          else string_field tk bundle (codes "algorithm") >>= λ algorithm. ok (
              bytes_eq algorithm bundle_algorithm
              && contains bundle (codes "identityKey")
              && contains bundle (codes "signingKey")
              && contains bundle (codes "signedPreKey")
              && contains bundle (codes "oneTimePreKeys"))

  unfoldable pub validate_bundle : Json → Result (Unit {0})
  validate_bundle bundle = do
    supported ← is_supported_bundle bundle
    guard supported (runtime_error "Unsupported or incomplete X3DH key bundle")
    identity_text ← string_field tk bundle (codes "identityKey")
    identity_key ← base64_decode_array c box_key_bytes identity_text
    signing_text ← string_field tk bundle (codes "signingKey")
    signing_key ← base64_decode_array c sign_public_bytes signing_text
    signed_pre_key ← field tk bundle (codes "signedPreKey")
    pre_key_text ← string_field tk signed_pre_key (codes "publicKey")
    pre_key ← base64_decode_array c box_key_bytes pre_key_text
    verify_signed_pre_key_signature bundle

  unfoldable pub public_pre_key : LocalPreKey → Json
  public_pre_key key =
      object ((codes "id", unsigned key.id) ∷ (codes "publicKey", string key.public_key) ∷ [])

  -- The signed prekey with its signature.
  unfoldable pub signed_fields : LocalPreKey → Bytes → List (Bytes × Json)
  signed_fields key signature =
      (codes "id", unsigned key.id)
      ∷ (codes "publicKey", string key.public_key)
      ∷ (codes "signature", string signature)
      ∷ []

  unfoldable pub bundle_fields : LocalIdentityKey → Bytes → List (Bytes × Json)
  unfolding public_pre_key signed_fields
  bundle_fields identity signature =
      (codes "version", integer (pos 1))
      ∷ (codes "algorithm", string bundle_algorithm)
      ∷ (codes "identityKey", string identity.public_key)
      ∷ (codes "signingKey", string identity.signing_public_key)
      ∷ (codes "signedPreKey", object (signed_fields identity.signed_pre_key signature))
      ∷ (codes "oneTimePreKeys", array (map public_pre_key identity.one_time_pre_keys))
      ∷ []

  -- The fields of the bundle, with the signature of the signed prekey.
  unfoldable pub bundle_json : LocalIdentityKey → Bytes → Json
  unfolding bundle_fields
  bundle_json identity signature = object (bundle_fields identity signature)

  unfoldable pub public_bundle : LocalIdentityKey → Result Json
  public_bundle identity = do
    signature ←
        sign_signed_pre_key c identity.signed_pre_key.id identity.signed_pre_key.public_key
          identity.signing_secret_key
    ok (bundle_json identity signature)
