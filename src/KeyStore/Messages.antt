-- ===== src/KeyStore/Messages.antt =====
-- encryptMessage, decryptMessage and oneTimePreKeyIdFromPayload.
use kingdom.Base.{
  ℕ, Bytes, codes, bytes_eq, Bool, true, false, not, Option, none, some, List, [], ◌∷◌, find_if,
  length, ltb, ◌==◌, if◌then◌else◌, pos,
}
use kingdom.Outcome.{Result, ok, err, runtime_error, other_error, or_err, guard, ◌>>=◌, ◌>>◌}
use kingdom.Toolkit.{Toolkit, Crypto, nonce_bytes, tag_bytes}
use kingdom.Drive.{Drive}
use kingdom.KeyStore.Encoding.{ensure_sodium_initialized, base64_decode, base64_decode_array}
use kingdom.KeyStore.Identity.{LocalPreKey, LocalIdentityKey}
use kingdom.KeyStore.Bundle.{
  field, string_field, number_field, has_version, parse_json, validate_bundle,
}
use kingdom.KeyStore.Files.{Erasing, has_id, erase_one_time_pre_key}
use kingdom.KeyStore.Outputs.{derive_x3dh_key, sender_outputs, recipient_outputs}

abbrev pub payload_algorithm : Bytes
payload_algorithm = codes "KD-X3DH-XCHACHA20POLY1305-V1"

-- What a message is bound to.
pub record Context : Type 0 where
  pub conversation_id : ℕ
  pub sender_id : ℕ
  pub recipient_id : ℕ

-- The public parts of an agreement, which the payload and its associated data name.
pub record Agreement : Type 0 where
  pub sender_identity_key : Bytes
  pub sender_ephemeral_key : Bytes
  pub signed_pre_key_id : ℕ
  pub one_time_pre_key_id : Option ℕ

module _ (tk : Toolkit) where
  open tk use {
    Json, at, print, is_array, is_null, contains, elements, get_uint64, null, string, unsigned,
    integer, object,
  }

  unfoldable pub optional_id : Option ℕ → Json
  optional_id none = null
  optional_id (some n) = unsigned n

  unfoldable pub associated_data : Context → Agreement → Bytes → Json
  unfolding optional_id
  associated_data context agreement recipient_identity_key = object (
      (codes "version", integer (pos 1))
      ∷ (codes "algorithm", string payload_algorithm)
      ∷ (codes "conversationId", unsigned context.conversation_id)
      ∷ (codes "senderId", unsigned context.sender_id)
      ∷ (codes "recipientId", unsigned context.recipient_id)
      ∷ (codes "senderIdentityPublicKey", string agreement.sender_identity_key)
      ∷ (codes "senderEphemeralPublicKey", string agreement.sender_ephemeral_key)
      ∷ (codes "recipientIdentityPublicKey", string recipient_identity_key)
      ∷ (codes "signedPreKeyId", unsigned agreement.signed_pre_key_id)
      ∷ (codes "oneTimePreKeyId", optional_id agreement.one_time_pre_key_id)
      ∷ [])

  unfoldable pub payload_fields : Agreement → Bytes → Bytes → List (Bytes × Json)
  unfolding optional_id
  payload_fields agreement nonce_text ciphertext_text =
      (codes "version", integer (pos 1))
      ∷ (codes "algorithm", string payload_algorithm)
      ∷ (codes "senderIdentityPublicKey", string agreement.sender_identity_key)
      ∷ (codes "senderEphemeralPublicKey", string agreement.sender_ephemeral_key)
      ∷ (codes "signedPreKeyId", unsigned agreement.signed_pre_key_id)
      ∷ (codes "oneTimePreKeyId", optional_id agreement.one_time_pre_key_id)
      ∷ (codes "nonce", string nonce_text)
      ∷ (codes "ciphertext", string ciphertext_text)
      ∷ []

  unfoldable pub payload_json : Agreement → Bytes → Bytes → Json
  unfolding payload_fields
  payload_json agreement nonce_text ciphertext_text =
      object (payload_fields agreement nonce_text ciphertext_text)

  unfoldable pub first_key : List Json → Result (Option (ℕ × Bytes))
  first_key [] = ok none
  first_key (key ∷ keys) = do
    pre_key_id ← number_field tk key (codes "id")
    public_key ← string_field tk key (codes "publicKey")
    ok (some (pre_key_id, public_key))

  -- The first of the bundle's one-time prekeys, if there is one.
  unfoldable pub front_pre_key : Json → Result (Option (ℕ × Bytes))
  unfolding first_key
  front_pre_key bundle = do
    keys ← field tk bundle (codes "oneTimePreKeys")
    if is_array keys then first_key (elements keys) else ok none

  unfoldable pub number_unless : Json → Bool → Result (Option ℕ)
  number_unless found true = ok none
  number_unless found false = do n ← or_err other_error (get_uint64 found); ok (some n)

  -- `payloadJson.at("oneTimePreKeyId")`, nothing for null.
  unfoldable pub optional_id_field : Json → Result (Option ℕ)
  unfolding number_unless
  optional_id_field payload = do
    found ← field tk payload (codes "oneTimePreKeyId")
    number_unless found (is_null found)

  -- oneTimePreKeyIdFromPayload
  unfoldable pub one_time_pre_key_id_of : Bytes → Result (Option ℕ)
  one_time_pre_key_id_of payload = do
    json ← parse_json tk payload
    if contains json (codes "oneTimePreKeyId") then optional_id_field json else ok none

abbrev pub key_part : Option (ℕ × Bytes) → Option Bytes
key_part none = none
key_part (some (n, key)) = some key

abbrev pub id_part : Option (ℕ × Bytes) → Option ℕ
id_part none = none
id_part (some (n, key)) = some n

-- The two values that encryptMessage draws.
abbrev pub ephemeral_keys : Crypto → Bytes × Bytes
ephemeral_keys c = c.box_keypair (c.random 0)

abbrev pub message_nonce : Crypto → Bytes
message_nonce c = c.random 1

module _ (tk : Toolkit) (c : Crypto) where
  open tk use {Json, at, print, string, unsigned, object}

  unfoldable pub encrypt_for :
      Bytes → LocalIdentityKey → Context → Bytes → ℕ → Bytes → Option (ℕ × Bytes) → Result Bytes
  encrypt_for plaintext sender context identity_key signed_pre_key_id signed_pre_key one_time_key =
      do
        outputs ←
            sender_outputs c sender.private_key (ephemeral_keys c).1 identity_key signed_pre_key
              (key_part one_time_key)
        message_key ← derive_x3dh_key c outputs
        let agreement : Agreement = record {
          sender_identity_key = sender.public_key;
          sender_ephemeral_key = c.base64 (ephemeral_keys c).0;
          signed_pre_key_id = signed_pre_key_id;
          one_time_pre_key_id = id_part one_time_key;
        }
        aad ← or_err other_error (print (associated_data tk context agreement identity_key))
        ciphertext ←
            or_err (runtime_error "Encryption failed")
              (c.aead_encrypt plaintext aad (message_nonce c) message_key)
        or_err other_error
            (print (payload_json tk agreement (c.base64 (message_nonce c)) (c.base64 ciphertext)))

  unfoldable pub encrypt_message : Bytes → LocalIdentityKey → Bytes → Context → Result Bytes
  encrypt_message plaintext sender recipient_bundle context = do
    ensure_sodium_initialized c
    bundle ← parse_json tk recipient_bundle
    validate_bundle tk c bundle
    identity_key ← string_field tk bundle (codes "identityKey")
    signed_json ← field tk bundle (codes "signedPreKey")
    signed_pre_key_id ← number_field tk signed_json (codes "id")
    signed_pre_key ← string_field tk signed_json (codes "publicKey")
    one_time_key ← front_pre_key tk bundle
    encrypt_for plaintext sender context identity_key signed_pre_key_id signed_pre_key one_time_key

  -- The recipient's one-time prekey that the payload names.
  unfoldable pub find_pre_key : LocalIdentityKey → Option ℕ → Result (Option LocalPreKey)
  find_pre_key recipient none = ok none
  find_pre_key recipient (some pre_key_id) =
      or_err (runtime_error "One-time prekey is missing or already used")
        (find_if (has_id pre_key_id) recipient.one_time_pre_keys)
      >>= λ key. ok (some key)

  -- The checks on the payload and on the sender's bundle: the sender's identity key.
  unfoldable pub checked_sender : Json → Bytes → Result Bytes
  checked_sender payload sender_bundle = do
    current ← has_version tk 1 payload
    guard current (runtime_error "Unsupported message payload version")
    algorithm ← string_field tk payload (codes "algorithm")
    guard (bytes_eq algorithm payload_algorithm)
        (runtime_error "Unsupported message payload version")
    bundle ← parse_json tk sender_bundle
    validate_bundle tk c bundle
    sender_identity_key ← string_field tk payload (codes "senderIdentityPublicKey")
    bundle_identity_key ← string_field tk bundle (codes "identityKey")
    guard (bytes_eq bundle_identity_key sender_identity_key)
        (runtime_error "Sender identity key does not match pinned bundle")
    ok sender_identity_key

  -- The decryption with the agreed key.
  unfoldable pub decrypt_text :
      Json → LocalIdentityKey → Context → Agreement → Option LocalPreKey → Result Bytes
  decrypt_text payload recipient context agreement one_time_key = do
    outputs ←
        recipient_outputs c recipient agreement.sender_identity_key agreement.sender_ephemeral_key
          one_time_key
    message_key ← derive_x3dh_key c outputs
    nonce_text ← string_field tk payload (codes "nonce")
    nonce ← base64_decode_array c nonce_bytes nonce_text
    ciphertext_text ← string_field tk payload (codes "ciphertext")
    ciphertext ← base64_decode c ciphertext_text
    guard (not (ltb (length ciphertext) tag_bytes)) (runtime_error "Ciphertext too short")
    aad ← or_err other_error (print (associated_data tk context agreement recipient.public_key))
    or_err (runtime_error "Decryption failed") (c.aead_decrypt ciphertext aad nonce message_key)

  -- The part of decryptMessage that changes nothing: the text, and the prekey that it used.
  unfoldable pub open_message :
      Bytes → LocalIdentityKey → Bytes → Context → Result (Bytes × Option ℕ)
  open_message payload_text recipient sender_bundle context = do
    ensure_sodium_initialized c
    payload ← parse_json tk payload_text
    sender_identity_key ← checked_sender payload sender_bundle
    sender_ephemeral_key ← string_field tk payload (codes "senderEphemeralPublicKey")
    signed_pre_key_id ← number_field tk payload (codes "signedPreKeyId")
    guard (recipient.signed_pre_key.id == signed_pre_key_id)
        (runtime_error "Recipient signed prekey is missing")
    one_time_pre_key_id ← optional_id_field tk payload
    one_time_key ← find_pre_key recipient one_time_pre_key_id
    plaintext ←
        decrypt_text payload recipient context
          (record {
            sender_identity_key = sender_identity_key;
            sender_ephemeral_key = sender_ephemeral_key;
            signed_pre_key_id = signed_pre_key_id;
            one_time_pre_key_id = one_time_pre_key_id;
          })
          one_time_key
    ok (plaintext, one_time_pre_key_id)

  unfoldable pub returning :
      Bytes
      → (Result (Unit {0}) × LocalIdentityKey) × Drive
      → (Result Bytes × LocalIdentityKey) × Drive
  returning plaintext ((ok done, recipient), d) = ((ok plaintext, recipient), d)
  returning plaintext ((err e, recipient), d) = ((err e, recipient), d)

  unfoldable pub finish_message : LocalIdentityKey → Result (Bytes × Option ℕ) → Erasing Bytes
  unfolding returning
  finish_message recipient (err e) d = ((err e, recipient), d)
  finish_message recipient (ok (plaintext, none)) d = ((ok plaintext, recipient), d)
  finish_message recipient (ok (plaintext, some pre_key_id)) d =
      returning plaintext (erase_one_time_pre_key tk recipient pre_key_id d)

  -- decryptMessage: the text is returned only when its one-time prekey has been taken out of use.
  unfoldable pub decrypt_message : Bytes → LocalIdentityKey → Bytes → Context → Erasing Bytes
  unfolding finish_message
  decrypt_message payload recipient sender_bundle context =
      finish_message recipient (open_message payload recipient sender_bundle context)
