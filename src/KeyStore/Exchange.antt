-- ===== src/KeyStore/Exchange.antt =====
-- A message that is encrypted for an identity's bundle is decrypted with the identity.
use kingdom.Base.{
  ℕ, ◌<◌, ◌≡◌, refl, subst, Bytes, codes, bytes_eq, bytes_eq_refl, true, Option, none, some, List,
  [], ◌∷◌, map, find_if, lookup, length, arith, ◌==◌, All,
}
use kingdom.Outcome.{ok, >>=-parts}
use kingdom.Numerals.{u64_limit}
use kingdom.Toolkit.{Toolkit, Crypto, nonce_bytes}
use kingdom.Toolkit.Laws.{JsonLaws, CryptoLaws}
use kingdom.KeyStore.Encoding.{ensure_sodium_initialized}
use kingdom.KeyStore.Identity.{LocalPreKey, LocalIdentityKey}
use kingdom.KeyStore.Bundle.{
  public_pre_key, signed_fields, bundle_fields, bundle_json, public_bundle, validate_bundle,
}
use kingdom.KeyStore.Messages.{
  Context, Agreement, associated_data, payload_fields, payload_json, optional_id, optional_id_field,
  number_unless, first_key, front_pre_key, find_pre_key, id_part, message_nonce, encrypt_for,
  encrypt_message, checked_sender, decrypt_text,
}
use kingdom.KeyStore.Outputs.{recipient_outputs, derive_x3dh_key}
use kingdom.KeyStore.Fields.{
  field-object, string_field-object, number_field-object, has_version-object, parse_json-print,
  base64_decode-base64, base64_decode_array-base64,
}
use kingdom.KeyStore.Agreements.{KeyPair, OneTime, bundle_part}
use kingdom.KeyStore.Checked.{WellFormed, validate_bundle-public_bundle, public_bundle-bundle_json}

-- The prekey that a sender takes from the bundle.
abbrev pub first_pre_key : List LocalPreKey → Option LocalPreKey
first_pre_key [] = none
first_pre_key (key ∷ keys) = some key

-- The id that the message then names.
abbrev pub first_id : LocalIdentityKey → Option ℕ
first_id identity = id_part (bundle_part (first_pre_key identity.one_time_pre_keys))

abbrev pub SmallId : Option LocalPreKey → Type 0
SmallId none = Unit {0}
SmallId (some key) = key.id < u64_limit

abbrev pub Drawn : Crypto → LocalPreKey → Type 0
Drawn c k = KeyPair c k.private_key k.public_key × (k.id < u64_limit)

module _ (tk : Toolkit) (c : Crypto) (json : JsonLaws tk) (laws : CryptoLaws c) where
  open tk use {Json}

  pub first_pre_key-OneTime :
      (keys : List LocalPreKey)
      → All (Drawn c) keys
      → OneTime c laws (first_pre_key keys) × SmallId (first_pre_key keys)
  first_pre_key-OneTime [] all = (tt, tt)
  first_pre_key-OneTime (key ∷ keys) all = all.0

  pub front_pre_key-bundle_json :
      (identity : LocalIdentityKey) (signature : Bytes) (keys : List LocalPreKey)
      → identity.one_time_pre_keys ≡ keys
      → All (Drawn c) keys
      → front_pre_key tk (bundle_json tk c identity signature)
        ≡ ok (bundle_part (first_pre_key keys))
  unfolding front_pre_key bundle_json bundle_fields first_key public_pre_key lookup bytes_eq
  front_pre_key-bundle_json identity signature [] same all =
      rw
        (
          field-object tk json (bundle_fields tk c identity signature) (codes "oneTimePreKeys")
              refl,
          same,
          json.is_array-array [],
          json.elements-array [],
        )
        refl
  front_pre_key-bundle_json identity signature (key ∷ keys) same all =
      let entries = map (public_pre_key tk c) (key ∷ keys) in
      let fields : List (Bytes × Json) =
        (codes "id", tk.unsigned key.id) ∷ (codes "publicKey", tk.string key.public_key) ∷ [] in
      rw
        (
          field-object tk json (bundle_fields tk c identity signature) (codes "oneTimePreKeys")
              refl,
          same,
          json.is_array-array entries,
          json.elements-array entries,
          number_field-object tk json fields (codes "id") all.0.1 refl,
          string_field-object tk json fields (codes "publicKey") refl,
        )
        refl

  pub optional_id_field-payload_json :
      (agreement : Agreement) (nonce_text ciphertext_text : Bytes) (one : Option LocalPreKey)
      → agreement.one_time_pre_key_id ≡ id_part (bundle_part one)
      → SmallId one
      → optional_id_field tk (payload_json tk agreement nonce_text ciphertext_text)
        ≡ ok (id_part (bundle_part one))
  unfolding optional_id_field payload_json payload_fields number_unless optional_id lookup bytes_eq
  optional_id_field-payload_json agreement nonce_text ciphertext_text none same small =
      rw
        (
          field-object tk json (payload_fields tk agreement nonce_text ciphertext_text)
              (codes "oneTimePreKeyId") refl,
          same,
          json.is_null-null,
        )
        refl
  optional_id_field-payload_json agreement nonce_text ciphertext_text (some key) same small =
      rw
        (
          field-object tk json (payload_fields tk agreement nonce_text ciphertext_text)
              (codes "oneTimePreKeyId") refl,
          same,
          json.is_null-unsigned key.id,
          json.get_uint64-unsigned key.id small,
        )
        refl

  pub find_pre_key-first :
      (recipient : LocalIdentityKey) (keys : List LocalPreKey)
      → recipient.one_time_pre_keys ≡ keys
      → find_pre_key tk c recipient (id_part (bundle_part (first_pre_key keys)))
        ≡ ok (first_pre_key keys)
  unfolding find_pre_key find_if
  find_pre_key-first recipient [] same = refl
  find_pre_key-first recipient (key ∷ keys) same =
      let hit : (key.id == key.id) ≡ true = ground arith in rw (same, hit) refl

  -- What encryptMessage does with the bundle of a well-formed identity.
  pub encrypt_message-public_bundle :
      (plaintext rtext : Bytes) (sender recipient : LocalIdentityKey) (context : Context)
      {bundle : Json} {payload : Bytes}
      → WellFormed c recipient
      → public_bundle tk c recipient ≡ ok bundle
      → tk.print bundle ≡ some rtext
      → encrypt_message tk c plaintext sender rtext context ≡ ok payload
      → (ensure_sodium_initialized c ≡ ok tt)
        × (encrypt_for tk c plaintext sender context recipient.public_key
              recipient.signed_pre_key.id recipient.signed_pre_key.public_key
              (bundle_part (first_pre_key recipient.one_time_pre_keys))
            ≡ ok payload)
  unfolding encrypt_message bundle_json bundle_fields signed_fields lookup bytes_eq
  encrypt_message-public_bundle plaintext rtext sender recipient context wf made printed h =
      let (S, same) = public_bundle-bundle_json tk c json laws recipient wf made in
      let F = bundle_fields tk c recipient S in
      let G = signed_fields tk c recipient.signed_pre_key S in
      >>=-parts (ensure_sodium_initialized c) _ h λ u e h1. (
        e,
        rw
            (
              parse_json-print tk json F (subst (λ b. tk.print b ≡ some rtext) same printed),
              subst (λ b. validate_bundle tk c b ≡ ok tt) same
                  (validate_bundle-public_bundle tk c json laws recipient wf made),
              string_field-object tk json F (codes "identityKey") refl,
              field-object tk json F (codes "signedPreKey") refl,
              number_field-object tk json G (codes "id") wf.signed_id refl,
              string_field-object tk json G (codes "publicKey") refl,
              front_pre_key-bundle_json recipient S recipient.one_time_pre_keys refl
                  wf.one_time_keys,
            )
            at h1,
      )

  pub checked_sender-payload_json :
      (agreement : Agreement) (nonce_text ciphertext_text stext : Bytes) (sender : LocalIdentityKey)
      {bundle : Json}
      → WellFormed c sender
      → public_bundle tk c sender ≡ ok bundle
      → tk.print bundle ≡ some stext
      → agreement.sender_identity_key ≡ sender.public_key
      → checked_sender tk c (payload_json tk agreement nonce_text ciphertext_text) stext
        ≡ ok agreement.sender_identity_key
  unfolding checked_sender payload_json payload_fields bundle_json bundle_fields lookup bytes_eq
  checked_sender-payload_json agreement nonce_text ciphertext_text stext sender wf made printed
        named =
      let (S, same) = public_bundle-bundle_json tk c json laws sender wf made in
      let F = bundle_fields tk c sender S in
      let P = payload_fields tk agreement nonce_text ciphertext_text in
      rw
        (
          has_version-object tk json P refl,
          string_field-object tk json P (codes "algorithm") refl,
          parse_json-print tk json F (subst (λ b. tk.print b ≡ some stext) same printed),
          subst (λ b. validate_bundle tk c b ≡ ok tt) same
              (validate_bundle-public_bundle tk c json laws sender wf made),
          string_field-object tk json P (codes "senderIdentityPublicKey") refl,
          string_field-object tk json F (codes "identityKey") refl,
          named,
          bytes_eq_refl sender.public_key,
        )
        refl

  -- The recipient's half of an exchange whose payload has these parts.
  pub decrypt_text-payload_json :
      (recipient : LocalIdentityKey) (context : Context) (agreement : Agreement)
      (one : Option LocalPreKey) (plaintext message_key aad ciphertext : Bytes)
      {outputs : List Bytes}
      → length (message_nonce c) ≡ nonce_bytes
      → recipient_outputs c recipient agreement.sender_identity_key agreement.sender_ephemeral_key
          one
        ≡ ok outputs
      → derive_x3dh_key c outputs ≡ ok message_key
      → tk.print (associated_data tk context agreement recipient.public_key) ≡ some aad
      → c.aead_encrypt plaintext aad (message_nonce c) message_key ≡ some ciphertext
      → decrypt_text tk c
          (payload_json tk agreement (c.base64 (message_nonce c)) (c.base64 ciphertext))
          recipient
          context
          agreement
          one
        ≡ ok plaintext
  unfolding decrypt_text payload_json payload_fields lookup bytes_eq
  decrypt_text-payload_json recipient context agreement one plaintext message_key aad ciphertext
        size outputs key bound sealed =
      let P = payload_fields tk agreement (c.base64 (message_nonce c)) (c.base64 ciphertext) in
      let (opened, long) =
        laws.aead_decrypt-aead_encrypt plaintext aad (message_nonce c) message_key sealed in
      rw
        (
          outputs,
          key,
          string_field-object tk json P (codes "nonce") refl,
          base64_decode_array-base64 c laws nonce_bytes (message_nonce c) size,
          string_field-object tk json P (codes "ciphertext") refl,
          base64_decode-base64 c laws ciphertext,
          long,
          bound,
          opened,
        )
        refl
