-- ===== src/KeyStore/RoundTrip.antt =====
-- encryptMessage and decryptMessage: the whole way of a message between two identities.
use kingdom.Base.{
  ◌≡◌, refl, sym, ◌∙◌, Bytes, codes, true, some, length, lookup, bytes_eq, arith, ◌==◌,
}
use kingdom.Outcome.{ok, or_err, or_err-ok, other_error, runtime_error, >>=-parts}
use kingdom.Toolkit.{Toolkit, Crypto, nonce_bytes}
use kingdom.Toolkit.Laws.{JsonLaws, CryptoLaws}
use kingdom.KeyStore.Encoding.{ensure_sodium_initialized}
use kingdom.KeyStore.Identity.{LocalIdentityKey}
use kingdom.KeyStore.Bundle.{public_bundle}
use kingdom.KeyStore.Messages.{
  Context, Agreement, associated_data, payload_fields, payload_json, key_part, ephemeral_keys,
  message_nonce, encrypt_for, encrypt_message, decrypt_text, open_message,
}
use kingdom.KeyStore.Outputs.{sender_outputs, derive_x3dh_key}
use kingdom.KeyStore.Fields.{string_field-object, number_field-object, parse_json-print}
use kingdom.KeyStore.Agreements.{bundle_part, sender_outputs-recipient_outputs}
use kingdom.KeyStore.Checked.{WellFormed}
use kingdom.KeyStore.Exchange.{
  first_pre_key, first_id, first_pre_key-OneTime, optional_id_field-payload_json,
  find_pre_key-first, encrypt_message-public_bundle, checked_sender-payload_json,
  decrypt_text-payload_json,
}

module _ (tk : Toolkit) (c : Crypto) (json : JsonLaws tk) (laws : CryptoLaws c) where
  open tk use {Json}

  -- The agreement that a payload of the sender names.
  abbrev pub agreed : LocalIdentityKey → LocalIdentityKey → Agreement
  agreed sender recipient = record {
    sender_identity_key = sender.public_key;
    sender_ephemeral_key = c.base64 (ephemeral_keys c).0;
    signed_pre_key_id = recipient.signed_pre_key.id;
    one_time_pre_key_id = first_id recipient;
  }

  open_message-payload_json :
      (plaintext stext : Bytes) (sender recipient : LocalIdentityKey) (context : Context)
      (nonce_text ciphertext_text : Bytes) {sender_bundle : Json} {payload : Bytes}
      → WellFormed c sender
      → WellFormed c recipient
      → public_bundle tk c sender ≡ ok sender_bundle
      → tk.print sender_bundle ≡ some stext
      → ensure_sodium_initialized c ≡ ok tt
      → tk.print (payload_json tk (agreed sender recipient) nonce_text ciphertext_text)
        ≡ some payload
      → decrypt_text tk c
          (payload_json tk (agreed sender recipient) nonce_text ciphertext_text)
          recipient
          context
          (agreed sender recipient)
          (first_pre_key recipient.one_time_pre_keys)
        ≡ ok plaintext
      → open_message tk c payload recipient stext context ≡ ok (plaintext, first_id recipient)
  unfolding open_message payload_json payload_fields lookup bytes_eq
  open_message-payload_json plaintext stext sender recipient context nonce_text ciphertext_text ws
        wr made printed ready text decrypted =
      let P = payload_fields tk (agreed sender recipient) nonce_text ciphertext_text in
      let one = first_pre_key recipient.one_time_pre_keys in
      let small =
        (first_pre_key-OneTime tk c json laws recipient.one_time_pre_keys wr.one_time_keys).1 in
      let hit : (recipient.signed_pre_key.id == recipient.signed_pre_key.id) ≡ true =
        ground arith in
      rw
        (
          ready,
          parse_json-print tk json P text,
          checked_sender-payload_json tk c json laws (agreed sender recipient) nonce_text
              ciphertext_text stext sender ws made printed refl,
          string_field-object tk json P (codes "senderEphemeralPublicKey") refl,
          number_field-object tk json P (codes "signedPreKeyId") wr.signed_id refl,
          hit,
          optional_id_field-payload_json tk c json laws (agreed sender recipient) nonce_text
              ciphertext_text one refl small,
          find_pre_key-first tk c json laws recipient recipient.one_time_pre_keys refl,
          decrypted,
        )
        refl

  -- Where the libraries behave as documented, the drawn nonce has its size, the two bundles are
  -- printed and the encryption returns a payload:
  -- A text that is encrypted for the public bundle of an identity is opened again with this
  -- identity and the sender's public bundle, under the same conversation, sender and recipient;
  -- what is used is the first one-time prekey of the bundle, if it has one. Both identities have
  -- keys that were drawn in pairs and ids below 2^64.
  pub open_message-encrypt_message :
      (plaintext rtext stext payload : Bytes) (sender recipient : LocalIdentityKey)
      (context : Context) {sender_bundle bundle : Json}
      → WellFormed c sender
      → WellFormed c recipient
      → length (message_nonce c) ≡ nonce_bytes
      → public_bundle tk c sender ≡ ok sender_bundle
      → tk.print sender_bundle ≡ some stext
      → public_bundle tk c recipient ≡ ok bundle
      → tk.print bundle ≡ some rtext
      → encrypt_message tk c plaintext sender rtext context ≡ ok payload
      → open_message tk c payload recipient stext context ≡ ok (plaintext, first_id recipient)
  unfolding encrypt_for
  open_message-encrypt_message plaintext rtext stext payload sender recipient context ws wr size
        smade sprinted rmade rprinted h =
      let (ready, sent) =
        encrypt_message-public_bundle tk c json laws plaintext rtext sender recipient context wr
          rmade rprinted h in
      let one = first_pre_key recipient.one_time_pre_keys in
      let drawn =
        first_pre_key-OneTime tk c json laws recipient.one_time_pre_keys wr.one_time_keys in
      >>=-parts
        (sender_outputs c sender.private_key (ephemeral_keys c).1 recipient.public_key
          recipient.signed_pre_key.public_key (key_part (bundle_part one)))
        _ sent
        λ outputs e h1. >>=-parts (derive_x3dh_key c outputs) _ h1 λ message_key e1 h2.
          >>=-parts
            (or_err other_error (
              tk.print (associated_data tk context (agreed sender recipient) recipient.public_key)))
            _ h2
            λ aad e2 h3.
              >>=-parts
                (or_err (runtime_error "Encryption failed")
                  (c.aead_encrypt plaintext aad (message_nonce c) message_key))
                _ h3
                λ ciphertext e3 h4.
                  open_message-payload_json plaintext stext sender recipient context
                    (c.base64 (message_nonce c)) (c.base64 ciphertext) ws wr smade sprinted ready
                    (or_err-ok _ _ h4)
                    (decrypt_text-payload_json tk c json laws recipient context
                      (agreed sender recipient) one plaintext message_key aad ciphertext size
                      (sym (
                          sender_outputs-recipient_outputs c laws recipient one ws.identity_keys
                            (c.random 0, refl, refl) wr.identity_keys wr.signed_keys drawn.0)
                        ∙ e)
                      e1 (or_err-ok _ _ e2) (or_err-ok _ _ e3))
