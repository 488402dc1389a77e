-- ===== src/KeyStore/Sending.antt =====
-- encryptMessage returns a payload where the libraries that it calls do not fail.
use kingdom.Base.{
  ◌≡◌, refl, subst, ◌∙◌, Bytes, codes, bytes_eq, true, Option, none, some, List, [], ◌∷◌, lookup,
}
use kingdom.Outcome.{ok}
use kingdom.Toolkit.{Toolkit, Crypto, box_key_bytes}
use kingdom.Toolkit.Laws.{JsonLaws, CryptoLaws}
use kingdom.KeyStore.Encoding.{ensure_sodium_initialized, derive_key}
use kingdom.KeyStore.Identity.{LocalPreKey, LocalIdentityKey}
use kingdom.KeyStore.Bundle.{
  signed_fields, bundle_fields, bundle_json, public_bundle, validate_bundle,
}
use kingdom.KeyStore.Messages.{
  Context, associated_data, payload_json, key_part, ephemeral_keys, message_nonce, encrypt_for,
  encrypt_message,
}
use kingdom.KeyStore.Outputs.{
  dh, one_time_dh, sender_outputs, derive_x3dh_key, concat_outputs, x3dh_hkdf_info, x3dh_hkdf_salt,
}
use kingdom.KeyStore.Fields.{
  field-object, string_field-object, number_field-object, parse_json-print,
  base64_decode_array-text,
}
use kingdom.KeyStore.Agreements.{KeyPair, OneTime, bundle_part}
use kingdom.KeyStore.Checked.{WellFormed, validate_bundle-public_bundle, public_bundle-bundle_json}
use kingdom.KeyStore.Exchange.{first_pre_key, first_pre_key-OneTime, front_pre_key-bundle_json}
use kingdom.KeyStore.RoundTrip.{agreed}

module _ (tk : Toolkit) (c : Crypto) (json : JsonLaws tk) (laws : CryptoLaws c) where
  open tk use {Json}

  initialized : c.ready ≡ true → ensure_sodium_initialized c ≡ ok tt
  unfolding ensure_sodium_initialized
  initialized ready = rw ready refl

  encrypt_message-encrypt_for :
      (plaintext rtext : Bytes) (sender recipient : LocalIdentityKey) (context : Context)
      {bundle : Json}
      → ensure_sodium_initialized c ≡ ok tt
      → WellFormed c recipient
      → public_bundle tk c recipient ≡ ok bundle
      → tk.print bundle ≡ some rtext
      → encrypt_message tk c plaintext sender rtext context
        ≡ encrypt_for tk c plaintext sender context recipient.public_key recipient.signed_pre_key.id
            recipient.signed_pre_key.public_key
            (bundle_part (first_pre_key recipient.one_time_pre_keys))
  unfolding encrypt_message bundle_json bundle_fields signed_fields lookup bytes_eq
  encrypt_message-encrypt_for plaintext rtext sender recipient context ready wf made printed =
      let (S, same) = public_bundle-bundle_json tk c json laws recipient wf made in
      let F = bundle_fields tk c recipient S in
      let G = signed_fields tk c recipient.signed_pre_key S in
      rw
        (
          ready,
          parse_json-print tk json F (subst (λ b. tk.print b ≡ some rtext) same printed),
          subst (λ b. validate_bundle tk c b ≡ ok tt) same
              (validate_bundle-public_bundle tk c json laws recipient wf made),
          string_field-object tk json F (codes "identityKey") refl,
          field-object tk json F (codes "signedPreKey") refl,
          number_field-object tk json G (codes "id") wf.signed_id refl,
          string_field-object tk json G (codes "publicKey") refl,
          front_pre_key-bundle_json tk c json laws recipient S recipient.one_time_pre_keys refl
              wf.one_time_keys,
        )
        refl

  module _
      (agree : (key seed : Bytes)
        → (o : Bytes) × (c.scalarmult key (c.box_keypair seed).0 ≡ some o)) where
    dh-returns :
        (key : Bytes) {secret text : Bytes}
        → KeyPair c secret text
        → (o : Bytes) × (dh c key text ≡ ok o)
    unfolding dh
    dh-returns key (seed, secret, text) =
        let (o, e) = agree key seed in
        (
          o,
          rw
              (
                base64_decode_array-text c laws box_key_bytes (c.box_keypair seed).0 text
                    (laws.length-box_keypair seed),
                e,
              )
              refl,
        )

    one_time_dh-returns :
        (key : Bytes) (one : Option LocalPreKey)
        → OneTime c laws one
        → (os : List Bytes) × (one_time_dh c key (key_part (bundle_part one)) ≡ ok os)
    unfolding one_time_dh
    one_time_dh-returns key none pair = ([], refl)
    one_time_dh-returns key (some pre_key) pair =
        let (o, e) = dh-returns key pair in (o ∷ [], rw e refl)

    -- Where the libraries behave as documented, libsodium is there, the key agreements with drawn keys, the key derivation and the
    -- encryption do not fail, and the associated data and the payload can be printed, a message for
    -- the public bundle of a well-formed identity is encrypted.
    pub encrypt_message-returns :
        (plaintext rtext aad : Bytes) (sender recipient : LocalIdentityKey) (context : Context)
        {bundle : Json}
        → c.ready ≡ true
        → ((secret info salt : Bytes) → (key : Bytes) × (c.hkdf secret info salt ≡ some key))
        → ((text data_text nonce key : Bytes)
            → (ciphertext : Bytes) × (c.aead_encrypt text data_text nonce key ≡ some ciphertext))
        → tk.print (
            associated_data tk context
              (agreed tk c json laws sender recipient)
              recipient.public_key)
          ≡ some aad
        → ((ciphertext : Bytes)
            → (text : Bytes) × (tk.print (
                  payload_json tk
                    (agreed tk c json laws sender recipient)
                    (c.base64 (message_nonce c))
                    (c.base64 ciphertext))
                ≡ some text))
        → WellFormed c recipient
        → public_bundle tk c recipient ≡ ok bundle
        → tk.print bundle ≡ some rtext
        → (payload : Bytes) × (encrypt_message tk c plaintext sender rtext context ≡ ok payload)
    unfolding encrypt_for sender_outputs derive_x3dh_key derive_key
    encrypt_message-returns plaintext rtext aad sender recipient context ready derive seal bound
          payload wf made printed =
        let one = first_pre_key recipient.one_time_pre_keys in
        let drawn =
          first_pre_key-OneTime tk c json laws recipient.one_time_pre_keys wf.one_time_keys in
        let (o1, e1) = dh-returns sender.private_key wf.signed_keys in
        let (o2, e2) = dh-returns (ephemeral_keys c).1 wf.identity_keys in
        let (o3, e3) = dh-returns (ephemeral_keys c).1 wf.signed_keys in
        let (os, e4) = one_time_dh-returns (ephemeral_keys c).1 one drawn.0 in
        let (message_key, e5) =
          derive (concat_outputs c (o1 ∷ o2 ∷ o3 ∷ os)) x3dh_hkdf_info x3dh_hkdf_salt in
        let (ciphertext, e6) = seal plaintext aad (message_nonce c) message_key in
        let (text, e7) = payload ciphertext in
        (
          text,
          encrypt_message-encrypt_for plaintext rtext sender recipient context (initialized ready)
                wf made printed
              ∙ rw (e1, e2, e3, e4, e5, bound, e6, e7) refl,
        )
