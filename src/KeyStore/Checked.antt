-- ===== src/KeyStore/Checked.antt =====
-- A public bundle that an identity writes out passes the check of a bundle.
use kingdom.Base.{
  ◌<◌, ◌≡◌, refl, sym, ap, ◌∙◌, Bytes, codes, bytes_eq, true, ◌++◌, lookup, length, All,
}
use kingdom.Outcome.{ok, ok-injective}
use kingdom.Numerals.{u64_limit}
use kingdom.Toolkit.{Toolkit, Crypto, box_key_bytes, sign_public_bytes, sign_bytes}
use kingdom.Toolkit.Laws.{JsonLaws, CryptoLaws}
use kingdom.KeyStore.Encoding.{append_uint64_le}
use kingdom.KeyStore.Identity.{LocalPreKey, LocalIdentityKey}
use kingdom.KeyStore.Bundle.{
  signature_info, signed_pre_key_signature_input, sign_signed_pre_key, is_supported_bundle,
  validate_bundle, verify_signed_pre_key_signature, signed_fields, bundle_fields, bundle_json,
  public_bundle,
}
use kingdom.KeyStore.Agreements.{KeyPair}
use kingdom.KeyStore.Fields.{
  field-object, string_field-object, number_field-object, has_version-object, base64_decode-base64,
  base64_decode-text, base64_decode_array-base64, base64_decode_array-text,
}

-- Keys that were drawn together, and ids that are `uint64_t`.
pub record WellFormed (c : Crypto) (identity : LocalIdentityKey) : Type 0 where
  pub identity_keys : KeyPair c identity.private_key identity.public_key
  pub signing_seed : Bytes
  pub signing_secret : identity.signing_secret_key ≡ (c.sign_keypair signing_seed).1
  pub signing_public : identity.signing_public_key ≡ c.base64 (c.sign_keypair signing_seed).0
  pub signed_keys : KeyPair c identity.signed_pre_key.private_key identity.signed_pre_key.public_key
  pub signed_id : identity.signed_pre_key.id < u64_limit
  pub one_time_keys :
      All
        (λ (k : LocalPreKey). KeyPair c k.private_key k.public_key × (k.id < u64_limit))
        identity.one_time_pre_keys

module _ (tk : Toolkit) (c : Crypto) (json : JsonLaws tk) (laws : CryptoLaws c) where
  open tk use {Json}

  -- What is signed, and the signature's text.
  abbrev pub signed_input : LocalPreKey → Bytes → Bytes
  signed_input key public_key = append_uint64_le signature_info key.id ++ public_key

  abbrev pub signature_of : LocalIdentityKey → Bytes → Bytes
  signature_of identity public_key = c.base64 (
      c.sign_detached (signed_input identity.signed_pre_key public_key) identity.signing_secret_key)

  public_bundle-text :
      (identity : LocalIdentityKey) (public_key : Bytes)
      → identity.signed_pre_key.public_key ≡ c.base64 public_key
      → public_bundle tk c identity
        ≡ ok (bundle_json tk c identity (signature_of identity public_key))
  unfolding public_bundle sign_signed_pre_key signed_pre_key_signature_input
  public_bundle-text identity public_key h = rw (h, base64_decode-base64 c laws public_key) refl

  is_supported_bundle-bundle_json :
      (identity : LocalIdentityKey) (signature : Bytes)
      → is_supported_bundle tk c (bundle_json tk c identity signature) ≡ ok true
  unfolding is_supported_bundle bundle_json bundle_fields lookup bytes_eq
  is_supported_bundle-bundle_json identity signature =
      let F = bundle_fields tk c identity signature in
      rw (
        json.contains-object F (codes "version"),
        has_version-object tk json F refl,
        json.contains-object F (codes "algorithm"),
        string_field-object tk json F (codes "algorithm") refl,
        json.contains-object F (codes "identityKey"),
        json.contains-object F (codes "signingKey"),
        json.contains-object F (codes "signedPreKey"),
        json.contains-object F (codes "oneTimePreKeys"),
      )

  verify_signed_pre_key_signature-bundle_json :
      (identity : LocalIdentityKey) (public_key : Bytes)
      → WellFormed c identity
      → identity.signed_pre_key.public_key ≡ c.base64 public_key
      → verify_signed_pre_key_signature tk c
          (bundle_json tk c identity (signature_of identity public_key))
        ≡ ok tt
  unfolding verify_signed_pre_key_signature bundle_json bundle_fields signed_fields
      signed_pre_key_signature_input lookup bytes_eq
  verify_signed_pre_key_signature-bundle_json identity public_key wf h =
      let S = signature_of identity public_key in
      let F = bundle_fields tk c identity S in
      let G = signed_fields tk c identity.signed_pre_key S in
      let verified : c.verify_detached
            (c.sign_detached (signed_input identity.signed_pre_key public_key)
              identity.signing_secret_key)
            (signed_input identity.signed_pre_key public_key) (c.sign_keypair wf.signing_seed).0
          ≡ true =
        ap
          (λ k.
            c.verify_detached (c.sign_detached (signed_input identity.signed_pre_key public_key) k)
              (signed_input identity.signed_pre_key public_key) (c.sign_keypair wf.signing_seed).0)
          wf.signing_secret
        ∙ laws.verify_detached-sign_detached _ wf.signing_seed in
      rw
        (
          string_field-object tk json F (codes "signingKey") refl,
          base64_decode_array-text c laws sign_public_bytes (c.sign_keypair wf.signing_seed).0
              wf.signing_public (laws.length-sign_keypair wf.signing_seed),
          field-object tk json F (codes "signedPreKey") refl,
          string_field-object tk json G (codes "signature") refl,
          base64_decode_array-base64 c laws sign_bytes
              (c.sign_detached (signed_input identity.signed_pre_key public_key)
                identity.signing_secret_key)
              (laws.length-sign_detached _ _),
          number_field-object tk json G (codes "id") wf.signed_id refl,
          string_field-object tk json G (codes "publicKey") refl,
          base64_decode-text c laws public_key h,
          verified,
        )
        refl

  validate_bundle-bundle_json :
      (identity : LocalIdentityKey) (identity_key public_key : Bytes)
      → WellFormed c identity
      → identity.public_key ≡ c.base64 identity_key
      → length identity_key ≡ box_key_bytes
      → identity.signed_pre_key.public_key ≡ c.base64 public_key
      → length public_key ≡ box_key_bytes
      → validate_bundle tk c (bundle_json tk c identity (signature_of identity public_key)) ≡ ok tt
  unfolding validate_bundle bundle_json bundle_fields signed_fields lookup bytes_eq
  validate_bundle-bundle_json identity identity_key public_key wf h m k n =
      let S = signature_of identity public_key in
      let F = bundle_fields tk c identity S in
      let G = signed_fields tk c identity.signed_pre_key S in
      rw
        (
          is_supported_bundle-bundle_json identity S,
          string_field-object tk json F (codes "identityKey") refl,
          base64_decode_array-text c laws box_key_bytes identity_key h m,
          string_field-object tk json F (codes "signingKey") refl,
          base64_decode_array-text c laws sign_public_bytes (c.sign_keypair wf.signing_seed).0
              wf.signing_public (laws.length-sign_keypair wf.signing_seed),
          field-object tk json F (codes "signedPreKey") refl,
          string_field-object tk json G (codes "publicKey") refl,
          base64_decode_array-text c laws box_key_bytes public_key k n,
          verify_signed_pre_key_signature-bundle_json identity public_key wf k,
        )
        refl

  -- Where the libraries behave as documented, a bundle that a well-formed identity (keys that were
  -- drawn in pairs, ids below 2^64) makes is valid.
  pub validate_bundle-public_bundle :
      (identity : LocalIdentityKey) {bundle : Json}
      → WellFormed c identity
      → public_bundle tk c identity ≡ ok bundle
      → validate_bundle tk c bundle ≡ ok tt
  validate_bundle-public_bundle identity wf h =
      let (identity_seed, secret, identity_text) = wf.identity_keys in
      let (signed_seed, signed_secret, signed_text) = wf.signed_keys in
      let public_key = (c.box_keypair signed_seed).0 in
      ap (validate_bundle tk c)
        (ok-injective (sym h ∙ public_bundle-text identity public_key signed_text))
      ∙ validate_bundle-bundle_json identity (c.box_keypair identity_seed).0 public_key wf
          identity_text (laws.length-box_keypair identity_seed) signed_text
          (laws.length-box_keypair signed_seed)

  pub public_bundle-bundle_json :
      (identity : LocalIdentityKey) {bundle : Json}
      → WellFormed c identity
      → public_bundle tk c identity ≡ ok bundle
      → (signature : Bytes) × (bundle ≡ bundle_json tk c identity signature)
  public_bundle-bundle_json identity wf h =
      let (seed, secret, text) = wf.signed_keys in
      (_, ok-injective (sym h ∙ public_bundle-text identity (c.box_keypair seed).0 text))
