-- ===== src/Tests/Exchange.antt =====
-- Two identities, their bundles, and a message between them.
use kingdom.Base.{
  ℕ, ◌+◌, ◌≡◌, refl, ap, Bytes, codes, false, some, [], ◌∷◌, ◌++◌, any, arith, bytes_eq, Distinct,
}
use kingdom.Outcome.{ok, IsErr}
use kingdom.Drive.{Drive, Faults}
use kingdom.KeyStore.Identity.{LocalPreKey, LocalIdentityKey}
use kingdom.KeyStore.Encoding.{
  ensure_sodium_initialized, base64_decode_array, base64_decode, append_uint64_le, append_bytes_le,
  derive_key,
}
use kingdom.KeyStore.Bundle.{
  signature_info, parse_json, bundle_fields, signed_fields, public_pre_key, is_supported_bundle,
  has_version, field, string_field, number_field, verify_signed_pre_key_signature,
  signed_pre_key_signature_input, bundle_json, public_bundle, validate_bundle,
}
use kingdom.KeyStore.Messages.{
  Context, Agreement, payload_json, payload_fields, optional_id, associated_data, front_pre_key,
  first_key, encrypt_for, encrypt_message, open_message, finish_message, returning,
  optional_id_field, number_unless, decrypt_message, one_time_pre_key_id_of,
}
use kingdom.KeyStore.Outputs.{sender_outputs, dh, one_time_dh, derive_x3dh_key, concat_outputs}
use kingdom.KeyStore.Checked.{WellFormed, signature_of, validate_bundle-public_bundle}
use kingdom.KeyStore.Files.{erase_one_time_pre_key, without_key, remove_first}
use kingdom.KeyStore.OneTime.{same_id, decrypt_message-decrypt_message}
use kingdom.KeyStore.Signed.{signed_pre_key_signature_input-injective}
use kingdom.KeyStore.Sending.{encrypt_message-returns}
use kingdom.KeyStore.RoundTrip.{open_message-encrypt_message}
use kingdom.Tests.JsonLaws.{toolkit-JsonLaws}
use kingdom.Tests.Json.{Value, toolkit, print, read}
use kingdom.Tests.Crypto.{crypto, crypto-CryptoLaws, drawn, sealed}

abbrev pub key : ℕ → ℕ → LocalPreKey
key draw id = record {
  id = id;
  public_key = (crypto.box_keypair (drawn draw)).0;
  private_key = (crypto.box_keypair (drawn draw)).1;
}

abbrev pub identity : ℕ → LocalIdentityKey
identity n = record {
  public_key = (crypto.box_keypair (drawn n)).0;
  private_key = (crypto.box_keypair (drawn n)).1;
  signing_public_key = (crypto.sign_keypair (drawn (n + 1))).0;
  signing_secret_key = (crypto.sign_keypair (drawn (n + 1))).1;
  signed_pre_key = key (n + 2) 1;
  one_time_pre_keys = key (n + 3) 1 ∷ key (n + 4) 2 ∷ [];
  key_file_path = [];
}

abbrev pub alice : LocalIdentityKey
alice = identity 10

abbrev pub bob : LocalIdentityKey
bob = identity 20

abbrev pub bundle : LocalIdentityKey → Value
bundle i =
    bundle_json toolkit crypto i
      (signature_of toolkit crypto toolkit-JsonLaws crypto-CryptoLaws i i.signed_pre_key.public_key)

abbrev pub context : Context
context = record { conversation_id = 5; sender_id = 1; recipient_id = 2 }

abbrev pub text : Bytes
text = codes "hello"

alice-WellFormed : WellFormed crypto alice
alice-WellFormed = record {
  identity_keys = (drawn 10, refl, refl);
  signing_seed = drawn 11;
  signing_secret = refl;
  signing_public = refl;
  signed_keys = (drawn 12, refl, refl);
  signed_id = omega arith;
  one_time_keys =
      (((drawn 13, refl, refl), omega arith), (((drawn 14, refl, refl), omega arith), tt));
}

bob-WellFormed : WellFormed crypto bob
bob-WellFormed = record {
  identity_keys = (drawn 20, refl, refl);
  signing_seed = drawn 21;
  signing_secret = refl;
  signing_public = refl;
  signed_keys = (drawn 22, refl, refl);
  signed_id = omega arith;
  one_time_keys =
      (((drawn 23, refl, refl), omega arith), (((drawn 24, refl, refl), omega arith), tt));
}

alice_published : public_bundle toolkit crypto alice ≡ ok (bundle alice)
unfolding public_bundle kingdom.KeyStore.Bundle.sign_signed_pre_key
    kingdom.KeyStore.Bundle.signed_pre_key_signature_input kingdom.KeyStore.Encoding.base64_decode
alice_published = refl

bob_published : public_bundle toolkit crypto bob ≡ ok (bundle bob)
unfolding public_bundle kingdom.KeyStore.Bundle.sign_signed_pre_key
    kingdom.KeyStore.Bundle.signed_pre_key_signature_input kingdom.KeyStore.Encoding.base64_decode
bob_published = refl

validate_bundle-public_bundle_example : validate_bundle toolkit crypto (bundle bob) ≡ ok tt
validate_bundle-public_bundle_example =
    validate_bundle-public_bundle toolkit crypto toolkit-JsonLaws crypto-CryptoLaws bob
      bob-WellFormed bob_published

abbrev agreement : Agreement
agreement = record {
  sender_identity_key = alice.public_key;
  sender_ephemeral_key = (crypto.box_keypair (drawn 0)).0;
  signed_pre_key_id = 1;
  one_time_pre_key_id = some 1;
}

abbrev pub payload : Bytes
payload = print (payload_json toolkit agreement (drawn 1) (sealed text (86 ∷ [])))

sent : encrypt_message toolkit crypto text alice (print (bundle bob)) context ≡ ok payload
unfolding encrypt_message ensure_sodium_initialized parse_json read bundle_json bundle_fields
    signed_fields public_pre_key validate_bundle is_supported_bundle bytes_eq has_version field
    string_field number_field base64_decode_array base64_decode verify_signed_pre_key_signature
    signed_pre_key_signature_input append_uint64_le append_bytes_le front_pre_key first_key
    encrypt_for sender_outputs dh one_time_dh derive_x3dh_key concat_outputs derive_key
    associated_data optional_id payload_json payload_fields
sent = refl

open_message-encrypt_message_example :
    open_message toolkit crypto payload bob (print (bundle alice)) context ≡ ok (text, some 1)
open_message-encrypt_message_example =
    open_message-encrypt_message toolkit crypto toolkit-JsonLaws crypto-CryptoLaws text
      (print (bundle bob)) (print (bundle alice)) payload alice bob context alice-WellFormed
      bob-WellFormed refl alice_published refl bob_published refl sent

abbrev pub no_faults : Faults
no_faults = record {
  unreadable = λ path. false;
  unwritable = λ path. false;
  full = λ path. false;
  left = λ path text. [];
  no_directory = λ path. false;
  no_rename = λ path. false;
  lost = λ path. false;
  no_remove = λ path. false;
  no_permissions = λ path. false;
}

abbrev pub blank : Drive
blank = record { files = []; faults = no_faults }

abbrev bob_after : LocalIdentityKey
bob_after = record bob { one_time_pre_keys = key 24 2 ∷ [] }

reopened :
    open_message toolkit crypto payload bob (print (bundle alice)) context ≡ ok (text, some 1)
reopened =
    open_message-encrypt_message toolkit crypto toolkit-JsonLaws crypto-CryptoLaws text
      (print (bundle bob)) (print (bundle alice)) payload alice bob context alice-WellFormed
      bob-WellFormed refl alice_published refl bob_published refl sent

decrypted :
    (decrypt_message toolkit crypto payload bob (print (bundle alice)) context blank).0
    ≡ (ok text, bob_after)
unfolding decrypt_message finish_message returning erase_one_time_pre_key without_key remove_first
    any
decrypted = ap (λ m. (finish_message toolkit crypto bob m blank).0) reopened

names_first : one_time_pre_key_id_of toolkit payload ≡ ok (some 1)
unfolding one_time_pre_key_id_of parse_json read payload_json payload_fields optional_id
    optional_id_field field number_unless bytes_eq
names_first = refl

distinct : Distinct same_id bob.one_time_pre_keys
unfolding any
distinct = (refl, (refl, tt))

decrypt_message-decrypt_message_example :
    IsErr
      (decrypt_message toolkit crypto payload bob_after (print (bundle alice)) context blank).0.0
decrypt_message-decrypt_message_example =
    decrypt_message-decrypt_message toolkit crypto payload bob bob_after (print (bundle alice))
      (print (bundle alice)) context context blank blank distinct names_first decrypted

abbrev one : ℕ
one = 1

input :
    signed_pre_key_signature_input crypto 1 (codes "k")
    ≡ ok (append_uint64_le signature_info 1 ++ codes "k")
unfolding signed_pre_key_signature_input base64_decode
input = refl

signed_pre_key_signature_input-injective_example :
    (one ≡ one) × (crypto.unbase64 (codes "k") ≡ crypto.unbase64 (codes "k"))
signed_pre_key_signature_input-injective_example =
    signed_pre_key_signature_input-injective crypto 1 1 (codes "k") (codes "k")
      (append_uint64_le signature_info 1 ++ codes "k") (omega arith) (omega arith) input input

abbrev bound_text : Bytes
bound_text = print (associated_data toolkit context agreement bob.public_key)

encrypt_message-returns_example :
    (sent_text : Bytes) × (encrypt_message toolkit crypto text alice (print (bundle bob)) context
      ≡ ok sent_text)
encrypt_message-returns_example =
    encrypt_message-returns toolkit crypto toolkit-JsonLaws crypto-CryptoLaws
      (λ secret seed. (_, refl)) text (print (bundle bob)) bound_text alice bob context refl
      (λ secret info salt. (_, refl)) (λ s aad nonce k. (_, refl)) refl (λ ciphertext. (_, refl))
      bob-WellFormed bob_published refl
