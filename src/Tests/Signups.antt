-- ===== src/Tests/Signups.antt =====
-- A signup that is refused, and a login after a one-time prekey was used.
use kingdom.Base.{
  ◌≡◌, refl, Bytes, codes, false, Option, none, some, [], ◌∷◌, ◌++◌, any, arith, lookup, insert,
  bytes_eq,
}
use kingdom.Outcome.{ok, IsErr}
use kingdom.Drive.{
  Drive, join, exists, read_file, store_file, create_directories, open_truncated, write_text,
  set_permissions, home_directory,
}
use kingdom.KeyStore.Encoding.{
  is_safe, sanitized_username, default_key_path, ensure_sodium_initialized, base64_decode,
  base64_decode_array, derive_key, append_uint64_le, append_bytes_le,
}
use kingdom.KeyStore.Identity.{
  LocalIdentityKey, RegistrationKeyMaterial, encrypted_private_material, private_pre_key,
}
use kingdom.KeyStore.Bundle.{
  public_bundle, bundle_json, bundle_fields, signed_fields, public_pre_key, sign_signed_pre_key,
  signed_pre_key_signature_input, validate_bundle, is_supported_bundle, has_version, field,
  string_field, number_field, verify_signed_pre_key_signature, parse_json,
}
use kingdom.KeyStore.Files.{
  write_json_file, read_json_file, record_used, used_entries, any_used, record_if_new, used_ids_key,
  has_id, remove_first, without_key, erase_one_time_pre_key,
}
use kingdom.KeyStore.Signup.{
  new_identity, key_file_json, key_encryption_key, encrypted_material, create_for_signup,
}
use kingdom.KeyStore.Login.{
  load_for_login, load_file, is_supported_file, has_crypto_parameters, and_text, hkdf_parameters,
  private_material, load_identity, load_one_time_pre_keys, load_pre_key, load_pre_keys, load_unless,
  used_ids, id_list,
}
use kingdom.KeyStore.Reload.{erase_one_time_pre_key-load_for_login}
use kingdom.Client.Calls.{Client, Transport, signup_body}
use kingdom.Client.Session.{new_client, signup}
use kingdom.Client.Cleanup.{IsCleaned, signup-Refused}
use kingdom.Tests.JsonLaws.{toolkit-JsonLaws}
use kingdom.Tests.Json.{Value, toolkit, print, read}
use kingdom.Tests.Crypto.{crypto, sealed}
use kingdom.Tests.Exchange.{key, bob, bundle, blank}

abbrev home : Option Bytes
home = some (codes "/h")

abbrev key_path : Bytes
key_path = codes "/h/.kingdom/keys/bob.json"

at_key_path : default_key_path home (codes "bob") ≡ ok key_path
unfolding default_key_path home_directory join sanitized_username is_safe
at_key_path = refl

-- Bob's key file, with a password whose bytes add up to 99.
abbrev key_file : Value
key_file =
    key_file_json toolkit crypto (codes "bob") (bundle bob)
      (sealed (print (encrypted_private_material toolkit crypto bob)) (99 ∷ []))

abbrev disk : Value → Drive
disk file = record blank { files = (key_path, print file ++ 10 ∷ []) ∷ [] }

abbrev bob_on_disk : LocalIdentityKey
bob_on_disk = record bob { key_file_path = key_path }

abbrev bob_left : LocalIdentityKey
bob_left = record bob_on_disk { one_time_pre_keys = key 24 2 ∷ [] }

abbrev used_file : Value
used_file = toolkit.set key_file used_ids_key (toolkit.array (toolkit.unsigned 1 ∷ []))

used_up :
    erase_one_time_pre_key toolkit bob_on_disk 1 (disk key_file)
    ≡ ((ok tt, bob_left), disk used_file)
unfolding erase_one_time_pre_key any without_key remove_first record_used read_json_file read_file
    lookup bytes_eq read used_entries any_used record_if_new write_json_file create_directories
    open_truncated write_text set_permissions store_file insert key_file_json
    encrypted_private_material private_pre_key bundle_json bundle_fields signed_fields
    public_pre_key append_uint64_le append_bytes_le
used_up = refl

loaded : load_for_login toolkit crypto home (codes "bob") (codes "c") (disk used_file) ≡ ok bob_left
unfolding load_for_login ensure_sodium_initialized default_key_path home_directory join
    sanitized_username is_safe read_json_file read_file lookup bytes_eq read load_file
    is_supported_file has_version field string_field number_field validate_bundle
    is_supported_bundle base64_decode_array base64_decode verify_signed_pre_key_signature
    signed_pre_key_signature_input has_crypto_parameters and_text hkdf_parameters private_material
    key_encryption_key derive_key parse_json load_identity load_pre_key load_one_time_pre_keys
    used_ids id_list load_pre_keys load_unless any key_file_json encrypted_private_material
    private_pre_key bundle_json bundle_fields signed_fields public_pre_key append_uint64_le
    append_bytes_le
loaded = refl

erase_one_time_pre_key-load_for_login_example : any (has_id 1) bob_left.one_time_pre_keys ≡ false
erase_one_time_pre_key-load_for_login_example =
    erase_one_time_pre_key-load_for_login toolkit crypto toolkit-JsonLaws home (codes "bob")
      (codes "c") bob_on_disk bob_left bob_left 1 (disk key_file) (disk used_file) (omega arith)
      refl at_key_path used_up loaded

abbrev new_bundle : Value
new_bundle = bundle (new_identity crypto)

abbrev material : RegistrationKeyMaterial
material = record { public_key_bundle = print new_bundle; key_file_path = key_path }

abbrev new_file : Value
new_file =
    key_file_json toolkit crypto (codes "bob") new_bundle
      (sealed (print (encrypted_private_material toolkit crypto (new_identity crypto))) (99 ∷ []))

created :
    create_for_signup toolkit crypto home (codes "bob") (codes "c") blank
    ≡ (ok material, disk new_file)
unfolding create_for_signup ensure_sodium_initialized default_key_path home_directory join
    sanitized_username is_safe exists lookup key_encryption_key derive_key encrypted_material
    public_bundle sign_signed_pre_key signed_pre_key_signature_input base64_decode write_json_file
    create_directories open_truncated write_text set_permissions store_file insert bytes_eq
    new_identity
created = refl

abbrev client : Client
client = new_client (codes "https://kingdom") []

abbrev silent : Transport
silent call = none

signup-Refused_example :
    IsErr (signup toolkit silent crypto home client (codes "bob") (codes "c") blank).0.0
    × ((signup toolkit silent crypto home client (codes "bob") (codes "c") blank).0.1 ≡ client)
    × IsCleaned key_path
        (disk new_file)
        (signup toolkit silent crypto home client (codes "bob") (codes "c") blank).1
signup-Refused_example =
    signup-Refused toolkit silent crypto home client (codes "bob") (codes "c") blank (disk new_file)
      material (print (signup_body toolkit (codes "bob") (codes "c") (print new_bundle))) created
      refl tt
