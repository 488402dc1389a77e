-- ===== src/Tests/Files.antt =====
-- Key files, known keys and stores on a small disk.
use kingdom.Base.{
  ℕ, ◌<◌, ◌≡◌, refl, Bytes, codes, true, false, Option, some, List, [], ◌∷◌, ◌++◌, arith, is_empty,
  lookup, insert, bytes_eq, All, inr, length,
}
use kingdom.Outcome.{ok, err, IsErr, runtime_error}
use kingdom.Numerals.{to_string, print_digits}
use kingdom.Drive.{
  Drive, join, exists, read_file, store_file, create_directories, open_truncated, write_text,
  set_permissions, home_directory,
}
use kingdom.KeyStore.Encoding.{is_safe, sanitized_username, append_uint64_le, default_key_path}
use kingdom.KeyStore.Names.{value_le, IsPlain, default_key_path-IsPlain, append_uint64_le-value_le}
use kingdom.KeyStore.Signed.{write_json_file-full}
use kingdom.KeyStore.Files.{write_json_file}
use kingdom.KeyStore.Login.{load_for_login}
use kingdom.MessageStore.Files.{temporary, write_store_file, replace_file}
use kingdom.MessageStore.Store.{at_path, read_store, write_store, delete_plaintext}
use kingdom.MessageStore.Replace.{Outcomes, write_store_file-Outcomes}
use kingdom.MessageStore.Kept.{save_plaintext-err}
use kingdom.Client.Pinning.{
  known_keys_path, read_known_keys, write_known_keys, pinning_anchor, pin_anchor, pin_public_key,
  anchor_of, object_or_throw, same_anchor,
}
use kingdom.Client.Pins.{pin_all, pin_public_key-anchor}
use kingdom.Client.Calls.{
  Client, send_call, revoke_call, conversations_call, public_key_call, messages_call, delete_call,
}
use kingdom.Client.Routed.{RoutesTo, client_routes}
use kingdom.Controller.Routes.{Route}
use kingdom.Tests.JsonLaws.{toolkit-JsonLaws}
use kingdom.Tests.Json.{Value, toolkit, print, read}
use kingdom.Tests.Crypto.{crypto}
use kingdom.Tests.Exchange.{no_faults, blank}

abbrev some_number : ℕ
some_number = 258

append_uint64_le-value_le_example :
    (bytes : Bytes) × (append_uint64_le (codes "k") some_number ≡ codes "k" ++ bytes)
    × (length bytes ≡ 8)
    × All (λ b. b < 256) bytes
    × (value_le bytes ≡ some_number)
append_uint64_le-value_le_example = append_uint64_le-value_le (codes "k") some_number (omega arith)

abbrev home : Option Bytes
home = some (codes "/h")

abbrev key_path : Bytes
key_path = codes "/h/.kingdom/keys/bob.json"

at_key_path : default_key_path home (codes "bob") ≡ ok key_path
unfolding default_key_path home_directory join sanitized_username is_safe
at_key_path = refl

-- A name that tries to climb out.
out_path : default_key_path home (codes "../bob") ≡ ok (codes "/h/.kingdom/keys/___bob.json")
unfolding default_key_path home_directory join sanitized_username is_safe
out_path = refl

default_key_path-IsPlain_example :
    (name : Bytes) × (codes "/h/.kingdom/keys/___bob.json"
      ≡ join (join (codes "/h") (codes ".kingdom")) (codes "keys") ++ 47 ∷ (name ++ codes ".json"))
    × (is_empty name ≡ false)
    × All IsPlain name
default_key_path-IsPlain_example =
    default_key_path-IsPlain (codes "/h") (codes "../bob") (codes "/h/.kingdom/keys/___bob.json")
      out_path

-- A disk that is full and leaves nothing.
abbrev full_disk : Drive
full_disk = record {
  files = (key_path, codes "old") ∷ [];
  faults = record no_faults { full = λ path. true };
}

write_json_file-full_example :
    IsErr (write_json_file toolkit key_path toolkit.null full_disk).0
    × IsErr (
        load_for_login toolkit crypto home
          (codes "bob")
          (codes "secret")
          (write_json_file toolkit key_path toolkit.null full_disk).1)
write_json_file-full_example =
    write_json_file-full toolkit crypto home (codes "bob") (codes "secret") key_path
      (print toolkit.null) toolkit.null full_disk at_key_path refl refl refl refl refl

abbrev store_path : Bytes
store_path = codes "/h/.kingdom/messages/bob.json"

write_store_file-Outcomes_example :
    Outcomes toolkit store_path toolkit.null full_disk
      (write_store_file toolkit store_path toolkit.null full_disk)
write_store_file-Outcomes_example =
    write_store_file-Outcomes toolkit store_path toolkit.null full_disk refl

-- A disk that fills up between the test of the stream and its close.
abbrev lossy : Drive
lossy = record {
  files = (store_path, codes "old") ∷ [];
  faults = record no_faults { lost = λ path. true };
}

-- The call returns, and the store is empty.
cut_off :
    write_store_file toolkit store_path toolkit.null lossy
    ≡ (ok tt, record lossy { files = (store_path, []) ∷ [] })
unfolding write_store_file create_directories open_truncated write_text kingdom.Drive.close_stream
    kingdom.Drive.rename lookup insert bytes_eq kingdom.Base.keep_if
cut_off = refl

abbrev half_written : Drive
half_written = record full_disk {
  files = (key_path, codes "old") ∷ (temporary store_path, []) ∷ [];
}

not_deleted :
    delete_plaintext toolkit crypto (at_path store_path) 4 full_disk
    ≡ (err (runtime_error "Failed to write local message store"), half_written)
unfolding delete_plaintext read_store exists lookup bytes_eq write_store write_store_file
    replace_file create_directories open_truncated write_text store_file insert
not_deleted = refl

save_plaintext-err_example :
    read_store toolkit crypto (at_path store_path) half_written
    ≡ read_store toolkit crypto (at_path store_path) full_disk
save_plaintext-err_example =
    save_plaintext-err toolkit crypto (at_path store_path) 4 0 0 0 [] full_disk half_written
      (inr not_deleted)

abbrev known_path : Bytes
known_path = codes "/h/.kingdom/keys/known_keys.json"

abbrev known : List (Bytes × Value) → Drive
known entries = record blank {
  files = (known_path, print (toolkit.object entries) ++ 10 ∷ []) ∷ [];
}

abbrev first_entry : Bytes × Value
first_entry = (codes "1", toolkit.string (codes "k"))

abbrev second_entry : Bytes × Value
second_entry = (codes "2", toolkit.string (codes "z"))

pinned :
    pin_public_key toolkit home 1 (codes "k") blank ≡ (ok (codes "k"), known (first_entry ∷ []))
unfolding pin_public_key known_keys_path home_directory join read_known_keys exists lookup
    pinning_anchor anchor_of read pin_anchor to_string print_digits write_known_keys
    create_directories open_truncated write_text set_permissions store_file insert bytes_eq
pinned = refl

between :
    pin_all toolkit home ((2, codes "z") ∷ []) (known (first_entry ∷ []))
    ≡ (ok tt, known (first_entry ∷ second_entry ∷ []))
unfolding pin_public_key known_keys_path home_directory join read_known_keys exists lookup read_file
    object_or_throw pinning_anchor anchor_of read pin_anchor to_string print_digits write_known_keys
    create_directories open_truncated write_text set_permissions store_file insert bytes_eq
between = refl

again :
    pin_public_key toolkit home 1 (codes "k") (known (first_entry ∷ second_entry ∷ []))
    ≡ (ok (codes "k"), known (first_entry ∷ second_entry ∷ []))
unfolding pin_public_key known_keys_path home_directory join read_known_keys exists lookup read_file
    object_or_throw same_anchor pinning_anchor anchor_of read pin_anchor to_string print_digits
    bytes_eq
again = refl

pin_public_key-anchor_example :
    pinning_anchor toolkit (codes "k") ≡ pinning_anchor toolkit (codes "k")
pin_public_key-anchor_example =
    pin_public_key-anchor toolkit toolkit-JsonLaws home 1 (codes "k") (codes "k")
      ((2, codes "z") ∷ []) blank (known (first_entry ∷ []))
      (known (first_entry ∷ second_entry ∷ [])) (known (first_entry ∷ second_entry ∷ [])) pinned
      between again

abbrev user : Client
user = record { base_url = codes "https://kingdom"; ca_cert_path = []; auth_token = codes "t" }

client_routes_example :
    RoutesTo (conversations_call user 3) Route.conversations_of_user (3 ∷ [])
    × RoutesTo (public_key_call user 3) Route.key_of_user (3 ∷ [])
    × RoutesTo (messages_call user 3) Route.messages_of_conversation (3 ∷ [])
    × RoutesTo (send_call user 3 []) Route.new_message (3 ∷ [])
    × RoutesTo (delete_call user 3 40) Route.one_message (3 ∷ 40 ∷ [])
    × RoutesTo (revoke_call user 3 40 5) Route.message_access (3 ∷ 40 ∷ 5 ∷ [])
client_routes_example = client_routes user [] 3 40 5 (omega arith) (omega arith) (omega arith)
