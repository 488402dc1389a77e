-- ===== src/Client/Pinning.antt =====
-- The public keys that the client has seen: Client.cc lines 43-125.
use kingdom.Base.{
  ℕ, Bytes, codes, bytes_eq, not, ◌&&◌, Option, none, some, [], ◌∷◌, ◌++◌, if◌then◌else◌,
}
use kingdom.Outcome.{◌|>◌, Result, ok, err, runtime_error, other_error, or_err, guard}
use kingdom.Numerals.{to_string}
use kingdom.Toolkit.{Toolkit}
use kingdom.Drive.{
  Drive, Io, pure, lift, exists, read_file, create_directories, open_truncated, write_text,
  set_permissions, join, home_directory, ◌>>=◌, ◌>>◌,
}

unfoldable pub known_keys_path : Option Bytes → Result Bytes
known_keys_path home =
    home_directory (runtime_error "HOME is not set; cannot choose known keys file path") home
    |> λ dir.
        ok (join (join (join dir (codes ".kingdom")) (codes "keys")) (codes "known_keys.json"))

module _ (tk : Toolkit) where
  open tk use {
    Json, parse, print, print_indented, is_object, is_string, contains, index, get_string, set,
    string, object,
  }

  unfoldable pub object_or_throw : Option Json → Result Json
  object_or_throw none = err (runtime_error "Known keys file is not valid JSON object")
  object_or_throw (some body) =
      if is_object body
      then ok body
      else err (runtime_error "Known keys file is not valid JSON object")

  unfoldable pub read_known_keys : Bytes → Drive → Result Json
  unfolding object_or_throw
  read_known_keys path d =
      if not (exists path d)
      then ok (object [])
      else or_err (runtime_error "Failed to open known keys file for reading") (read_file path d)
        |> λ text. object_or_throw (parse text)

  unfoldable pub write_known_keys : Bytes → Json → Io (Unit {0})
  write_known_keys path known_keys = do
    create_directories path
    open_truncated (runtime_error "Failed to open known keys file for writing") path
    text ← lift (or_err other_error (print_indented known_keys))
    write_text (runtime_error "Failed to write known keys file") path (text ++ 10 ∷ [])
    set_permissions path

  unfoldable pub anchor_of : Bytes → Option Json → Result Bytes
  anchor_of public_key none = ok public_key
  anchor_of public_key (some bundle) =
      if is_object bundle
        && contains bundle (codes "identityKey")
        && contains bundle (codes "signingKey")
      then or_err other_error (
          print (
            object (
              (codes "identityKey", index bundle (codes "identityKey"))
              ∷ (codes "signingKey", index bundle (codes "signingKey"))
              ∷ [])))
      else ok public_key

  unfoldable pub pinning_anchor : Bytes → Result Bytes
  unfolding anchor_of
  pinning_anchor public_key = anchor_of public_key (parse public_key)

  unfoldable pub same_anchor : Bytes → Bytes → Json → Result Bytes
  same_anchor public_key anchor pinned =
      guard (is_string pinned) (runtime_error "Known keys file has invalid entry for user") |> λ u.
      or_err other_error (get_string pinned) |> λ pinned_key.
      guard (bytes_eq pinned_key anchor) (runtime_error "WARNING: identity key changed for user")
      |> λ v. ok public_key

  -- The first key of a user is written down; a later one has to have the same anchor.
  unfoldable pub pin_anchor : Bytes → Bytes → Bytes → Bytes → Json → Io Bytes
  unfolding same_anchor
  pin_anchor path key public_key anchor known_keys =
      if contains known_keys key
      then lift (same_anchor public_key anchor (index known_keys key))
      else write_known_keys path (set known_keys key (string anchor)) >> pure public_key

  unfoldable pub pin_public_key : Option Bytes → ℕ → Bytes → Io Bytes
  pin_public_key home user_id public_key = do
    path ← lift (known_keys_path home)
    known_keys ← λ d. (read_known_keys path d, d)
    anchor ← lift (pinning_anchor public_key)
    pin_anchor path (to_string user_id) public_key anchor known_keys
