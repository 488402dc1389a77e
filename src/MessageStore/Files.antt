-- ===== src/MessageStore/Files.antt =====
-- The file of a store: its path, reading it, and replacing it by a rename.
use kingdom.Base.{
  Bytes, codes, not, ◌||◌, Option, none, some, [], ◌∷◌, ◌++◌, is_empty, if◌then◌else◌, pos,
}
use kingdom.Outcome.{◌|>◌, Result, ok, runtime_error, other_error, or_err}
use kingdom.Toolkit.{Toolkit}
use kingdom.Drive.{
  Drive, Io, pure, lift, read_file, create_directories, open_truncated, write_text, close_stream,
  rename, join, home_directory, ◌>>=◌, ◌>>◌,
}
use kingdom.KeyStore.Encoding.{sanitized_username}

unfoldable pub default_store_path : Option Bytes → Bytes → Result Bytes
default_store_path home username =
    home_directory (runtime_error "HOME environment variable not set") home |> λ dir. ok (
      join (join (join dir (codes ".kingdom")) (codes "messages"))
        (sanitized_username username ++ codes ".json"))

-- `path.string() + ".tmp"`
abbrev pub temporary : Bytes → Bytes
temporary path = path ++ codes ".tmp"

abbrev pub messages_key : Bytes
messages_key = codes "messages"

module _ (tk : Toolkit) where
  open tk use {Json, parse, print_indented, is_object, contains, index, set, object, integer}

  unfoldable pub empty_store : Json
  empty_store = object ((codes "version", integer (pos 1)) ∷ (messages_key, object []) ∷ [])

  usable : Option Json → Option Json
  usable none = none
  usable (some parsed) = if is_object parsed then some parsed else none

  parsed_text : Option Bytes → Option Json
  unfolding usable
  parsed_text none = none
  parsed_text (some text) = usable (parse text)

  or_empty : Option Json → Json
  or_empty none = empty_store
  or_empty (some parsed) = parsed

  -- A file that cannot be opened or is no JSON object counts as an empty store.
  unfoldable pub parse_json_file_lenient : Bytes → Drive → Json
  unfolding parsed_text or_empty
  parse_json_file_lenient path d = or_empty (parsed_text (read_file path d))

  unfoldable pub parse_json_file_strict : Bytes → Drive → Result Json
  unfolding usable
  parse_json_file_strict path d =
      or_err (runtime_error "Failed to open local message store for reading") (read_file path d)
      |> λ text.
          or_err (runtime_error "Local message store is not valid JSON") (usable (parse text))

  unfoldable pub normalize_store : Json → Json
  normalize_store store =
      if not (contains store messages_key) || not (is_object (index store messages_key))
      then set store messages_key (object [])
      else store

  -- The text goes to a temporary file, which is closed and then takes the place of the store's file.
  unfoldable pub replace_file : Bytes → Json → Io (Unit {0})
  replace_file path body = do
    create_directories path
    open_truncated (runtime_error "Failed to open local message store for writing") (temporary path)
    text ← lift (or_err other_error (print_indented body))
    write_text (runtime_error "Failed to write local message store") (temporary path)
        (text ++ 10 ∷ [])
    close_stream (temporary path) (text ++ 10 ∷ [])
    rename (temporary path) path

  -- writeJsonFile of MessageStore.cc; an error in setting the permissions is ignored.
  unfoldable pub write_store_file : Bytes → Json → Io (Unit {0})
  unfolding replace_file
  write_store_file path body = if is_empty path then pure tt else replace_file path body
