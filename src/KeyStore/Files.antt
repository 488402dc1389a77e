-- ===== src/KeyStore/Files.antt =====
-- The key file: reading and writing it, and taking a one-time prekey out of use.
use kingdom.Base.{
  ℕ, Bytes, codes, Bool, true, false, none, some, List, [], ◌∷◌, ◌++◌, any, is_empty, ◌==◌,
  if◌then◌else◌,
}
use kingdom.Outcome.{◌|>◌, Result, ok, err, runtime_error, other_error, or_err}
use kingdom.Toolkit.{Toolkit}
use kingdom.Drive.{
  Drive, Io, pure, lift, read_file, create_directories, open_truncated, write_text, set_permissions,
  ◌>>=◌, ◌>>◌,
}
use kingdom.KeyStore.Identity.{LocalPreKey, LocalIdentityKey}

abbrev pub used_ids_key : Bytes
used_ids_key = codes "usedOneTimePreKeyIds"

module _ (tk : Toolkit) where
  open tk use {
    Json, parse, print_indented, is_array, entry, set, elements, get_uint64, unsigned, array,
  }

  unfoldable pub read_json_file : Bytes → Io Json
  read_json_file path d = (
    or_err (runtime_error "Failed to open local key file for reading") (read_file path d) |> λ text.
        or_err (runtime_error "Local key file is not valid JSON") (parse text),
    d,
  )

  -- `output << body.dump(2) << '\n'` on the opened file.
  unfoldable pub write_json_file : Bytes → Json → Io (Unit {0})
  write_json_file path body = do
    create_directories path
    open_truncated (runtime_error "Failed to open local key file for writing") path
    text ← lift (or_err other_error (print_indented body))
    write_text (runtime_error "Failed to write local key file") path (text ++ 10 ∷ [])
    set_permissions path

  -- `any_of` over the used ids: it stops at the first hit, and an entry that is no number throws.
  unfoldable pub any_used : ℕ → List Json → Result Bool
  any_used pre_key_id [] = ok false
  any_used pre_key_id (used ∷ rest) =
      let others = any_used pre_key_id rest in
      elim (get_uint64 used) [
        | none ↦ err other_error
        | some used_id ↦ if used_id == pre_key_id then ok true else others
      ]

  unfoldable pub used_entries : Json → List Json
  used_entries used = if is_array used then elements used else []

  unfoldable pub record_if_new : Bytes → Json → List Json → ℕ → Bool → Io (Unit {0})
  record_if_new path file used pre_key_id true = pure tt
  record_if_new path file used pre_key_id false =
      write_json_file path (set file used_ids_key (array (used ++ unsigned pre_key_id ∷ [])))

  -- The file's part of eraseOneTimePreKey.
  unfoldable pub record_used : Bytes → ℕ → Io (Unit {0})
  unfolding used_entries record_if_new
  record_used path pre_key_id = do
    file ← read_json_file path
    used ← lift (or_err other_error (entry file used_ids_key))
    already ← lift (any_used pre_key_id (used_entries used))
    record_if_new path file (used_entries used) pre_key_id already

abbrev pub has_id : ℕ → LocalPreKey → Bool
has_id pre_key_id key = key.id == pre_key_id

-- `erase` of the first key with the id.
unfoldable pub remove_first : ℕ → List LocalPreKey → List LocalPreKey
remove_first pre_key_id [] = []
remove_first pre_key_id (key ∷ keys) =
    let rest = remove_first pre_key_id keys in if key.id == pre_key_id then keys else key ∷ rest

unfoldable pub without_key : ℕ → LocalIdentityKey → LocalIdentityKey
unfolding remove_first
without_key pre_key_id identity = record identity {
  one_time_pre_keys = remove_first pre_key_id identity.one_time_pre_keys;
}

-- What a call does to the identity that it is handed, beside what it returns and writes.
abbrev pub Erasing : Type 0 → Type 0
Erasing A = Drive → (Result A × LocalIdentityKey) × Drive

abbrev pub erased :
    LocalIdentityKey → Result (Unit {0}) × Drive → (Result (Unit {0}) × LocalIdentityKey) × Drive
erased identity (r, d) = ((r, identity), d)

-- eraseOneTimePreKey: the identity loses the key also where the file cannot be written.
unfoldable pub erase_one_time_pre_key : Toolkit → LocalIdentityKey → ℕ → Erasing (Unit {0})
unfolding without_key
erase_one_time_pre_key tk identity pre_key_id d =
    if any (has_id pre_key_id) identity.one_time_pre_keys
    then if is_empty identity.key_file_path
      then ((ok tt, without_key pre_key_id identity), d)
      else erased (without_key pre_key_id identity)
          (record_used tk identity.key_file_path pre_key_id d)
    else ((err (runtime_error "One-time prekey is missing or already used"), identity), d)
