-- ===== src/MessageStore/Store.antt =====
-- readStore_, writeStore_ and the operations on the plaintexts of messages.
use kingdom.Base.{
  ℕ, Bytes, codes, Bool, true, false, not, ◌||◌, Option, none, [], ◌∷◌, is_empty, is_int, pos,
  if◌then◌else◌,
}
use kingdom.Outcome.{◌|>◌, Result, ok, runtime_error, other_error, or_err, guard}
use kingdom.Numerals.{to_string}
use kingdom.Toolkit.{Toolkit, Crypto}
use kingdom.Drive.{Drive, Io, pure, lift, exists, ◌>>=◌, ◌>>◌}
use kingdom.MessageStore.Memory.{MessageStore}
use kingdom.MessageStore.Files.{
  default_store_path, messages_key, empty_store, parse_json_file_lenient, parse_json_file_strict,
  normalize_store, write_store_file,
}
use kingdom.MessageStore.Crypt.{
  StoreKdfParams, derive_cache_encryption_key, kdf_params_for_store, decrypt_envelope,
  encrypt_store,
}

abbrev pub at_path : Bytes → MessageStore
at_path path = record {
  messages = [];
  public_key_cache = [];
  store_path = path;
  username = [];
  encryption_key = [];
  salt = [];
  ops_limit = 0;
  mem_limit = 0;
  encrypted_at_rest = false;
}

unfoldable pub for_username : Option Bytes → Bytes → Result MessageStore
for_username home username = default_store_path home username |> λ path. ok (at_path path)

-- The private constructor.
abbrev pub with_key : Bytes → Bytes → Bytes → StoreKdfParams → MessageStore
with_key path username key params = record (at_path path) {
  username = username;
  encryption_key = key;
  salt = params.salt;
  ops_limit = params.ops_limit;
  mem_limit = params.mem_limit;
  encrypted_at_rest = true;
}

module _ (tk : Toolkit) (c : Crypto) where
  open tk use {
    Json, is_object, is_string, contains, index, set, erase, get_string, value_int, string,
    unsigned, object,
  }

  read_envelope : MessageStore → Json → Result Json
  read_envelope store envelope =
      or_err other_error (value_int envelope (codes "version") (pos 1)) |> λ version.
      if is_int 1 version
      then ok (normalize_store tk envelope)
      else decrypt_envelope tk c store envelope

  -- readStore_
  unfoldable pub read_store : MessageStore → Drive → Result Json
  unfolding read_envelope
  read_store store d =
      if is_empty store.store_path || not (exists store.store_path d)
      then ok (empty_store tk)
      else if store.encrypted_at_rest
      then parse_json_file_strict tk store.store_path d |> read_envelope store
      else ok (normalize_store tk (parse_json_file_lenient tk store.store_path d))

  -- writeStore_
  unfoldable pub write_store : MessageStore → ℕ → Json → Io (Unit {0})
  write_store store draw body =
      if store.encrypted_at_rest
      then lift (encrypt_store tk c store draw body) >>= write_store_file tk store.store_path
      else write_store_file tk store.store_path body

  rewrite_plain : MessageStore → Json → Bool → Io (Unit {0})
  rewrite_plain store parsed false = pure tt
  rewrite_plain store parsed true = write_store store 1 (normalize_store tk parsed)

  -- A store of version 1 is written again, encrypted.
  migrate : MessageStore → Bool → Io (Unit {0})
  unfolding rewrite_plain
  migrate store false = pure tt
  migrate store true = do
    parsed ← λ d. (ok (parse_json_file_lenient tk store.store_path d), d)
    version ← lift (or_err other_error (value_int parsed (codes "version") (pos 1)))
    rewrite_plain store parsed (is_int 1 version)

  unfoldable pub encrypted_at_path : Bytes → Bytes → Bytes → Io MessageStore
  unfolding migrate
  encrypted_at_path path username password = do
    lift (guard c.ready (runtime_error "Failed to initialize libsodium"))
    params ← λ d. (kdf_params_for_store tk c path d, d)
    key ←
        lift (derive_cache_encryption_key c password params.salt params.ops_limit params.mem_limit)
    there ← λ d. (ok (exists path d), d)
    migrate (with_key path username key params) there
    pure (with_key path username key params)

  unfoldable pub encrypted_for_user : Option Bytes → Bytes → Bytes → Io MessageStore
  encrypted_for_user home username password = do
    path ← lift (default_store_path home username)
    encrypted_at_path path username password

  plaintext_of : Json → Option Bytes
  plaintext_of entry =
      if not (is_object entry)
        || not (contains entry (codes "plaintext"))
        || not (is_string (index entry (codes "plaintext")))
      then none
      else get_string (index entry (codes "plaintext"))

  -- The record of a message in a store.
  unfoldable pub find_plaintext : ℕ → Json → Option Bytes
  unfolding plaintext_of
  find_plaintext message_id store =
      if contains (index store messages_key) (to_string message_id)
      then plaintext_of (index (index store messages_key) (to_string message_id))
      else none

  unfoldable pub get_plaintext : MessageStore → ℕ → Drive → Result (Option Bytes)
  get_plaintext store message_id d =
      read_store store d |> λ body. ok (find_plaintext message_id body)

  unfoldable pub message_record : ℕ → ℕ → ℕ → ℕ → Bytes → Json
  message_record message_id conversation_id sender_id timestamp plaintext = object (
      (codes "messageId", unsigned message_id)
      ∷ (codes "conversationId", unsigned conversation_id)
      ∷ (codes "senderId", unsigned sender_id)
      ∷ (codes "timestamp", unsigned timestamp)
      ∷ (codes "plaintext", string plaintext)
      ∷ [])

  -- `store["messages"][key] = entry` and `store["messages"].erase(key)`
  unfoldable pub with_record : ℕ → Json → Json → Json
  with_record message_id entry store =
      set store messages_key (set (index store messages_key) (to_string message_id) entry)

  unfoldable pub without_record : ℕ → Json → Json
  without_record message_id store =
      set store messages_key (erase (index store messages_key) (to_string message_id))

  unfoldable pub save_plaintext : MessageStore → ℕ → ℕ → ℕ → ℕ → Bytes → Io (Unit {0})
  save_plaintext store message_id conversation_id sender_id timestamp plaintext = do
    body ← λ d. (read_store store d, d)
    write_store store 0 (
        with_record message_id
          (message_record message_id conversation_id sender_id timestamp plaintext) body)

  unfoldable pub delete_plaintext : MessageStore → ℕ → Io (Unit {0})
  delete_plaintext store message_id = do
    body ← λ d. (read_store store d, d)
    write_store store 0 (without_record message_id body)
