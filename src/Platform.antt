-- ===== src/Platform.antt =====
-- What the sources use of code that is not theirs: nlohmann::json, OpenSSL, libsodium and the
-- environment. Each member stands for a documented function; nothing is assumed of it here.
use kingdom.Base.{ℕ, String, Bytes, Bool, Option, List}

pub record Platform : Type 1 where
  -- `nlohmann::json`
  pub Json : Type 0
  -- `json::parse(text, nullptr, false)`; `none` is a discarded value
  pub parse : Bytes → Option Json
  -- `dump()`
  pub dump : Json → Bytes
  pub is_object : Json → Bool
  pub is_array : Json → Bool
  pub is_null : Json → Bool
  pub is_string : Json → Bool
  pub is_number_unsigned : Json → Bool
  -- `contains(key)`, false for what is no object
  pub contains : Json → String → Bool
  -- `operator[](key)` of an object; null where the key is absent
  pub index : Json → String → Json
  -- `json[key] = value`
  pub set_index : Json → String → Json → Json
  -- the elements of an array
  pub elements : Json → List Json
  -- `get<std::string>()`, `get<uint64_t>()`, `get<std::vector<uint64_t>>()`; `none` is a throw
  pub get_string : Json → Option Bytes
  pub get_uint64 : Json → Option ℕ
  pub get_uint64s : Json → Option (List ℕ)
  -- `value(key, "")`; `none` is a throw
  pub value_string : Json → String → Option Bytes
  -- the values that the code writes out
  pub object : List (String × Json) → Json
  pub array : List Json → Json
  pub string : Bytes → Json
  pub unsigned : ℕ → Json
  -- HMAC-SHA256 of the key and the text; `none` is a null result
  pub hmac_sha256 : Bytes → Bytes → Option Bytes
  -- `EVP_EncodeBlock` and `EVP_DecodeBlock`; `none` is a negative size
  pub encode_block : Bytes → Option Bytes
  pub decode_block : Bytes → Option Bytes
  -- `crypto_pwhash_str_alg`, with its random salt as the first argument, and
  -- `crypto_pwhash_str_verify`
  pub pwhash : Bytes → Bytes → Option Bytes
  pub pwhash_verify : Bytes → Bytes → Bool
  -- the text in which PostgreSQL writes an array of ids
  pub array_text : List ℕ → Bytes
  -- `what()` of an exception of libpqxx
  pub sql_what : Bytes
  -- the bytes of a literal with characters beyond ASCII, and of any other
  pub literal : String → Bytes
