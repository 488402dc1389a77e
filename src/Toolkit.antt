-- ===== src/Toolkit.antt =====
-- What the client library uses of code that is not its own: nlohmann::json, libsodium and OpenSSL's
-- HKDF. Each member stands for a documented function; nothing is assumed of it here.
pub mod Laws
use kingdom.Base.{ℕ, ℤ, Bytes, Bool, Option, List}

-- `Json` stands for the values of nlohmann::json that parsing and the code make: no NaN.
pub record Toolkit : Type 1 where
  pub Json : Type 0
  -- `parse(text, nullptr, false)`; `none` is a discarded value
  pub parse : Bytes → Option Json
  -- `dump()` and `dump(2)`; `none` is the throw on a text that is not UTF-8
  pub print : Json → Option Bytes
  pub print_indented : Json → Option Bytes
  pub is_object : Json → Bool
  pub is_array : Json → Bool
  pub is_string : Json → Bool
  pub is_null : Json → Bool
  -- `contains(key)`, false for what is no object
  pub contains : Json → Bytes → Bool
  -- `operator[](key)` of an object that has the key
  pub index : Json → Bytes → Json
  -- `operator[](key)` of a value that may change: null where the key is absent; `none` is a throw
  pub entry : Json → Bytes → Option Json
  -- `at(key)`; `none` is a throw
  pub at : Json → Bytes → Option Json
  -- `json[key] = value` and `erase(key)` of an object
  pub set : Json → Bytes → Json → Json
  pub erase : Json → Bytes → Json
  -- the values that a loop over an array visits
  pub elements : Json → List Json
  -- `get<std::string>()`, `get<uint64_t>()`, `get<int>()`; `none` is a throw
  pub get_string : Json → Option Bytes
  pub get_uint64 : Json → Option ℕ
  pub get_int : Json → Option ℤ
  -- `value(key, default)`, the default of a string being empty; `none` is a throw
  pub value_string : Json → Bytes → Option Bytes
  pub value_int : Json → Bytes → ℤ → Option ℤ
  pub value_uint64 : Json → Bytes → ℕ → Option ℕ
  -- the values that the code writes out
  pub null : Json
  pub string : Bytes → Json
  pub unsigned : ℕ → Json
  pub integer : ℤ → Json
  pub array : List Json → Json
  pub object : List (Bytes × Json) → Json

pub record Crypto : Type 0 where
  -- `sodium_init() >= 0`
  pub ready : Bool
  -- the n-th value that `randombytes_buf` or a key generation draws
  pub random : ℕ → Bytes
  -- base64 in the original variant
  pub base64 : Bytes → Bytes
  pub unbase64 : Bytes → Option Bytes
  -- HKDF-SHA256 of a secret, an info and a salt; `none` is a failure of OpenSSL
  pub hkdf : Bytes → Bytes → Bytes → Option Bytes
  -- Argon2id of a password and a salt under the limits
  pub argon2 : Bytes → Bytes → ℕ → ℕ → Option Bytes
  -- `crypto_box_keypair` and `crypto_sign_keypair` from a drawn value: the public and the secret key
  pub box_keypair : Bytes → Bytes × Bytes
  pub sign_keypair : Bytes → Bytes × Bytes
  -- `crypto_sign_detached` of a text by a secret key
  pub sign_detached : Bytes → Bytes → Bytes
  -- `crypto_sign_verify_detached` of a signature, a text and a public key
  pub verify_detached : Bytes → Bytes → Bytes → Bool
  -- `crypto_scalarmult` of a secret and a public key
  pub scalarmult : Bytes → Bytes → Option Bytes
  -- XChaCha20-Poly1305 of a text, the associated data, a nonce and a key
  pub aead_encrypt : Bytes → Bytes → Bytes → Bytes → Option Bytes
  pub aead_decrypt : Bytes → Bytes → Bytes → Bytes → Option Bytes

-- The sizes of libsodium.
abbrev pub box_key_bytes : ℕ
box_key_bytes = 32

abbrev pub sign_public_bytes : ℕ
sign_public_bytes = 32

abbrev pub sign_secret_bytes : ℕ
sign_secret_bytes = 64

abbrev pub sign_bytes : ℕ
sign_bytes = 64

abbrev pub salt_bytes : ℕ
salt_bytes = 16

abbrev pub nonce_bytes : ℕ
nonce_bytes = 24

abbrev pub tag_bytes : ℕ
tag_bytes = 16

-- `crypto_pwhash_OPSLIMIT_MODERATE` and `crypto_pwhash_MEMLIMIT_MODERATE`
abbrev pub ops_limit_moderate : ℕ
ops_limit_moderate = 3

abbrev pub mem_limit_moderate : ℕ
mem_limit_moderate = 268_435_456
