-- ===== src/Toolkit/Laws.antt =====
-- What the documentation of nlohmann::json and of the crypto libraries says of the functions that
-- the client uses, as far as the client relies on it.
use kingdom.Base.{
  ℕ, ℤ, ◌<◌, ◌≡◌, Bytes, true, false, ◌||◌, some, List, [], ◌∷◌, ◌++◌, is_some, lookup, bytes_eq,
  length, ltb, if◌then◌else◌,
}
use kingdom.Numerals.{u64_limit}
use kingdom.Toolkit.{Toolkit, Crypto, box_key_bytes, sign_public_bytes, sign_bytes, tag_bytes}

pub record JsonLaws (tk : Toolkit) : Type 0 where
  -- what is printed is read back, also in front of the end of a line
  pub parse-print : (j : tk.Json) {text : Bytes} → tk.print j ≡ some text → tk.parse text ≡ some j
  pub parse-print_indented :
      (j : tk.Json) {text : Bytes}
      → tk.print_indented j ≡ some text
      → (tk.parse text ≡ some j) × (tk.parse (text ++ 10 ∷ []) ≡ some j)
  -- the fields of an object that is written out, whose keys differ
  pub at-object :
      (fields : List (Bytes × tk.Json)) (key : Bytes)
      → tk.at (tk.object fields) key ≡ lookup key fields
  pub contains-object :
      (fields : List (Bytes × tk.Json)) (key : Bytes)
      → tk.contains (tk.object fields) key ≡ is_some (lookup key fields)
  pub is_object-object : (fields : List (Bytes × tk.Json)) → tk.is_object (tk.object fields) ≡ true
  -- `json[key] = value` on an object
  pub is_object-set :
      (j : tk.Json) (key : Bytes) (v : tk.Json)
      → tk.is_object j ≡ true
      → tk.is_object (tk.set j key v) ≡ true
  pub contains-set :
      (j : tk.Json) (key : Bytes) (v : tk.Json) (other : Bytes)
      → tk.is_object j ≡ true
      → tk.contains (tk.set j key v) other ≡ (bytes_eq key other || tk.contains j other)
  pub at-set :
      (j : tk.Json) (key : Bytes) (v : tk.Json) (other : Bytes)
      → tk.is_object j ≡ true
      → tk.at (tk.set j key v) other ≡ (if bytes_eq key other then some v else tk.at j other)
  -- `auto& used = json[key]`, where that does not throw: it can be assigned, and an array that it
  -- refers to was there
  pub entry-set :
      (j : tk.Json) (key : Bytes) (w : tk.Json) {v : tk.Json}
      → tk.entry j key ≡ some v
      → (tk.at (tk.set j key w) key ≡ some w) × (tk.contains (tk.set j key w) key ≡ true)
  pub entry-array :
      (j : tk.Json) (key : Bytes) {v : tk.Json}
      → tk.entry j key ≡ some v
      → tk.is_array v ≡ true
      → (tk.at j key ≡ some v) × (tk.contains j key ≡ true)
  pub index-set :
      (j : tk.Json) (key : Bytes) (v : tk.Json) (other : Bytes)
      → tk.is_object j ≡ true
      → tk.index (tk.set j key v) other ≡ (if bytes_eq key other then v else tk.index j other)
  -- `operator[]` of a key that is there
  pub index-at :
      (j : tk.Json) (key : Bytes) {v : tk.Json} → tk.at j key ≡ some v → tk.index j key ≡ v
  -- the values of the types that the client writes
  pub get_string-string : (s : Bytes) → tk.get_string (tk.string s) ≡ some s
  pub is_string-string : (s : Bytes) → tk.is_string (tk.string s) ≡ true
  pub get_uint64-unsigned : (n : ℕ) → n < u64_limit → tk.get_uint64 (tk.unsigned n) ≡ some n
  pub is_null-unsigned : (n : ℕ) → tk.is_null (tk.unsigned n) ≡ false
  pub is_null-null : tk.is_null tk.null ≡ true
  pub get_int-integer : (i : ℤ) → tk.get_int (tk.integer i) ≡ some i
  pub is_array-array : (js : List tk.Json) → tk.is_array (tk.array js) ≡ true
  pub elements-array : (js : List tk.Json) → tk.elements (tk.array js) ≡ js

pub record CryptoLaws (c : Crypto) : Type 0 where
  pub unbase64-base64 : (s : Bytes) → c.unbase64 (c.base64 s) ≡ some s
  -- the two sides of a Diffie-Hellman agreement have the same output
  pub scalarmult-box_keypair :
      (a b : Bytes)
      → c.scalarmult (c.box_keypair a).1 (c.box_keypair b).0
        ≡ c.scalarmult (c.box_keypair b).1 (c.box_keypair a).0
  pub length-box_keypair : (a : Bytes) → length (c.box_keypair a).0 ≡ box_key_bytes
  -- a signature is as long as documented, and verifies with the public key of its secret key
  pub length-sign_keypair : (a : Bytes) → length (c.sign_keypair a).0 ≡ sign_public_bytes
  pub length-sign_detached : (text key : Bytes) → length (c.sign_detached text key) ≡ sign_bytes
  pub verify_detached-sign_detached :
      (text a : Bytes)
      → c.verify_detached (c.sign_detached text (c.sign_keypair a).1) text (c.sign_keypair a).0
        ≡ true
  -- what is encrypted is decrypted with the same data, and holds a tag
  pub aead_decrypt-aead_encrypt :
      (text aad nonce key : Bytes) {ciphertext : Bytes}
      → c.aead_encrypt text aad nonce key ≡ some ciphertext
      → (c.aead_decrypt ciphertext aad nonce key ≡ some text)
        × (ltb (length ciphertext) tag_bytes ≡ false)
