-- ===== src/KeyStore/Fields.antt =====
-- Reading the fields of an object that was written out, and the keys that it holds.
use kingdom.Base.{
  ℕ, ◌<◌, ◌≡◌, refl, ap, ◌∙◌, Bytes, true, some, List, length, lookup, pos, ◌==◌, arith, codes,
}
use kingdom.Outcome.{ok}
use kingdom.Numerals.{u64_limit}
use kingdom.Toolkit.{Toolkit, Crypto}
use kingdom.Toolkit.Laws.{JsonLaws, CryptoLaws}
use kingdom.KeyStore.Encoding.{base64_decode, base64_decode_array}
use kingdom.KeyStore.Bundle.{field, string_field, number_field, has_version, parse_json}

module _ (tk : Toolkit) (laws : JsonLaws tk) where
  open tk use {Json}

  pub field-object :
      (fields : List (Bytes × Json)) (key : Bytes) {v : Json}
      → lookup key fields ≡ some v
      → field tk (tk.object fields) key ≡ ok v
  unfolding field
  field-object fields key h = rw (laws.at-object fields key, h)

  pub string_field-object :
      (fields : List (Bytes × Json)) (key : Bytes) {s : Bytes}
      → lookup key fields ≡ some (tk.string s)
      → string_field tk (tk.object fields) key ≡ ok s
  unfolding string_field
  string_field-object fields key {s} h = rw (field-object fields key h, laws.get_string-string s)

  pub number_field-object :
      (fields : List (Bytes × Json)) (key : Bytes) {n : ℕ}
      → n < u64_limit
      → lookup key fields ≡ some (tk.unsigned n)
      → number_field tk (tk.object fields) key ≡ ok n
  unfolding number_field
  number_field-object fields key {n} small h =
      rw (field-object fields key h, laws.get_uint64-unsigned n small)

  pub has_version-object :
      (fields : List (Bytes × Json))
      → lookup (codes "version") fields ≡ some (tk.integer (pos 1))
      → has_version tk 1 (tk.object fields) ≡ ok true
  unfolding has_version
  has_version-object fields h =
      rw (field-object fields (codes "version") h, laws.get_int-integer (pos 1))

  pub parse_json-print :
      (fields : List (Bytes × Json)) {text : Bytes}
      → tk.print (tk.object fields) ≡ some text
      → parse_json tk text ≡ ok (tk.object fields)
  unfolding parse_json
  parse_json-print fields h =
      rw (laws.parse-print (tk.object fields) h, laws.is_object-object fields)

module _ (c : Crypto) (laws : CryptoLaws c) where
  pub base64_decode-base64 : (s : Bytes) → base64_decode c (c.base64 s) ≡ ok s
  unfolding base64_decode
  base64_decode-base64 s = rw (laws.unbase64-base64 s)

  pub base64_decode_array-base64 :
      (n : ℕ) (s : Bytes) → length s ≡ n → base64_decode_array c n (c.base64 s) ≡ ok s
  unfolding base64_decode_array
  base64_decode_array-base64 n s h =
      rw (base64_decode-base64 s, h) (let e : (n == n) ≡ true = ground arith in rw e refl)

  pub base64_decode_array-text :
      (n : ℕ) {text : Bytes} (s : Bytes)
      → text ≡ c.base64 s
      → length s ≡ n
      → base64_decode_array c n text ≡ ok s
  base64_decode_array-text n s h k =
      ap (base64_decode_array c n) h ∙ base64_decode_array-base64 n s k

  pub base64_decode-text :
      {text : Bytes} (s : Bytes) → text ≡ c.base64 s → base64_decode c text ≡ ok s
  base64_decode-text s h = ap (base64_decode c) h ∙ base64_decode-base64 s
