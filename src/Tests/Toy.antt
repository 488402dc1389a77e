-- ===== src/Tests/Toy.antt =====
-- A small instance of the third-party code: a table of texts that parse, block codecs that copy, a
-- constant signature.
use text.Mathlib.Text.{◌==◌ as str_eq}
use kingdom.Base.{
  ℕ, String, Bytes, codes, bytes_eq, Bool, true, false, Option, none, some, List, [], ◌∷◌, ◌++◌,
  is_some, if◌then◌else◌,
}
use kingdom.Platform.{Platform}

pub data Leaf : Type 0 where
  nothing : Leaf
  chars : Bytes → Leaf
  number : ℕ → Leaf
  numbers : List ℕ → Leaf

pub data Toy : Type 0 where
  leaf : Leaf → Toy
  fields : List (String × Leaf) → Toy

abbrev field : List (String × Leaf) → String → Option Leaf
field [] key = none
field ((k, v) ∷ rest) key = if str_eq k key then some v else field rest key

abbrev toy_index : Toy → String → Toy
toy_index (leaf l) key = leaf nothing
toy_index (fields fs) key = elim (field fs key) [ none ↦ leaf nothing | some l ↦ leaf l ]

abbrev toy_contains : Toy → String → Bool
toy_contains (leaf l) key = false
toy_contains (fields fs) key = is_some (field fs key)

abbrev toy_string : Toy → Option Bytes
toy_string (leaf (chars s)) = some s
toy_string _ = none

abbrev toy_number : Toy → Option ℕ
toy_number (leaf (number n)) = some n
toy_number _ = none

abbrev toy_numbers : Toy → Option (List ℕ)
toy_numbers (leaf (numbers ns)) = some ns
toy_numbers _ = none

abbrev toy_object : List (String × Toy) → List (String × Leaf)
toy_object [] = []
toy_object ((k, leaf l) ∷ rest) = (k, l) ∷ toy_object rest
toy_object ((k, fields fs) ∷ rest) = toy_object rest

abbrev toy_dump : Toy → Bytes
toy_dump (leaf (chars s)) = s
toy_dump _ = codes "{}"

-- The payload of ann's session, which expires at second 100.
abbrev pub ann_payload : Toy
ann_payload = fields (("sub", chars (codes "1")) ∷ ("exp", number 100) ∷ [])

-- Ann's message to bob.
abbrev mail : Toy
mail =
    fields
      (("senderId", number 1) ∷ ("payload", chars (codes "yo")) ∷ ("recipientId", number 2) ∷ [])

abbrev toy_parse : Bytes → Option Toy
toy_parse text =
    if bytes_eq text (codes "HEAD")
    then some (fields (("alg", chars (codes "HS256")) ∷ []))
    else if bytes_eq text (codes "BODY")
    then some ann_payload
    else if bytes_eq text (codes "MAIL")
    then some mail
    else if bytes_eq text (codes "LATER")
    then some (fields (("pendingId", chars (codes "p1")) ∷ []))
    else none

abbrev toy_is_object : Toy → Bool
toy_is_object (leaf l) = false
toy_is_object (fields fs) = true

abbrev pub toy : Platform
toy = record {
  Json = Toy;
  parse = toy_parse;
  dump = toy_dump;
  is_object = toy_is_object;
  is_array = λ j. is_some (toy_numbers j);
  is_null = λ j. false;
  is_string = λ j. is_some (toy_string j);
  is_number_unsigned = λ j. is_some (toy_number j);
  contains = toy_contains;
  index = toy_index;
  set_index = λ j key v. j;
  elements = λ j. [];
  get_string = toy_string;
  get_uint64 = toy_number;
  get_uint64s = toy_numbers;
  value_string = λ j key. toy_string (toy_index j key);
  object = λ fs. fields (toy_object fs);
  array = λ js. leaf nothing;
  string = λ s. leaf (chars s);
  unsigned = λ n. leaf (number n);
  hmac_sha256 = λ key text. some (codes "SIGN");
  encode_block = λ s. some s;
  decode_block = λ s. some s;
  pwhash = λ salt s. some (salt ++ s);
  pwhash_verify = λ stored s. bytes_eq stored s;
  array_text = λ ns. codes "{}";
  sql_what = codes "sql";
  literal = codes;
}
