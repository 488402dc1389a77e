-- ===== src/Tests/Json.antt =====
-- A small JSON library, which satisfies the documented behaviour that the client relies on.
use kingdom.Base.{
  ℕ, zero, suc, ◌+◌, ℤ, pos, negsuc, Bytes, bytes_eq, Bool, true, false, Option, none, some, List,
  [], ◌∷◌, ◌++◌, length, take, drop, is_some, value_or, if◌then◌else◌,
}
use kingdom.Toolkit.{Toolkit}

-- An array or object is one element or field and the rest of it.
pub data Value : Type 0 where
  null : Value
  unsigned : ℕ → Value
  integer : ℤ → Value
  string : Bytes → Value
  nothing : Value
  element : Value → Value → Value
  empty : Value
  member : Bytes → Value → Value → Value

-- The text of a value in front of another text.
abbrev pub show : Value → Bytes → Bytes
show null rest = 0 ∷ rest
show (unsigned n) rest = 1 ∷ n ∷ rest
show (integer (pos n)) rest = 2 ∷ n ∷ rest
show (integer (negsuc n)) rest = 3 ∷ n ∷ rest
show (string s) rest = 4 ∷ length s ∷ (s ++ rest)
show nothing rest = 5 ∷ rest
show (element v w) rest = 6 ∷ show v (show w rest)
show empty rest = 7 ∷ rest
show (member k v w) rest = 8 ∷ length k ∷ (k ++ show v (show w rest))

abbrev pub depth : Value → ℕ
depth (element v w) = suc (depth v + depth w)
depth (member k v w) = suc (depth v + depth w)
depth _ = 1

abbrev pub Reader : Type 0
Reader = Option (Value × Bytes)

abbrev pub then_second : (Bytes → Reader) → (Value → Value → Value) → Value → Bytes → Reader
then_second read make v s = elim (read s) [ none ↦ none | some (w, rest) ↦ some (make v w, rest) ]

abbrev pub both : (Bytes → Reader) → (Value → Value → Value) → Bytes → Reader
both read make s = elim (read s) [ none ↦ none | some (v, rest) ↦ then_second read make v rest ]

unfoldable pub read : ℕ → Bytes → Reader
read (suc f) (zero ∷ s) = some (null, s)
read (suc f) (suc zero ∷ n ∷ s) = some (unsigned n, s)
read (suc f) (suc (suc zero) ∷ n ∷ s) = some (integer (pos n), s)
read (suc f) (suc (suc (suc zero)) ∷ n ∷ s) = some (integer (negsuc n), s)
read (suc f) (suc (suc (suc (suc zero))) ∷ n ∷ s) = some (string (take n s), drop n s)
read (suc f) (suc (suc (suc (suc (suc zero)))) ∷ s) = some (nothing, s)
read (suc f) (suc (suc (suc (suc (suc (suc zero))))) ∷ s) = both (read f) element s
read (suc f) (suc (suc (suc (suc (suc (suc (suc zero)))))) ∷ s) = some (empty, s)
read (suc f) (suc (suc (suc (suc (suc (suc (suc (suc zero))))))) ∷ n ∷ s) =
    both (read f) (member (take n s)) (drop n s)
read _ _ = none

-- The text begins with a number that bounds the depth.
abbrev pub print : Value → Bytes
print v = depth v ∷ show v []

abbrev pub parse : Bytes → Option Value
parse [] = none
parse (f ∷ s) = elim (read f s) [ none ↦ none | some (v, rest) ↦ some v ]

abbrev pub find_member : Value → Bytes → Option Value
find_member (member k v w) key = if bytes_eq k key then some v else find_member w key
find_member _ key = none

abbrev pub set_member : Value → Bytes → Value → Value
set_member (member k v w) key x =
    let others = set_member w key x in if bytes_eq k key then member k x w else member k v others
set_member _ key x = member key x empty

abbrev pub erase_member : Value → Bytes → Value
erase_member (member k v w) key =
    let others = erase_member w key in if bytes_eq k key then w else member k v others
erase_member v key = v

abbrev pub is_object : Value → Bool
is_object empty = true
is_object (member k v w) = true
is_object _ = false

abbrev pub is_array : Value → Bool
is_array nothing = true
is_array (element v w) = true
is_array _ = false

abbrev pub is_null : Value → Bool
is_null null = true
is_null _ = false

abbrev pub is_string : Value → Bool
is_string (string s) = true
is_string _ = false

abbrev pub text_of : Value → Option Bytes
text_of (string s) = some s
text_of _ = none

abbrev pub number_of : Value → Option ℕ
number_of (unsigned n) = some n
number_of (integer (pos n)) = some n
number_of _ = none

abbrev pub int_of : Value → Option ℤ
int_of (unsigned n) = some (pos n)
int_of (integer i) = some i
int_of _ = none

abbrev pub elements_of : Value → List Value
elements_of (element v w) = v ∷ elements_of w
elements_of (member k v w) = v ∷ elements_of w
elements_of _ = []

abbrev pub array_of : List Value → Value
array_of [] = nothing
array_of (v ∷ vs) = element v (array_of vs)

abbrev pub object_of : List (Bytes × Value) → Value
object_of [] = empty
object_of ((k, v) ∷ fields) = member k v (object_of fields)

abbrev pub or_default : {A : Type 0} → (Value → Option A) → Option Value → A → Option A
or_default get none default = some default
or_default get (some v) default = get v

-- `operator[]`: an absent key of an object, and null, give null.
abbrev pub entry_of : Value → Bytes → Option Value
entry_of null key = some null
entry_of empty key = some null
entry_of (member k v w) key = some (value_or (find_member (member k v w) key) null)
entry_of _ key = none

abbrev pub toolkit : Toolkit
toolkit = record {
  Json = Value;
  parse = parse;
  print = λ v. some (print v);
  print_indented = λ v. some (print v);
  is_object = is_object;
  is_array = is_array;
  is_string = is_string;
  is_null = is_null;
  contains = λ v key. is_some (find_member v key);
  index = λ v key. value_or (find_member v key) null;
  entry = entry_of;
  at = find_member;
  set = set_member;
  erase = erase_member;
  elements = elements_of;
  get_string = text_of;
  get_uint64 = number_of;
  get_int = int_of;
  value_string = λ v key. or_default text_of (find_member v key) [];
  value_int = λ v key. or_default int_of (find_member v key);
  value_uint64 = λ v key. or_default number_of (find_member v key);
  null = null;
  string = string;
  unsigned = unsigned;
  integer = integer;
  array = array_of;
  object = object_of;
}
