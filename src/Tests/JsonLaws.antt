-- ===== src/Tests/JsonLaws.antt =====
-- The small JSON library behaves as documented.
use kingdom.Base.{
  ℕ, zero, suc, ◌≤◌, pos, negsuc, ◌≡◌, refl, subst, ap, ◌∙◌, Bytes, bytes_eq, bytes_eq_iff,
  bytes_eq_refl, Bool, true, false, ◌||◌, Option, none, some, List, [], ◌∷◌, ◌++◌, length, take,
  drop, is_some, value_or, lookup, arith, if◌then◌else◌,
}
use mathlib.Core.List.{append_assoc}
use kingdom.Toolkit.Laws.{JsonLaws}
use kingdom.Tests.Json.{
  Value, null, unsigned, integer, string, nothing, element, empty, member, show, depth, Reader,
  then_second, both, read, print, parse, find_member, set_member, is_object, is_array, elements_of,
  array_of, object_of, entry_of, toolkit,
}

take-length : (s t : Bytes) → take (length s) (s ++ t) ≡ s
take-length [] t = refl
take-length (c ∷ s) t = ap (λ x. c ∷ x) (take-length s t)

drop-length : (s t : Bytes) → drop (length s) (s ++ t) ≡ t
drop-length [] t = refl
drop-length (c ∷ s) t = drop-length s t

depth_positive : (v : Value) → depth v ≤ 0 → ⊥
depth_positive null h = absurd (omega arith)
depth_positive (unsigned n) h = absurd (omega arith)
depth_positive (integer i) h = absurd (omega arith)
depth_positive (string s) h = absurd (omega arith)
depth_positive nothing h = absurd (omega arith)
depth_positive (element v w) h = absurd (omega arith)
depth_positive empty h = absurd (omega arith)
depth_positive (member k v w) h = absurd (omega arith)

both-some :
    (f : Bytes → Reader) (make : Value → Value → Value) {s mid rest : Bytes} {v w : Value}
    → f s ≡ some (v, mid)
    → f mid ≡ some (w, rest)
    → both f make s ≡ some (make v w, rest)
both-some f make h k = rw (h, both) (rw (k, then_second))

read-show : (v : Value) (f : ℕ) (rest : Bytes) → depth v ≤ f → read f (show v rest) ≡ some (v, rest)
unfolding read
read-show v zero rest h = absurd (depth_positive v h)
read-show null (suc f) rest h = refl
read-show (unsigned n) (suc f) rest h = refl
read-show (integer (pos n)) (suc f) rest h = refl
read-show (integer (negsuc n)) (suc f) rest h = refl
read-show (string s) (suc f) rest h = rw (take-length s rest, drop-length s rest)
read-show nothing (suc f) rest h = refl
read-show (element v w) (suc f) rest h =
    rw (read-show v f (show w rest) (omega arith), read-show w f rest (omega arith))
read-show empty (suc f) rest h = refl
read-show (member k v w) (suc f) rest h =
    let text = show v (show w rest) in
    ap (λ t. both (read f) (member t) (drop (length k) (k ++ text))) (take-length k text)
    ∙ ap (both (read f) (member k)) (drop-length k text)
    ∙ both-some (read f) (member k) (read-show v f (show w rest) (omega arith))
        (read-show w f rest (omega arith))

show-append : (v : Value) (s t : Bytes) → show v s ++ t ≡ show v (s ++ t)
show-append null s t = refl
show-append (unsigned n) s t = refl
show-append (integer (pos n)) s t = refl
show-append (integer (negsuc n)) s t = refl
show-append (string u) s t = rw (append_assoc u s t)
show-append nothing s t = refl
show-append (element v w) s t = rw (show-append v (show w s) t, show-append w s t)
show-append empty s t = refl
show-append (member k v w) s t =
    rw (append_assoc k (show v (show w s)) t, show-append v (show w s) t, show-append w s t)

parse-shown : (v : Value) (rest : Bytes) → parse (depth v ∷ show v rest) ≡ some v
parse-shown v rest = rw (read-show v (depth v) rest (omega arith), parse)

some-injective : {A : Type 0} {a b : A} → some a ≡ some b → a ≡ b
some-injective h = cc

parse-print : (v : Value) {text : Bytes} → some (print v) ≡ some text → parse text ≡ some v
parse-print v h = subst (λ t. parse t ≡ some v) (some-injective h) (parse-shown v [])

parse-print_indented :
    (v : Value) {text : Bytes} → some (print v) ≡ some text → parse (text ++ 10 ∷ []) ≡ some v
parse-print_indented v h =
    subst (λ t. parse (t ++ 10 ∷ []) ≡ some v) (some-injective h)
      (ap (λ s. parse (depth v ∷ s)) (show-append v [] (10 ∷ [])) ∙ parse-shown v (10 ∷ []))

find_member-object_of :
    (fields : List (Bytes × Value)) (key : Bytes)
    → find_member (object_of fields) key ≡ lookup key fields
unfolding lookup
find_member-object_of [] key = refl
find_member-object_of ((k, v) ∷ fields) key = ground (arith, find_member-object_of fields key)

is_object-object_of : (fields : List (Bytes × Value)) → is_object (object_of fields) ≡ true
is_object-object_of [] = refl
is_object-object_of ((k, v) ∷ fields) = refl

is_object-set_member : (j : Value) (key : Bytes) (v : Value) → is_object (set_member j key v) ≡ true
is_object-set_member (member k w rest) key v = ground arith
is_object-set_member null key v = refl
is_object-set_member (unsigned n) key v = refl
is_object-set_member (integer i) key v = refl
is_object-set_member (string s) key v = refl
is_object-set_member nothing key v = refl
is_object-set_member (element w rest) key v = refl
is_object-set_member empty key v = refl

find_member-set_member :
    (j : Value) (key : Bytes) (v : Value) (other : Bytes)
    → find_member (set_member j key v) other
      ≡ (if bytes_eq key other then some v else find_member j other)
find_member-set_member (member k w rest) key v other = ground (
  arith,
  bytes_eq_iff k key,
  bytes_eq_iff k other,
  bytes_eq_iff key other,
  find_member-set_member rest key v other,
)
find_member-set_member null key v other = refl
find_member-set_member (unsigned n) key v other = refl
find_member-set_member (integer i) key v other = refl
find_member-set_member (string s) key v other = refl
find_member-set_member nothing key v other = refl
find_member-set_member (element w rest) key v other = refl
find_member-set_member empty key v other = refl

is_array-array_of : (vs : List Value) → is_array (array_of vs) ≡ true
is_array-array_of [] = refl
is_array-array_of (v ∷ vs) = refl

elements_of-array_of : (vs : List Value) → elements_of (array_of vs) ≡ vs
elements_of-array_of [] = refl
elements_of-array_of (v ∷ vs) = ap (λ x. v ∷ x) (elements_of-array_of vs)

is_some-if :
    {A : Type 0} (b : Bool) (a : A) (o : Option A)
    → is_some (if b then some a else o) ≡ (b || is_some o)
is_some-if true a o = refl
is_some-if false a o = refl

if-true : {A : Type 0} {b : Bool} {a : A} (o : A) → b ≡ true → (if b then a else o) ≡ a
if-true o h = rw h

value_or-if :
    (b : Bool) (a : Value) (o : Option Value)
    → value_or (if b then some a else o) null ≡ (if b then a else value_or o null)
value_or-if true a o = refl
value_or-if false a o = refl

null-array : {v : Value} → null ≡ v → is_array v ≡ true → ⊥
null-array h a = cc

value_or-array :
    (o : Option Value) {v : Value} → value_or o null ≡ v → is_array v ≡ true → o ≡ some v
value_or-array none h a = absurd (null-array h a)
value_or-array (some w) h a = ap some h

entry_of-array :
    (j : Value) (key : Bytes) {v : Value}
    → entry_of j key ≡ some v
    → is_array v ≡ true
    → find_member j key ≡ some v
entry_of-array null key h a = absurd (null-array (some-injective h) a)
entry_of-array empty key h a = absurd (null-array (some-injective h) a)
entry_of-array (member k v w) key h a =
    value_or-array (find_member (member k v w) key) (some-injective h) a
entry_of-array (unsigned n) key h a = cc
entry_of-array (integer n) key h a = cc
entry_of-array (string n) key h a = cc
entry_of-array nothing key h a = cc
entry_of-array (element v w) key h a = cc

pub toolkit-JsonLaws : JsonLaws toolkit
toolkit-JsonLaws = record {
  parse-print = parse-print;
  parse-print_indented = λ v h. (parse-print v h, parse-print_indented v h);
  at-object = find_member-object_of;
  contains-object = λ fields key. ap is_some (find_member-object_of fields key);
  is_object-object = is_object-object_of;
  is_object-set = λ j key v h. is_object-set_member j key v;
  contains-set = λ j key v other h.
      ap is_some (find_member-set_member j key v other)
      ∙ is_some-if (bytes_eq key other) v (find_member j other);
  at-set = λ j key v other h. find_member-set_member j key v other;
  entry-set = λ j key w h.
      let e = find_member-set_member j key w key ∙ if-true _ (bytes_eq_refl key) in
      (e, ap is_some e);
  entry-array = λ j key h a. let e = entry_of-array j key h a in (e, ap is_some e);
  index-set = λ j key v other h.
      ap (λ o. value_or o null) (find_member-set_member j key v other)
      ∙ value_or-if (bytes_eq key other) v (find_member j other);
  index-at = λ j key h. ap (λ o. value_or o null) h;
  get_string-string = λ s. refl;
  is_string-string = λ s. refl;
  get_uint64-unsigned = λ n h. refl;
  is_null-unsigned = λ n. refl;
  is_null-null = refl;
  get_int-integer = λ i. refl;
  is_array-array = is_array-array_of;
  elements-array = elements_of-array_of;
}
