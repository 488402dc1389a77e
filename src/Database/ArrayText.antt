-- ===== src/Database/ArrayText.antt =====
-- Database.cc lines 234-251: reading the text of a PostgreSQL array such as `{1,2,3}`.
use mathlib.Core.List.{append-nil}
use kingdom.Base.{
  true, false, ◌≤◌, ℕ, zero, suc, ◌-◌, ◌<◌, Bytes, find, ◌≡◌, refl, none, some, List, [], ◌∷◌, ◌++◌,
  take, drop, length, is_empty, leb, if◌then◌else◌, All, arith, length-append, ap,
}
use kingdom.Numerals.{
  from_chars, FromChars, value, invalid_argument, result_out_of_range, to_string, u64_limit,
  is_digit,
}
use kingdom.Numerals.RoundTrip.{from_chars-to_string_whole, is_empty-to_string, to_string_digits}

-- `if (ec == std::errc{}) participantIds.push_back(participantId)`
push_value : FromChars → List ℕ → List ℕ
push_value (value n rest) ids = n ∷ ids
push_value invalid_argument ids = ids
push_value result_out_of_range ids = ids

-- The loop over `inner`: each round drops at least one byte, which the first argument counts.
parse_items : ℕ → Bytes → List ℕ
unfolding push_value
parse_items zero inner = []
parse_items (suc f) inner = if is_empty inner then [] else elim (find b',' inner) [
  | none ↦ push_value (from_chars inner) []
  | some comma ↦ push_value (from_chars (take comma inner)) (parse_items f (drop (suc comma) inner))
]

unfoldable pub parse_array : Bytes → List ℕ
unfolding parse_items
parse_array text =
    let inner : Bytes = take (length text - 2) (drop 1 text) in
    if leb 2 (length text) then parse_items (length inner) inner else []

-- The documented form of a BIGINT array: decimal numbers between braces, with commas.
unfoldable pub render_items : List ℕ → Bytes
render_items [] = []
render_items (n ∷ []) = to_string n
render_items (n ∷ m ∷ ns) = to_string n ++ b',' ∷ render_items (m ∷ ns)

unfoldable pub render : List ℕ → Bytes
unfolding render_items
render ids = b'{' ∷ render_items ids ++ b'}' ∷ []

find_comma :
    (s t : Bytes) → All (λ c. is_digit c ≡ true) s → find b',' (s ++ b',' ∷ t) ≡ some (length s)
unfolding find is_digit
find_comma [] t h = refl
find_comma (c ∷ s) t h = ground (arith, find_comma s t h.1)

no_comma : (s : Bytes) → All (λ c. is_digit c ≡ true) s → find b',' s ≡ none
unfolding find is_digit
no_comma [] h = refl
no_comma (c ∷ s) h = ground (arith, no_comma s h.1)

take_front : (s t : Bytes) → take (length s) (s ++ t) ≡ s
take_front [] t = refl
take_front (c ∷ s) t = ap (◌∷◌ c) (take_front s t)

drop_front : (s t : Bytes) (c : ℕ) → drop (suc (length s)) (s ++ c ∷ t) ≡ t
drop_front [] t c = refl
drop_front (x ∷ s) t c = drop_front s t c

parse_items-render_items :
    (ids : List ℕ) (f : ℕ)
    → All (λ n. n < u64_limit) ids
    → length ids ≤ f
    → parse_items f (render_items ids) ≡ ids
unfolding parse_items render_items
parse_items-render_items [] zero h enough = refl
parse_items-render_items [] (suc f) h enough = refl
parse_items-render_items (n ∷ []) zero h enough = absurd (omega arith)
parse_items-render_items (n ∷ m ∷ ns) zero h enough = absurd (omega arith)
parse_items-render_items (n ∷ []) (suc f) h enough = rw (
  rw append-nil at (is_empty-to_string n []),
  no_comma (to_string n) (to_string_digits n),
  from_chars-to_string_whole n h.0,
)
parse_items-render_items (n ∷ m ∷ ns) (suc f) h enough =
    let rest = render_items (m ∷ ns) in
    rw
      (
        is_empty-to_string n (b',' ∷ rest),
        find_comma (to_string n) rest (to_string_digits n),
        take_front (to_string n) (b',' ∷ rest),
        drop_front (to_string n) rest b',',
        from_chars-to_string_whole n h.0,
      )
      (ap (◌∷◌ n) (parse_items-render_items (m ∷ ns) f h.1 (omega arith)))

positive : (s : Bytes) → is_empty (s ++ []) ≡ false → 1 ≤ length s
positive [] h = cc
positive (c ∷ s) h = omega arith

length-render_items : (ids : List ℕ) → length ids ≤ length (render_items ids)
unfolding render_items
length-render_items [] = omega arith
length-render_items (n ∷ []) = positive (to_string n) (is_empty-to_string n [])
length-render_items (n ∷ m ∷ ns) = omega (
  arith,
  length-append (to_string n) (b',' ∷ render_items (m ∷ ns)),
  positive (to_string n) (is_empty-to_string n []),
  length-render_items (m ∷ ns),
)

-- The braces come off.
inner_text : (r : Bytes) → take (length (b'{' ∷ r ++ b'}' ∷ []) - 2) (r ++ b'}' ∷ []) ≡ r
inner_text r = rw two_less (take_front r (b'}' ∷ []))
  where
    two_less : length (b'{' ∷ r ++ b'}' ∷ []) - 2 ≡ length r
    two_less = omega (arith, length-append r (b'}' ∷ []))

two_braces : (r : Bytes) → leb 2 (length (b'{' ∷ r ++ b'}' ∷ [])) ≡ true
two_braces r = ground (arith, length-append r (b'}' ∷ []))

-- Ids below 2^64 that are written as `{1,2,3}` are read back, in order and none left out.
pub parse_array-render :
    (ids : List ℕ) → All (λ n. n < u64_limit) ids → parse_array (render ids) ≡ ids
unfolding parse_array render
parse_array-render ids h =
    rw (two_braces (render_items ids), inner_text (render_items ids))
      (parse_items-render_items ids (length (render_items ids)) h (length-render_items ids))
