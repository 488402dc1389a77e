-- ===== src/Numerals.antt =====
-- Decimal text of the standard library as the sources use it: std::from_chars and std::to_string
-- at `uint64_t`, std::stoull; and `parseId` of Controller.cc.
pub mod Decimal
pub mod RoundTrip
use kingdom.Base.{
  ℕ, zero, suc, ◌+◌, ◌-◌, ◌*◌, ◌/◌, ◌%◌, ◌^◌, Bytes, Bool, true, false, ◌&&◌, ◌||◌, Option, none,
  some, [], ◌∷◌, ltb, leb, ◌==◌, if◌then◌else◌, is_empty,
}

abbrev pub u64_limit : ℕ
u64_limit = 2 ^ 64

unfoldable pub is_digit : ℕ → Bool
is_digit c = leb b'0' c && leb c b'9'

-- The digits at the front, read behind the value `n`, and what follows them.
scan_digits : ℕ → Bytes → ℕ × Bytes
scan_digits n [] = (n, [])
scan_digits n (c ∷ s) = if is_digit c then scan_digits (n * 10 + (c - b'0')) s else (n, c ∷ s)

pub data FromChars : Type 0 where
  -- `ec == std::errc{}`, with the text behind `ptr`
  value : ℕ → Bytes → FromChars
  invalid_argument : FromChars
  result_out_of_range : FromChars

within : ℕ × Bytes → FromChars
within (n, rest) = if ltb n u64_limit then value n rest else result_out_of_range

starts_with_digit : Bytes → Bool
starts_with_digit [] = false
starts_with_digit (c ∷ s) = is_digit c

unfoldable pub from_chars : Bytes → FromChars
unfolding within starts_with_digit scan_digits is_digit
from_chars s = if starts_with_digit s then within (scan_digits 0 s) else invalid_argument

-- `ec == std::errc{} && ptr == end`
accepted : FromChars → Option ℕ
accepted (value n rest) = if is_empty rest then some n else none
accepted invalid_argument = none
accepted result_out_of_range = none

-- `parseId`: the whole text is one number.
unfoldable pub parse_id : Bytes → Option ℕ
unfolding accepted
parse_id s = accepted (from_chars s)

is_space : ℕ → Bool
is_space c = c == b' ' || leb 9 c && leb c 13

skip_spaces : Bytes → Bytes
skip_spaces [] = []
skip_spaces (c ∷ s) = if is_space c then skip_spaces s else c ∷ s

unsigned_value : FromChars → Option ℕ
unsigned_value (value n rest) = some n
unsigned_value invalid_argument = none
unsigned_value result_out_of_range = none

-- A minus sign negates modulo 2^64.
negated_value : FromChars → Option ℕ
negated_value (value n rest) = some ((u64_limit - n) % u64_limit)
negated_value invalid_argument = none
negated_value result_out_of_range = none

signed_value : Bytes → Option ℕ
signed_value [] = none
signed_value (c ∷ s) =
    if c == b'-'
    then negated_value (from_chars s)
    else if c == b'+'
    then unsigned_value (from_chars s)
    else unsigned_value (from_chars (c ∷ s))

-- std::stoull at base 10; `none` is a throw.
unfoldable pub stoull : Bytes → Option ℕ
unfolding skip_spaces is_space signed_value negated_value unsigned_value
stoull s = signed_value (skip_spaces s)

-- The digits of `n` before `acc`; the first argument bounds their number.
unfoldable pub print_digits : ℕ → ℕ → Bytes → Bytes
print_digits zero n acc = acc
print_digits (suc f) n acc =
    let digits : Bytes = (b'0' + n % 10) ∷ acc in
    let more : Bytes = print_digits f (n / 10) digits in if ltb n 10 then digits else more

-- std::to_string: a `uint64_t` has at most 20 digits.
unfoldable pub to_string : ℕ → Bytes
unfolding print_digits
to_string n = print_digits 20 n []
