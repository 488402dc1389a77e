-- ===== src/Numerals/RoundTrip.antt =====
-- Printing and reading decimal numbers.
use mathlib.Core.List.{append-nil}
use native.Mathlib.Nat.{pow-suc}
use kingdom.Base.{
  is_empty, false, ℕ, zero, suc, ◌+◌, ◌*◌, ◌/◌, ◌%◌, ◌^◌, ◌<◌, Bytes, ◌≡◌, refl, ap, ◌∙◌, true,
  false, [], ◌∷◌, ◌++◌, arith, some, ltb, inl, inr, Bool-cases, All,
}
use kingdom.Numerals.{
  u64_limit, is_digit, scan_digits, value, from_chars, parse_id, print_digits, to_string,
  starts_with_digit,
}

-- A digit in front is read first.
scan_digit :
    (n d : ℕ) (s : Bytes) → d < 10 → scan_digits n ((48 + d) ∷ s) ≡ scan_digits (n * 10 + d) s
unfolding scan_digits is_digit
scan_digit n d s h = ground arith

digit_value : (n : ℕ) → ltb n 10 ≡ true → 0 * 10 + n % 10 ≡ n
digit_value n h = ground arith

quotient_bound : (n f : ℕ) → n < 10 ^ suc f → n / 10 < 10 ^ f
quotient_bound n f h = omega (arith, pow-suc 10 f)

scan_digits-print_digits :
    (f n : ℕ) (acc : Bytes) → n < 10 ^ f → scan_digits 0 (print_digits f n acc) ≡ scan_digits n acc
unfolding print_digits
scan_digits-print_digits zero n acc h =
    ap (λ k. scan_digits k acc) (let e : 0 ≡ n = omega arith in e)
scan_digits-print_digits (suc f) n acc h = elim (Bool-cases (ltb n 10)) [
  | inl small ↦
      rw small (
        scan_digit 0 (n % 10) acc (omega arith) ∙ ap (λ k. scan_digits k acc) (digit_value n small))
  | inr large ↦ rw large (
      scan_digits-print_digits f (n / 10) ((48 + n % 10) ∷ acc) (quotient_bound n f h)
      ∙ scan_digit (n / 10) (n % 10) acc (omega arith)
      ∙ ap (λ k. scan_digits k acc) (let e : n / 10 * 10 + n % 10 ≡ n = omega arith in e))
]

-- What follows a number's digits and is no digit.
abbrev pub Stops : Bytes → Type 0
Stops [] = Unit {0}
Stops (c ∷ s) = is_digit c ≡ false

scan_digits_stop : (n : ℕ) (s : Bytes) → Stops s → scan_digits n s ≡ (n, s)
unfolding scan_digits
scan_digits_stop n [] h = refl
scan_digits_stop n (c ∷ s) h = rw h

u64_digits : (n : ℕ) → n < u64_limit → n < 10 ^ 20
u64_digits n h = omega arith

print_digits-append :
    (f n : ℕ) (acc rest : Bytes) → print_digits f n acc ++ rest ≡ print_digits f n (acc ++ rest)
unfolding print_digits
print_digits-append zero n acc rest = refl
print_digits-append (suc f) n acc rest = elim (Bool-cases (ltb n 10)) [
  | inl small ↦ rw small
  | inr large ↦ rw large (print_digits-append f (n / 10) ((48 + n % 10) ∷ acc) rest)
]

print_digits_starts :
    (f n : ℕ) (acc : Bytes) → starts_with_digit (print_digits (suc f) n acc) ≡ true
unfolding print_digits starts_with_digit is_digit
print_digits_starts zero n acc = ground arith
print_digits_starts (suc f) n acc = elim (Bool-cases (ltb n 10)) [
  | inl small ↦ rw small (ground arith)
  | inr large ↦ rw large (print_digits_starts f (n / 10) ((48 + n % 10) ∷ acc))
]

-- A printed `uint64_t` is read back from in front of any text that begins with no digit.
pub from_chars-to_string :
    (n : ℕ) (rest : Bytes)
    → n < u64_limit
    → Stops rest
    → from_chars (to_string n ++ rest) ≡ value n rest
unfolding from_chars to_string
from_chars-to_string n rest h stop =
    rw (print_digits-append 20 n [] rest, print_digits_starts 19 n rest)
      (rw (scan_digits-print_digits 20 n rest (u64_digits n h), scan_digits_stop n rest stop)
        (ground arith))

pub from_chars-to_string_whole : (n : ℕ) → n < u64_limit → from_chars (to_string n) ≡ value n []
from_chars-to_string_whole n h = rw append-nil at (from_chars-to_string n [] h tt)

nonempty : (s t : Bytes) → starts_with_digit s ≡ true → is_empty (s ++ t) ≡ false
unfolding starts_with_digit
nonempty [] t h = cc
nonempty (c ∷ s) t h = refl

pub is_empty-to_string : (n : ℕ) (t : Bytes) → is_empty (to_string n ++ t) ≡ false
unfolding to_string
is_empty-to_string n t = nonempty (print_digits 20 n []) t (print_digits_starts 19 n [])

-- `parseId` reads back what `std::to_string` prints, for every `uint64_t`.
pub parse_id-to_string : (n : ℕ) → n < u64_limit → parse_id (to_string n) ≡ some n
unfolding parse_id
parse_id-to_string n h = rw (from_chars-to_string_whole n h) refl

print_digits_digits :
    (f n : ℕ) (acc : Bytes)
    → All (λ c. is_digit c ≡ true) acc
    → All (λ c. is_digit c ≡ true) (print_digits f n acc)
unfolding print_digits is_digit
print_digits_digits zero n acc h = h
print_digits_digits (suc f) n acc h =
    let one : is_digit (48 + n % 10) ≡ true = ground arith in
    elim (Bool-cases (ltb n 10)) [
      | inl small ↦ rw small (one, h)
      | inr large ↦ rw large (print_digits_digits f (n / 10) ((48 + n % 10) ∷ acc) (one, h))
    ]

pub to_string_digits : (n : ℕ) → All (λ c. is_digit c ≡ true) (to_string n)
unfolding to_string
to_string_digits n = print_digits_digits 20 n [] tt
