-- ===== src/Numerals/Decimal.antt =====
-- `parseId` accepts decimal numbers below 2^64 and nothing else.
use native.Mathlib.Nat.{pow-suc, add-mul, mul_assoc, add_assoc, zero-mul}
use kingdom.Base.{
  ℕ, suc, ◌+◌, ◌-◌, ◌*◌, ◌^◌, ◌<◌, ◌≤◌, ◌≡◌, ◌↔◌, refl, ap, ◌∙◌, Bytes, Bool-cases, inl, inr, true,
  false, [], ◌∷◌, length, is_empty, All, arith, some,
}
use kingdom.Numerals.{
  u64_limit, is_digit, scan_digits, accepted, within, from_chars, parse_id, starts_with_digit,
}

-- The number that digits stand for, each with the power of ten of its place.
unfoldable pub decimal : Bytes → ℕ
decimal [] = 0
decimal (c ∷ s) = (c - 48) * 10 ^ length s + decimal s

-- A text of digits, at least one, for a number below 2^64.
abbrev pub IsNumber : Bytes → ℕ → Type 0
IsNumber s n =
    (is_empty s ≡ false)
    × All (λ c. (48 ≤ c) × (c ≤ 57)) s
    × (decimal s ≡ n)
    × (n < 18_446_744_073_709_551_616)

place : (n d p q : ℕ) → q ≡ p * 10 → (n * 10 + d) * p ≡ n * q + d * p
place n d p q h = rw h (ground (arith, add-mul (n * 10) d p, mul_assoc n 10 p))

scan_digits-decimal :
    (n : ℕ) (s : Bytes)
    → All (λ c. (48 ≤ c) × (c ≤ 57)) s
    → scan_digits n s ≡ (n * 10 ^ length s + decimal s, [])
unfolding scan_digits is_digit decimal
scan_digits-decimal n [] h = ground arith
scan_digits-decimal n (c ∷ s) h =
    let digit : is_digit c ≡ true = ground (arith, h.0) in
    rw digit (
      scan_digits-decimal (n * 10 + (c - 48)) s h.1
      ∙ ap (λ k. (k, []))
          (ap (λ k. k + decimal s)
              (place n (c - 48) (10 ^ length s) (10 ^ suc (length s)) (pow-suc 10 (length s)))
            ∙ add_assoc (n * 10 ^ suc (length s)) ((c - 48) * 10 ^ length s) (decimal s)))

scan_digits-All :
    (n m : ℕ) (s : Bytes) → scan_digits n s ≡ (m, []) → All (λ c. (48 ≤ c) × (c ≤ 57)) s
unfolding scan_digits is_digit
scan_digits-All n m [] h = tt
scan_digits-All n m (c ∷ s) h = elim (Bool-cases (is_digit c)) [
  | inl digit ↦ (ground arith, scan_digits-All (n * 10 + (c - 48)) m s (rw digit at h))
  | inr other ↦ ground arith
]

-- What was scanned is accepted.
whole : (p : ℕ × Bytes) (n : ℕ) → accepted (within p) ≡ some n → (p ≡ (n, [])) × (n < u64_limit)
unfolding within accepted
whole (m, []) n h = ground arith
whole (m, c ∷ rest) n h = ground arith

digit_first :
    (s : Bytes) → is_empty s ≡ false → All (λ c. (48 ≤ c) × (c ≤ 57)) s → starts_with_digit s ≡ true
unfolding starts_with_digit is_digit
digit_first [] e h = cc
digit_first (c ∷ s) e h = ground (arith, h.0)

starts_with_digit-nonempty : (s : Bytes) → starts_with_digit s ≡ true → is_empty s ≡ false
unfolding starts_with_digit
starts_with_digit-nonempty [] h = cc
starts_with_digit-nonempty (c ∷ s) h = refl

scanned-IsNumber :
    (s : Bytes) (n : ℕ)
    → starts_with_digit s ≡ true
    → scan_digits 0 s ≡ (n, [])
    → n < u64_limit
    → IsNumber s n
scanned-IsNumber s n first h small =
    let digits = scan_digits-All 0 n s h in
    (
      starts_with_digit-nonempty s first,
      digits,
      ground (
        arith,
        ap (λ (p : ℕ × Bytes). p.0) (scan_digits-decimal 0 s digits),
        ap (λ (p : ℕ × Bytes). p.0) h,
        zero-mul (10 ^ length s),
      ),
      small,
    )

parse_id-IsNumber : (s : Bytes) (n : ℕ) → parse_id s ≡ some n → IsNumber s n
unfolding parse_id from_chars
parse_id-IsNumber s n h = elim (Bool-cases (starts_with_digit s)) [
  | inl first ↦
      let (scanned, small) = whole (scan_digits 0 s) n (rw first at h) in
      scanned-IsNumber s n first scanned small
  | inr other ↦ ground (arith, rw other at h)
]

IsNumber-parse_id : (s : Bytes) (n : ℕ) → IsNumber s n → parse_id s ≡ some n
unfolding parse_id from_chars within
IsNumber-parse_id s n (filled, digits, stands, small) =
    rw (digit_first s filled digits, scan_digits-decimal 0 s digits) (ground arith)

-- `parseId` returns a number exactly for a text that is not empty, has digits only and stands for that
-- number in decimal, if the number is below 2^64. It returns nothing for any other text.
pub parse_id_iff : (s : Bytes) (n : ℕ) → (parse_id s ≡ some n) ↔ IsNumber s n
parse_id_iff s n = (parse_id-IsNumber s n, IsNumber-parse_id s n)
