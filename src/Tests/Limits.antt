-- ===== src/Tests/Limits.antt =====
-- The rate limit, the checks of texts and the texts of numbers on concrete inputs.
use kingdom.Base.{
  ◌≡◌, ◌≢◌, ◌↔◌, ◌≤◌, refl, Bytes, codes, bytes_eq, length, any, leb, false, ◌&&◌, none, some, [],
  ◌∷◌, arith, All, lookup,
}
use kingdom.Numerals.{parse_id, is_digit}
use kingdom.Numerals.Decimal.{IsNumber, parse_id_iff}
use kingdom.Database.ArrayText.{parse_array, render, parse_array-render}
use kingdom.Controller.RateLimit.{RateMap, is_rate_limited}
use kingdom.Controller.RateLimit.Renewal.{IsMap, left_of, lookup-is_rate_limited}
use kingdom.Controller.RateLimit.Window.{answers, limited_after, entry_at, answers-limited_after}
use kingdom.Controller.Validation.{
  is_upper, min_password_len, max_password_len, is_valid_signup_password, sanitise_for_log,
}
use kingdom.Controller.Validation.Passwords.{
  is_valid_signup_password-any, sanitise_for_log-printable,
}

abbrev ip : Bytes
ip = codes "10.0.0.1"

abbrev other : Bytes
other = codes "10.0.0.2"

abbrev open_window : RateMap
open_window = (ip, entry_at 90_000_000_000 1) ∷ []

found : lookup ip open_window ≡ some (entry_at 90_000_000_000 1)
unfolding lookup bytes_eq
found = refl

-- The second request of the window passes, the third is limited.
answers-limited_after_example :
    answers 2 ip (95_000_000_000 ∷ 99_000_000_000 ∷ []) open_window
    ≡ limited_after 2 1 (95_000_000_000 ∷ 99_000_000_000 ∷ [])
answers-limited_after_example =
    answers-limited_after 2 90_000_000_000 ip (95_000_000_000 ∷ 99_000_000_000 ∷ []) 1 open_window
      ((omega arith, omega arith), ((omega arith, omega arith), tt)) found

different : bytes_eq other ip ≡ false
unfolding bytes_eq
different = refl

one_each : IsMap open_window
unfolding lookup
one_each = (refl, tt)

lookup-is_rate_limited_example :
    lookup ip (is_rate_limited 2 400_000_000_000 other open_window).1
    ≡ left_of 400_000_000_000 (lookup ip open_window)
lookup-is_rate_limited_example =
    lookup-is_rate_limited 2 400_000_000_000 other ip open_window one_each different

-- It is dropped.
dropped : left_of 400_000_000_000 (lookup ip open_window) ≡ none
unfolding lookup bytes_eq
dropped = refl

is_valid_signup_password-any_example : is_valid_signup_password (codes "Correct4horse") ≡ (
    (leb min_password_len (length (codes "Correct4horse"))
      && leb (length (codes "Correct4horse")) max_password_len)
    && (any is_upper (codes "Correct4horse") && any is_digit (codes "Correct4horse")))
is_valid_signup_password-any_example = is_valid_signup_password-any (codes "Correct4horse")

sanitise_for_log-printable_example :
    (length (sanitise_for_log (10 ∷ 65 ∷ [])) ≡ 2)
    × All (λ c. (0x20 ≤ c) × (c ≢ 0x7F)) (sanitise_for_log (10 ∷ 65 ∷ []))
sanitise_for_log-printable_example = sanitise_for_log-printable (10 ∷ 65 ∷ [])

parse_id_iff_example : (parse_id (codes "0907") ≡ some 907) ↔ IsNumber (codes "0907") 907
parse_id_iff_example = parse_id_iff (codes "0907") 907

parse_array-render_example : parse_array (render (1 ∷ 20 ∷ [])) ≡ 1 ∷ 20 ∷ []
parse_array-render_example = parse_array-render (1 ∷ 20 ∷ []) (omega arith, (omega arith, tt))
