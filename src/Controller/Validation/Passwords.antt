-- ===== src/Controller/Validation/Passwords.antt =====
-- Which passwords a signup takes, and what the log shows of a text.
use kingdom.Base.{
  ◌≡◌, ◌≢◌, ◌≤◌, Bytes, Bool, false, ◌&&◌, ◌||◌, [], ◌∷◌, length, any, leb, All, arith,
}
use kingdom.Numerals.{is_digit}
use kingdom.Controller.Validation.{
  min_password_len, max_password_len, is_upper, scan_password, is_valid_signup_password,
  sanitise_for_log,
}

scan_password-any :
    (u d : Bool) (s : Bytes) → scan_password u d s ≡ ((u || any is_upper s), (d || any is_digit s))
unfolding scan_password any
scan_password-any u d [] = ground arith
scan_password-any u d (c ∷ s) =
    ground (arith, scan_password-any (u || is_upper c) (d || is_digit c) s)

-- A password is taken exactly if it has 12 to 72 bytes, an uppercase letter and a digit.
pub is_valid_signup_password-any :
    (s : Bytes)
    → is_valid_signup_password s ≡ (
        (leb min_password_len (length s) && leb (length s) max_password_len)
        && (any is_upper s && any is_digit s))
unfolding is_valid_signup_password
is_valid_signup_password-any s = ground (arith, scan_password-any false false s)

-- What is logged has the length of the text, and no byte below 0x20 and no 0x7F.
pub sanitise_for_log-printable :
    (s : Bytes)
    → (length (sanitise_for_log s) ≡ length s)
      × All (λ c. (0x20 ≤ c) × (c ≢ 0x7F)) (sanitise_for_log s)
unfolding sanitise_for_log
sanitise_for_log-printable [] = ground arith
sanitise_for_log-printable (c ∷ s) = ground (arith, sanitise_for_log-printable s)
