-- ===== src/Controller/Validation.antt =====
-- isValidSignupPassword, sanitiseForLog and the length limits of Constants.hh.
pub mod Passwords
use kingdom.Base.{
  ℕ, Bytes, Bool, true, false, List, [], ◌∷◌, length, is_empty, map, any, leb, ltb, ◌==◌, ◌&&◌,
  ◌||◌, if◌then◌else◌,
}
use kingdom.Numerals.{is_digit}

abbrev pub min_password_len : ℕ
min_password_len = 12

abbrev pub max_password_len : ℕ
max_password_len = 72

abbrev pub max_username_len : ℕ
max_username_len = 64

abbrev pub max_conversation_name_len : ℕ
max_conversation_name_len = 128

abbrev pub max_conversation_participants : ℕ
max_conversation_participants = 50

abbrev pub max_payload_len : ℕ
max_payload_len = 65536

abbrev pub max_public_key_len : ℕ
max_public_key_len = 8192

-- std::isupper in the "C" locale.
unfoldable pub is_upper : ℕ → Bool
is_upper c = leb b'A' c && leb c b'Z'

-- The loop over the password with its two flags.
unfoldable pub scan_password : Bool → Bool → Bytes → Bool × Bool
scan_password has_uppercase has_number [] = (has_uppercase, has_number)
scan_password has_uppercase has_number (chr ∷ rest) =
    scan_password (has_uppercase || is_upper chr) (has_number || is_digit chr) rest

unfoldable pub is_valid_signup_password : Bytes → Bool
unfolding scan_password
is_valid_signup_password password =
    if ltb (length password) min_password_len || ltb max_password_len (length password)
    then false
    else let (has_uppercase, has_number) = scan_password false false password in
      has_uppercase && has_number

unfoldable pub sanitise_for_log : Bytes → Bytes
sanitise_for_log value =
    map
      (λ (chr : ℕ).
        if chr == 10 || chr == 13 || chr == 9 || ltb chr 0x20 || chr == 0x7F then b' ' else chr)
      value

-- `text.empty() || text.size() > limit`
abbrev pub is_bad_length : ℕ → Bytes → Bool
is_bad_length limit text = is_empty text || ltb limit (length text)
