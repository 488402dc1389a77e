-- ===== src/Jwt/Base64.antt =====
-- base64UrlEncode and base64UrlDecode of JwtUtils.hh, around OpenSSL's block functions.
use kingdom.Base.{
  ℕ, zero, suc, ◌+◌, ◌-◌, ◌%◌, Bytes, Bool, false, ◌&&◌, Option, none, some, [], ◌∷◌, ◌++◌, map,
  drop, take, length, ltb, ◌==◌, if◌then◌else◌,
}
use kingdom.Outcome.{Result, ok, err, runtime_error}

to_url : ℕ → ℕ
to_url c = if c == b'+' then b'-' else if c == b'/' then b'_' else c

from_url : ℕ → ℕ
from_url c = if c == b'-' then b'+' else if c == b'_' then b'/' else c

-- `while (!encoded.empty() && encoded.back() == '=') encoded.pop_back()`
unfoldable pub drop_padding : Bytes → Bytes
drop_padding [] = []
drop_padding (c ∷ s) =
    let rest = drop_padding s in
    elim rest [ [] ↦ if c == b'=' then [] else c ∷ [] | d ∷ t ↦ c ∷ d ∷ t ]

unfoldable pub base64_url_encode : (Bytes → Option Bytes) → Bytes → Result Bytes
unfolding to_url
base64_url_encode encode_block data_bytes = elim (encode_block data_bytes) [
  | none ↦ err (runtime_error "failed to base64url-encode JWT data")
  | some encoded ↦ ok (drop_padding (map to_url encoded))
]

-- `while (padded.size() % 4 != 0) padded.push_back('=')`; three rounds are enough for any length.
unfoldable pub pad_loop : ℕ → Bytes → Bytes
pad_loop zero padded = padded
pad_loop (suc f) padded =
    let more = pad_loop f (padded ++ b'=' ∷ []) in if length padded % 4 == 0 then padded else more

unfoldable pub pad_to_block : Bytes → Bytes
unfolding pad_loop
pad_to_block s = pad_loop 3 s

-- The byte at `size() - 1 - i` is '='; false where the text is shorter.
ends_in_padding : ℕ → Bytes → Bool
ends_in_padding i padded = elim (drop (length padded - 1 - i) padded) [
  | [] ↦ false
  | c ∷ s ↦ ltb i (length padded) && c == b'='
]

padding_size : Bytes → ℕ
unfolding ends_in_padding
padding_size padded =
    (if ends_in_padding 0 padded then 1 else 0) + (if ends_in_padding 1 padded then 1 else 0)

unfoldable pub base64_url_decode : (Bytes → Option Bytes) → Bytes → Option Bytes
unfolding from_url padding_size
base64_url_decode decode_block encoded =
    let padded : Bytes = pad_to_block (map from_url encoded) in
    elim (decode_block padded) [
      | none ↦ none
      | some decoded ↦
          if ltb (length decoded) (padding_size padded)
          then none
          else some (take (length decoded - padding_size padded) decoded)
    ]
