-- ===== src/Security/Blacklist.antt =====
-- TokenBlacklist of SecurityPredicates.hh. `now` is the value of `epochSeconds()` in the call.
use kingdom.Base.{
  ℕ, ◌+◌, ◌-◌, Bytes, find, find_from, substr, Bool, not, Option, none, some, List, keep_if, lookup,
  insert, is_some, value_or, leb, if◌then◌else◌,
}
use kingdom.Platform.{Platform}
use kingdom.Jwt.Base64.{base64_url_decode}

-- `tokens_`: each revoked token with its expiry.
abbrev pub Blacklist : Type 0
Blacklist = List (Bytes × ℕ)

abbrev is_kept : ℕ → Bytes × ℕ → Bool
is_kept now entry = not (leb entry.1 now)

unfoldable pub prune_expired : ℕ → Blacklist → Blacklist
prune_expired now tokens = keep_if (is_kept now) tokens

-- The payload's place in a token: behind the first dot, up to the second.
unfoldable pub payload_part : Bytes → Option Bytes
payload_part token = elim (find b'.' token) [
  | none ↦ none
  | some first ↦ elim (find_from b'.' token (first + 1)) [
    | none ↦ none
    | some second ↦ some (substr token (first + 1) (second - first - 1))
  ]
]

module _ (lib : Platform) where
  open lib use {Json, parse, contains, index, is_number_unsigned, get_uint64, decode_block}

  unfoldable pub expiry_of_payload : Option Json → Option ℕ
  expiry_of_payload none = none
  expiry_of_payload (some payload) =
      if contains payload "exp"
      then if is_number_unsigned (index payload "exp")
        then get_uint64 (index payload "exp")
        else none
      else none

  expiry_of_body : Option Bytes → Option ℕ
  unfolding expiry_of_payload
  expiry_of_body none = none
  expiry_of_body (some body) = expiry_of_payload (parse body)

  expiry_of_part : Option Bytes → Option ℕ
  unfolding expiry_of_body
  expiry_of_part none = none
  expiry_of_part (some part) = expiry_of_body (base64_url_decode decode_block part)

  unfoldable pub expiry_from_token : Bytes → Option ℕ
  unfolding expiry_of_part
  expiry_from_token token = expiry_of_part (payload_part token)

  unfoldable pub revoke : Bytes → ℕ → Blacklist → Blacklist
  revoke token now tokens =
      insert token (value_or (expiry_from_token token) now) (prune_expired now tokens)

-- The answer, and the list that the call leaves behind.
unfoldable pub is_revoked : Bytes → ℕ → Blacklist → Bool × Blacklist
is_revoked token now tokens =
    let kept : Blacklist = prune_expired now tokens in (is_some (lookup token kept), kept)
