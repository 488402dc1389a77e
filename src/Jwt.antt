-- ===== src/Jwt.antt =====
-- kds/src/security/JwtUtils.hh: base64url, signatures and the check of a session token.
pub mod Base64
pub mod Soundness
use kingdom.Base.{
  ℕ, suc, ◌+◌, ◌-◌, ◌%◌, String, Bytes, codes, bytes_eq, find, find_from, substr, strip_prefix,
  Bool, true, false, not, ◌&&◌, ◌||◌, Option, none, some, List, [], ◌∷◌, ◌++◌, map, drop, take,
  length, is_empty, is_some, ltb, leb, ◌==◌, if◌then◌else◌,
}
use kingdom.Platform.{Platform}
use kingdom.Outcome.{Result, ok, err, Exn, runtime_error, other_error}
use Base64.{base64_url_encode, base64_url_decode}

-- `httplib::Request`, as far as the code reads it. `header` is `get_header_value`, with an empty
-- text for a header that is not there; `matches` are the groups of the route's pattern.
pub record Request : Type 0 where
  pub method : Bytes
  pub path : Bytes
  pub body : Bytes
  pub remote_addr : Bytes
  pub header : String → Bytes
  pub matches : List Bytes

-- `req.matches[i].str()`, empty for a group that is not there.
unfoldable pub group : Request → ℕ → Bytes
group req i = elim (drop i req.matches) [ [] ↦ [] | m ∷ ms ↦ m ]

abbrev pub bearer_prefix : Bytes
bearer_prefix = codes "Bearer "

unfoldable pub bearer_token : Request → Option Bytes
bearer_token req =
    let header : Bytes = req.header "Authorization" in
    if leb (length header) (length bearer_prefix)
      || not (is_some (strip_prefix bearer_prefix header))
    then none
    else some (drop (length bearer_prefix) header)

-- The positions of the dots of a token that has exactly two.
unfoldable pub two_dots : Bytes → Option (ℕ × ℕ)
two_dots token = elim (find b'.' token) [
  | none ↦ none
  | some first ↦ elim (find_from b'.' token (first + 1)) [
    | none ↦ none
    | some second ↦
        if is_some (find_from b'.' token (second + 1)) then none else some (first, second)
  ]
]

module _ (lib : Platform) where
  open lib use {
    Json, parse, dump, contains, index, get_string, get_uint64, value_string, object, string,
    unsigned, hmac_sha256, encode_block, decode_block,
  }

  unfoldable pub sign_jwt_input : Bytes → Bytes → Result Bytes
  sign_jwt_input input secret = elim (hmac_sha256 secret input) [
    | none ↦ err (runtime_error "failed to sign JWT")
    | some digest ↦ base64_url_encode encode_block digest
  ]

  -- `payload.contains("exp")` and its value against the clock.
  unfoldable pub check_expiry : Json → ℕ → Result (Option Json)
  check_expiry payload now =
      if contains payload "exp"
      then elim (get_uint64 (index payload "exp")) [
        | none ↦ err other_error
        | some exp ↦ if ltb exp now then ok none else ok (some payload)
      ]
      else ok none

  unfoldable pub check_algorithm : Json → Json → ℕ → Result (Option Json)
  unfolding check_expiry
  check_algorithm header payload now = elim (value_string header "alg") [
    | none ↦ err other_error
    | some alg ↦ if bytes_eq alg (codes "HS256") then check_expiry payload now else ok none
  ]

  unfoldable pub check_parsed : Option Json → Option Json → ℕ → Result (Option Json)
  unfolding check_algorithm
  check_parsed none payload now = ok none
  check_parsed (some header) none now = ok none
  check_parsed (some header) (some payload) now = check_algorithm header payload now

  unfoldable pub check_bodies : Option Bytes → Option Bytes → ℕ → Result (Option Json)
  unfolding check_parsed
  check_bodies none payload_body now = ok none
  check_bodies (some header_body) none now = ok none
  check_bodies (some header_body) (some payload_body) now =
      check_parsed (parse header_body) (parse payload_body) now

  -- What `verifiedJwtPayload` does behind the signature.
  unfoldable pub check_content : Bytes → ℕ → ℕ → ℕ → Result (Option Json)
  unfolding check_bodies
  check_content token first second now =
      check_bodies (base64_url_decode decode_block (take first token))
        (base64_url_decode decode_block (substr token (first + 1) (second - first - 1))) now

  -- The comparison with the signature that the server computes.
  unfoldable pub check_signature : Bytes → ℕ → ℕ → ℕ → Result Bytes → Result (Option Json)
  check_signature token first second now (err e) = err e
  check_signature token first second now (ok expected) =
      if bytes_eq (drop (second + 1) token) expected
      then check_content token first second now
      else ok none

  unfoldable pub verified_jwt_payload : Bytes → Bytes → ℕ → Result (Option Json)
  unfolding check_signature
  verified_jwt_payload token secret now = elim (two_dots token) [
    | none ↦ ok none
    | some (first, second) ↦
        check_signature token first second now (sign_jwt_input (take second token) secret)
  ]
