-- ===== src/Controller/Session.antt =====
-- createSession_ and authenticatedUserId_: Controller.cc lines 169-197.
use kingdom.Base.{ℕ, ◌+◌, ◌%◌, Bytes, codes, Option, none, some, [], ◌∷◌, ◌++◌}
use kingdom.Outcome.{Result, ok, err}
use kingdom.Numerals.{to_string, stoull, u64_limit}
use kingdom.Platform.{Platform}
use kingdom.Jwt.{Request, bearer_token, sign_jwt_input, verified_jwt_payload}
use kingdom.Jwt.Base64.{base64_url_encode}
use kingdom.Server.{Config}

module _ (lib : Platform) where
  open lib use {Json, dump, object, string, unsigned, index, get_string, encode_block}

  abbrev pub session_header : Json
  session_header = object (("alg", string (codes "HS256")) ∷ ("typ", string (codes "JWT")) ∷ [])

  -- The sum of two `uint64_t` wraps.
  abbrev pub session_payload : Config → ℕ → Bytes → ℕ → Json
  session_payload config user_id username issued_at = object (
      ("sub", string (to_string user_id))
      ∷ ("username", string username)
      ∷ ("iat", unsigned issued_at)
      ∷ ("exp", unsigned ((issued_at + config.jwt_ttl_seconds) % u64_limit))
      ∷ [])

  append_signature : Bytes → Result Bytes → Result Bytes
  append_signature input (err e) = err e
  append_signature input (ok signature) = ok (input ++ b'.' ∷ signature)

  sign_parts : Bytes → Result Bytes → Result Bytes → Result Bytes
  unfolding append_signature
  sign_parts secret (err e) payload = err e
  sign_parts secret (ok header) (err e) = err e
  sign_parts secret (ok header) (ok payload) =
      let input : Bytes = header ++ b'.' ∷ payload in
      append_signature input (sign_jwt_input lib input secret)

  unfoldable pub create_session : Config → ℕ → Bytes → ℕ → Result Bytes
  unfolding sign_parts
  create_session config user_id username issued_at =
      sign_parts config.jwt_secret (base64_url_encode encode_block (dump session_header))
        (base64_url_encode encode_block (dump (session_payload config user_id username issued_at)))

  -- The `try` block: no throw leaves it.
  unfoldable pub session_subject : Json → Option ℕ
  session_subject payload = elim (get_string (index payload "sub")) [
    | none ↦ none
    | some sub ↦ stoull sub
  ]

  token_user : Result (Option Json) → Result (Option ℕ)
  unfolding session_subject
  token_user (err e) = err e
  token_user (ok none) = ok none
  token_user (ok (some payload)) = ok (session_subject payload)

  unfoldable pub authenticated_user_id : Config → ℕ → Request → Result (Option ℕ)
  unfolding token_user
  authenticated_user_id config now req = elim (bearer_token req) [
    | none ↦ ok none
    | some token ↦ token_user (verified_jwt_payload lib token config.jwt_secret now)
  ]
