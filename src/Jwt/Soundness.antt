-- ===== src/Jwt/Soundness.antt =====
-- What a token shows that `verifiedJwtPayload` accepts.
use kingdom.Base.{
  ℕ, ◌+◌, ◌-◌, ◌≡◌, ◌≤◌, refl, ◌∙◌, ap, subst, Bytes, bytes_eq_iff, codes, Option-cases, Option,
  none, some, inl, inr, take, drop, substr, arith,
}
use kingdom.Outcome.{Result, ok, err}
use kingdom.Platform.{Platform}
use kingdom.Jwt.{
  check_expiry, check_algorithm, check_parsed, check_bodies, check_signature, two_dots,
  sign_jwt_input, check_content, verified_jwt_payload,
}
use kingdom.Jwt.Base64.{base64_url_decode}

-- The facts that make a token's payload a session: the two parts decode to JSON, the header names
-- HS256, and the expiry has not passed.
pub record IsCurrent (lib : Platform) (token : Bytes) (first second now : ℕ) (payload : lib.Json)
    : Type 0 where
  pub header_body : Bytes
  pub payload_body : Bytes
  pub header : lib.Json
  pub exp : ℕ
  pub header_decoded : base64_url_decode lib.decode_block (take first token) ≡ some header_body
  pub payload_decoded :
      base64_url_decode lib.decode_block (substr token (first + 1) (second - first - 1))
      ≡ some payload_body
  pub header_parsed : lib.parse header_body ≡ some header
  pub payload_parsed : lib.parse payload_body ≡ some payload
  pub algorithm : lib.value_string header "alg" ≡ some (codes "HS256")
  pub expiry : lib.get_uint64 (lib.index payload "exp") ≡ some exp
  pub not_passed : now ≤ exp

module _ (lib : Platform) where
  open lib use {Json, parse, contains, index, get_uint64, value_string, decode_block}

  check_expiry-ok :
      (p payload : Json) (now : ℕ)
      → check_expiry lib p now ≡ ok (some payload)
      → (p ≡ payload) × (exp : ℕ) × (get_uint64 (index p "exp") ≡ some exp) × (now ≤ exp)
  unfolding check_expiry
  check_expiry-ok p payload now h = ground arith

  check_algorithm-ok :
      (header p payload : Json) (now : ℕ)
      → check_algorithm lib header p now ≡ ok (some payload)
      → (value_string header "alg" ≡ some (codes "HS256"))
        × (check_expiry lib p now ≡ ok (some payload))
  unfolding check_algorithm
  check_algorithm-ok header p payload now h = elim (Option-cases (value_string header "alg")) [
    | inl e ↦ ground arith
    | inr (a, e) ↦ ground (arith, bytes_eq_iff a (codes "HS256"))
  ]

  check_parsed-ok :
      (h p : Option Json) (payload : Json) (now : ℕ)
      → check_parsed lib h p now ≡ ok (some payload)
      → (header : Json) × (h ≡ some header)
        × (q : Json) × (p ≡ some q)
        × (check_algorithm lib header q now ≡ ok (some payload))
  unfolding check_parsed
  check_parsed-ok none p payload now h = ground arith
  check_parsed-ok (some header) none payload now h = ground arith
  check_parsed-ok (some header) (some q) payload now h = (header, refl, q, refl, h)

  check_bodies-ok :
      (h p : Option Bytes) (payload : Json) (now : ℕ)
      → check_bodies lib h p now ≡ ok (some payload)
      → (header_body : Bytes) × (h ≡ some header_body)
        × (payload_body : Bytes) × (p ≡ some payload_body)
        × (check_parsed lib (parse header_body) (parse payload_body) now ≡ ok (some payload))
  unfolding check_bodies
  check_bodies-ok none p payload now h = ground arith
  check_bodies-ok (some header_body) none payload now h = ground arith
  check_bodies-ok (some header_body) (some payload_body) payload now h =
      (header_body, refl, payload_body, refl, h)

  check_content-ok :
      (token : Bytes) (first second now : ℕ) (payload : Json)
      → check_content lib token first second now ≡ ok (some payload)
      → IsCurrent lib token first second now payload
  unfolding check_content
  check_content-ok token first second now payload h =
      let (header_body, eh, payload_body, ep, parsed) = check_bodies-ok _ _ payload now h in
      let (header, ph, q, pq, checked) =
        check_parsed-ok (parse header_body) (parse payload_body) payload now parsed in
      let (alg, expiring) = check_algorithm-ok header q payload now checked in
      let (same, exp, ee, current) = check_expiry-ok q payload now expiring in
      record {
        header_body = header_body;
        payload_body = payload_body;
        header = header;
        exp = exp;
        header_decoded = eh;
        payload_decoded = ep;
        header_parsed = ph;
        payload_parsed = pq ∙ ap some same;
        algorithm = alg;
        expiry = subst (λ (j : Json). get_uint64 (index j "exp") ≡ some exp) same ee;
        not_passed = current;
      }

  check_signature-ok :
      (token : Bytes) (first second now : ℕ) (r : Result Bytes) (payload : Json)
      → check_signature lib token first second now r ≡ ok (some payload)
      → (r ≡ ok (drop (second + 1) token))
        × (check_content lib token first second now ≡ ok (some payload))
  unfolding check_signature
  check_signature-ok token first second now (err e) payload h = ground arith
  check_signature-ok token first second now (ok expected) payload h =
      ground (arith, bytes_eq_iff (drop (second + 1) token) expected)

  -- What `verifiedJwtPayload` accepts has exactly two dots, ends in the signature of the text before
  -- the second one under the server's secret, and is current.
  pub verified_jwt_payload-ok :
      (token secret : Bytes) (now : ℕ) (payload : Json)
      → verified_jwt_payload lib token secret now ≡ ok (some payload)
      → (first second : ℕ) × (two_dots token ≡ some (first, second))
        × (sign_jwt_input lib (take second token) secret ≡ ok (drop (second + 1) token))
        × IsCurrent lib token first second now payload
  unfolding verified_jwt_payload
  verified_jwt_payload-ok token secret now payload h = elim (Option-cases (two_dots token)) [
    | inl e ↦ ground arith
    | inr ((first, second), e) ↦
        let (signed, content) =
          check_signature-ok token first second now (sign_jwt_input lib (take second token) secret)
            payload (rw (e, verified_jwt_payload) at h) in
        (first, second, e, signed, check_content-ok token first second now payload content)
  ]
