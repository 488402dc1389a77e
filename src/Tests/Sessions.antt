-- ===== src/Tests/Sessions.antt =====
-- Ann's session token, from its check to its end.
use kingdom.Base.{
  ℕ, ◌+◌, ◌≡◌, refl, String, Bytes, codes, bytes_eq, find, find_from, if◌then◌else◌, take, drop,
  true, false, any, none, some, [], ◌∷◌, ◌++◌, arith, lookup, keep_if, strip_prefix,
}
use text.Mathlib.Text.{◌==◌ as str_eq}
use kingdom.Outcome.{ok}
use kingdom.Jwt.{Request, two_dots, bearer_token, sign_jwt_input, verified_jwt_payload}
use kingdom.Jwt.Soundness.{IsCurrent, verified_jwt_payload-ok}
use kingdom.Security.Blacklist.{revoke, is_revoked, expiry_from_token}
use kingdom.Security.Predicates.{is_public, validate_authenticated}
use kingdom.Security.Logout.{
  after_calls, revoke_call, check_call, is_revoked-revoke, validate_authenticated-revoke,
}
use kingdom.Security.Chain.{
  Predicate, sender_authenticity, untampered, authenticated, filter_chain, configured, execute,
}
use kingdom.Security.Gate.{HasSession}
use kingdom.Security.Admission.{execute-HasSession, filter_chain-configured}
use kingdom.Tests.Toy.{toy, ann_payload}

abbrev pub ann_token : Bytes
ann_token = codes "HEAD.BODY.SIGN"

abbrev with_token : Bytes → String → Bytes
with_token token name = if str_eq name "Authorization" then codes "Bearer " ++ token else []

-- Ann asks for the users.
abbrev pub ann_request : Request
ann_request = record {
  method = codes "GET";
  path = codes "/users";
  body = [];
  remote_addr = codes "10.0.0.1";
  header = with_token ann_token;
  matches = [];
}

verified : verified_jwt_payload toy ann_token (codes "key") 100 ≡ ok (some ann_payload)
unfolding verified_jwt_payload two_dots find find_from sign_jwt_input
    kingdom.Jwt.Base64.base64_url_encode bytes_eq kingdom.Jwt.Base64.drop_padding
    kingdom.Jwt.check_content kingdom.Jwt.Base64.base64_url_decode kingdom.Jwt.Base64.pad_to_block
verified = refl

verified_jwt_payload-ok_example :
    (first second : ℕ) × (two_dots ann_token ≡ some (first, second))
    × (sign_jwt_input toy (take second ann_token) (codes "key") ≡ ok (drop (second + 1) ann_token))
    × IsCurrent toy ann_token first second 100 ann_payload
verified_jwt_payload-ok_example =
    verified_jwt_payload-ok toy ann_token (codes "key") 100 ann_payload verified

known : expiry_from_token toy ann_token ≡ some 100
unfolding expiry_from_token kingdom.Security.Blacklist.payload_part find find_from
    kingdom.Jwt.Base64.base64_url_decode kingdom.Jwt.Base64.pad_to_block bytes_eq
known = refl

is_revoked-revoke_example :
    (is_revoked ann_token 99 (
      after_calls toy
        (check_call ann_token 60 ∷ revoke_call (codes "other") 70 ∷ [])
        (revoke toy ann_token 50 []))).0
    ≡ true
is_revoked-revoke_example =
    is_revoked-revoke toy ann_token 100 known 50 99
      (check_call ann_token 60 ∷ revoke_call (codes "other") 70 ∷ []) []
      (omega arith, (omega arith, tt)) (omega arith)

absent : lookup {V = ℕ} ann_token [] ≡ none
unfolding lookup
absent = refl

carried : bearer_token ann_request ≡ some ann_token
unfolding bearer_token strip_prefix
carried = refl

validate_authenticated-revoke_example :
    (validate_authenticated toy (some (codes "key")) 100 ann_request (revoke toy ann_token 50 [])).0
    ≡ ok none
validate_authenticated-revoke_example =
    validate_authenticated-revoke toy (codes "key") ann_request ann_token 100 50 [] ann_payload
      known absent carried verified

protected : is_public (codes "/users") ≡ false
unfolding is_public any bytes_eq kingdom.Security.Predicates.is_public_key_path strip_prefix
protected = refl

passed :
    (execute toy
      (some (codes "key"))
      100
      (sender_authenticity ∷ untampered ∷ authenticated ∷ [])
      ann_request
      []).0
    ≡ ok none
unfolding execute kingdom.Security.Chain.validate
    kingdom.Security.Predicates.validate_sender_authenticity bytes_eq
    kingdom.Security.Predicates.validate_untampered validate_authenticated is_public any
    kingdom.Security.Predicates.is_public_key_path strip_prefix is_revoked
    kingdom.Security.Blacklist.prune_expired lookup keep_if bearer_token
    kingdom.Security.Predicates.check_token kingdom.Security.Predicates.check_verified
    kingdom.Security.Predicates.check_revoked kingdom.Security.Chain.after_verdict
passed = rw verified refl

execute-HasSession_example : HasSession toy (codes "key") 100 ann_request []
execute-HasSession_example =
    execute-HasSession toy (codes "key") 100 ann_request []
      (sender_authenticity ∷ untampered ∷ authenticated ∷ []) filter_chain-configured protected
      passed
