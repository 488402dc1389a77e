-- ===== src/Security/Predicates.antt =====
-- The subclasses of SecurityPredicate in SecurityPredicates.hh, and SecurityError.hh.
use kingdom.Base.{
  ℕ, String, Bytes, codes, bytes_eq, strip_prefix, Bool, true, false, not, ◌&&◌, ◌||◌, Option, none,
  some, List, [], ◌∷◌, any, is_empty, is_some, ◌==◌, if◌then◌else◌,
}
use kingdom.Outcome.{Result, ok, err}
use kingdom.Numerals.{is_digit, stoull}
use kingdom.Platform.{Platform}
use kingdom.Jwt.{Request, bearer_token, verified_jwt_payload}
use kingdom.Security.Blacklist.{Blacklist, is_revoked}

pub record SecurityError : Type 0 where
  pub message : String
  pub http_status_code : ℕ

abbrev pub forbidden : ℕ
forbidden = 403

abbrev pub bad_request : ℕ
bad_request = 400

abbrev pub unauthorized : ℕ
unauthorized = 401

abbrev pub internal_server_error : ℕ
internal_server_error = 500

-- What a call of `Validate` returns or throws, with the revocation list that it leaves.
abbrev pub Verdict : Type 0
Verdict = Result (Option SecurityError) × Blacklist

abbrev pub pass : Blacklist → Verdict
pass tokens = (ok none, tokens)

abbrev reject : String → ℕ → Blacklist → Verdict
reject message code tokens =
    (ok (some (record { message = message; http_status_code = code })), tokens)

-- A digit or more, then exactly `/public-key`.
digits_then_suffix : Bytes → Bool
digits_then_suffix [] = false
digits_then_suffix (c ∷ s) =
    is_digit c && (bytes_eq s (codes "/public-key") || digits_then_suffix s)

-- std::regex_match with ^/users/[0-9]+/public-key$
unfoldable pub is_public_key_path : Bytes → Bool
unfolding digits_then_suffix
is_public_key_path path = elim (strip_prefix (codes "/users/") path) [
  | none ↦ false
  | some rest ↦ digits_then_suffix rest
]

abbrev pub public_paths : List Bytes
public_paths = codes "/login" ∷ codes "/signup" ∷ codes "/health" ∷ codes "/" ∷ codes "/api" ∷ []

-- The routes that need no session.
unfoldable pub is_public : Bytes → Bool
is_public path = any (λ (p : Bytes). bytes_eq path p) public_paths || is_public_key_path path

-- `contentType.find(needle) != npos`
unfoldable pub contains_text : Bytes → Bytes → Bool
contains_text needle [] = is_empty needle
contains_text needle (c ∷ s) = is_some (strip_prefix needle (c ∷ s)) || contains_text needle s

-- ValidateUntampered
unfoldable pub validate_untampered : Request → Blacklist → Verdict
validate_untampered req tokens =
    if not (bytes_eq req.method (codes "POST")) && not (bytes_eq req.method (codes "PUT"))
    then pass tokens
    else let content_type : Bytes = req.header "Content-Type" in
      if is_empty content_type || not (contains_text (codes "application/json") content_type)
      then reject "Content-Type must be application/json" bad_request tokens
      else pass tokens

module _ (lib : Platform) (secret : Option Bytes) (now : ℕ) where
  open lib use {Json, parse, contains, index, get_string, get_uint64}

  -- The `try` block; a throw in it passes.
  unfoldable pub compare_sender : Option ℕ → Option ℕ → Blacklist → Verdict
  compare_sender (some user) (some sender) tokens =
      if user == sender
      then pass tokens
      else reject "sender ID does not match authenticated user" forbidden tokens
  compare_sender user sender tokens = pass tokens

  unfoldable pub subject : Json → Option ℕ
  subject payload = elim (get_string (index payload "sub")) [ none ↦ none | some sub ↦ stoull sub ]

  unfoldable pub check_sender : Json → Result (Option Json) → Blacklist → Verdict
  unfolding compare_sender
  check_sender body (err e) tokens = (err e, tokens)
  check_sender body (ok none) tokens = pass tokens
  check_sender body (ok (some payload)) tokens =
      compare_sender (subject payload) (get_uint64 (index body "senderId")) tokens

  unfoldable pub check_sender_token : Json → Option Bytes → Option Bytes → Blacklist → Verdict
  unfolding check_sender
  check_sender_token body (some token) (some key) tokens =
      check_sender body (verified_jwt_payload lib token key now) tokens
  check_sender_token body token key tokens = pass tokens

  -- ValidateSenderAuthenticity
  unfoldable pub validate_sender_authenticity : Request → Blacklist → Verdict
  unfolding check_sender_token
  validate_sender_authenticity req tokens =
      if not (bytes_eq req.method (codes "POST")) then pass tokens else elim (parse req.body) [
        | none ↦ pass tokens
        | some body ↦
            if not (contains body "senderId")
            then pass tokens
            else check_sender_token body (bearer_token req) secret tokens
      ]

  unfoldable pub check_revoked : Bool × Blacklist → Verdict
  check_revoked (true, tokens) = reject "session has been revoked" unauthorized tokens
  check_revoked (false, tokens) = pass tokens

  unfoldable pub check_verified : Bytes → Result (Option Json) → Blacklist → Verdict
  unfolding check_revoked
  check_verified token (err e) tokens = (err e, tokens)
  check_verified token (ok none) tokens =
      reject "invalid or expired session token" unauthorized tokens
  check_verified token (ok (some payload)) tokens = check_revoked (is_revoked token now tokens)

  unfoldable pub check_token : Option Bytes → Option Bytes → Blacklist → Verdict
  unfolding check_verified
  check_token none key tokens = reject "authentication required" unauthorized tokens
  check_token (some token) none tokens =
      reject "server misconfiguration: JWT secret not set" internal_server_error tokens
  check_token (some token) (some key) tokens =
      check_verified token (verified_jwt_payload lib token key now) tokens

  -- ValidateAuthenticated
  unfoldable pub validate_authenticated : Request → Blacklist → Verdict
  unfolding check_token
  validate_authenticated req tokens =
      if is_public req.path then pass tokens else check_token (bearer_token req) secret tokens
