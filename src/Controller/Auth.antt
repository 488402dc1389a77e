-- ===== src/Controller/Auth.antt =====
-- handleSignup_, handleLogin_ and handleLogout_: Controller.cc lines 237-366, and the password
-- functions of libkd/src/User.cc.
use kingdom.Base.{
  ℕ, String, Bytes, Bool, true, not, ◌&&◌, Option, none, some, List, [], ◌∷◌, if◌then◌else◌,
}
use kingdom.Outcome.{Result, ok, err, runtime_error, other_error}
use kingdom.Platform.{Platform}
use kingdom.Database.Users.{User, create_user, get_user_by_username}
use kingdom.Jwt.{Request, bearer_token}
use kingdom.Security.Blacklist.{revoke}
use kingdom.Server.{
  Config, World, Response, next, Action, Handler, ◌>>=◌, ◌>>◌, or_throw, or_answer, answer_if,
  answer, from_result, query, run_txn, error_response, conflict_or_throw,
}
use kingdom.Controller.RateLimit.{is_rate_limited}
use kingdom.Controller.Validation.{
  is_valid_signup_password, is_bad_length, max_username_len, max_password_len, max_public_key_len,
}
use kingdom.Controller.Session.{create_session}

-- `if (isRateLimited_(req.remote_addr))`
unfoldable pub rate_limit : Config → World → Request → Action Bool
rate_limit config world req s =
    let verdict =
      is_rate_limited config.rate_limit_max_requests world.steady_nanos req.remote_addr
        s.rate_limit_map in
    next verdict.0 (record s { rate_limit_map = verdict.1 })

module _ (lib : Platform) where
  open lib use {
    Json, parse, dump, contains, index, get_string, object, string, unsigned, pwhash, pwhash_verify,
    literal,
  }

  -- `json::parse` with the test that the value is there and has the fields.
  has_fields : List String → Json → Bool
  has_fields [] body = true
  has_fields (field ∷ fields) body = contains body field && has_fields fields body

  unfoldable pub parse_with : List String → Bytes → Option Json
  unfolding has_fields
  parse_with fields text = elim (parse text) [
    | none ↦ none
    | some body ↦ if has_fields fields body then some body else none
  ]

  -- `std::string value = body[field]`
  abbrev pub text_field : Json → String → Action Bytes
  text_field body field = or_throw other_error (get_string (index body field))

  -- User::hashPassword
  unfoldable pub hash_password : Bytes → Bytes → Result Bytes
  hash_password salt password = elim (pwhash salt password) [
    | none ↦ err (runtime_error "Failed to hash password")
    | some hash ↦ ok hash
  ]

  -- User::verifyPassword
  unfoldable pub verify_password : User → Bytes → Bool
  verify_password user password = pwhash_verify user.password_hash password

  abbrev pub signup_response : ℕ → Bytes → Bytes → Bytes → Response
  signup_response user_id username public_key token = record {
    status = some 201;
    content = dump (
        object (
          ("id", unsigned user_id)
          ∷ ("username", string username)
          ∷ ("publicKey", string public_key)
          ∷ ("token", string token)
          ∷ ("sessionToken", string token)
          ∷ []));
  }

  -- The `try` block of handleSignup_.
  unfoldable pub register : Config → World → Bytes → Bytes → Bytes → Handler
  unfolding hash_password
  register config world username password public_key = do
    password_hash ← from_result (hash_password world.salt password)
    user_id ← run_txn (create_user username password_hash public_key)
    token ← from_result (create_session lib config user_id username world.epoch_seconds)
    answer (signup_response user_id username public_key token)

  unfoldable pub handle_signup : Config → World → Request → Handler
  handle_signup config world req = do
    limited ← rate_limit config world req
    answer_if limited (error_response lib 429 "too many requests")
    body ←
        or_answer (error_response lib 400 "username, password, and publicKey required")
          (parse_with ("username" ∷ "password" ∷ "publicKey" ∷ []) req.body)
    username ← text_field body "username"
    password ← text_field body "password"
    public_key ← text_field body "publicKey"
    answer_if (is_bad_length max_username_len username)
        (error_response lib 400 "username must be 1–64 characters")
    answer_if (not (is_valid_signup_password password)) (
        error_response lib 400
          "password must be 12–72 characters and include at least one uppercase letter and one number")
    answer_if (is_bad_length max_public_key_len public_key)
        (error_response lib 400 "publicKey must be 1–8192 characters")
    conflict_or_throw lib (register config world username password public_key)

  -- `!user.has_value() || !user->verifyPassword(password)`
  unfoldable pub check_password : Option User → Bytes → Option User
  unfolding verify_password
  check_password none password = none
  check_password (some user) password = if verify_password user password then some user else none

  abbrev pub login_response : User → Bytes → Response
  login_response user token = record {
    status = none;
    content = dump (
        object (
          ("id", unsigned user.id)
          ∷ ("username", string user.username)
          ∷ ("token", string token)
          ∷ ("sessionToken", string token)
          ∷ []));
  }

  unfoldable pub handle_login : Config → World → Request → Handler
  handle_login config world req = do
    limited ← rate_limit config world req
    answer_if limited (error_response lib 429 "too many requests")
    body ←
        or_answer (error_response lib 400 "username and password required")
          (parse_with ("username" ∷ "password" ∷ []) req.body)
    username ← text_field body "username"
    password ← text_field body "password"
    answer_if (is_bad_length max_username_len username)
        (error_response lib 400 "username must be 1–64 characters")
    answer_if (is_bad_length max_password_len password)
        (error_response lib 400 "password must be 1–72 characters")
    found ← query (get_user_by_username username)
    user ←
        or_answer (error_response lib 401 "invalid username or password")
          (check_password found password)
    token ← from_result (create_session lib config user.id user.username world.epoch_seconds)
    answer (login_response user token)

  unfoldable pub revoke_token : World → Option Bytes → Action (Unit {0})
  revoke_token world none s = next tt s
  revoke_token world (some token) s =
      next tt (record s { blacklist = revoke lib token world.epoch_seconds s.blacklist })

  unfoldable pub handle_logout : World → Request → Handler
  handle_logout world req = do
    revoke_token world (bearer_token req)
    answer (record {
      status = none;
      content = dump (
          object (
            ("status", string (literal "success"))
            ∷ ("message", string (literal "Logged out"))
            ∷ []));
    })
