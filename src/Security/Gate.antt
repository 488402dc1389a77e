-- ===== src/Security/Gate.antt =====
-- What a request shows that the configured filter chain lets pass.
use kingdom.Base.{
  ℕ, ◌≡◌, ◌⊎◌, refl, Bytes, Bool, Bool-cases, Option-cases, true, false, ◌||◌, Option, none, some,
  inl, inr, arith, ◌==◌,
}
use kingdom.Outcome.{Result, ok, err}
use kingdom.Platform.{Platform}
use kingdom.Jwt.{Request, bearer_token, verified_jwt_payload}
use kingdom.Security.Blacklist.{Blacklist, is_revoked}
use kingdom.Security.Predicates.{
  SecurityError, is_public, check_sender, compare_sender, check_sender_token, check_revoked,
  check_verified, check_token, validate_sender_authenticity, validate_untampered,
  validate_authenticated,
}

-- The request carries a token that `verifiedJwtPayload` accepts and that is not revoked.
pub record HasSession (lib : Platform) (secret : Bytes) (now : ℕ) (req : Request)
    (tokens : Blacklist) : Type 0 where
  pub token : Bytes
  pub payload : lib.Json
  pub carried : bearer_token req ≡ some token
  pub verified : verified_jwt_payload lib token secret now ≡ ok (some payload)
  pub not_revoked : (is_revoked token now tokens).0 ≡ false

-- The codes with which a predicate refuses.
unfoldable pub is_refusal_code : ℕ → Bool
is_refusal_code code = code == 400 || code == 401 || code == 403 || code == 500

unfoldable pub is_refusal : Result (Option SecurityError) → Bool
unfolding is_refusal_code
is_refusal (err e) = true
is_refusal (ok none) = false
is_refusal (ok (some error)) = is_refusal_code error.http_status_code

-- Passes, or refuses with a code of the list.
abbrev pub Settled : Result (Option SecurityError) → Type 0
Settled r = (r ≡ ok none) ⊎ (is_refusal r ≡ true)

module _ (lib : Platform) (secret : Bytes) (now : ℕ) (req : Request) (tokens : Blacklist) where
  pub validate_untampered-Settled :
      Settled (validate_untampered req tokens).0 × ((validate_untampered req tokens).1 ≡ tokens)
  unfolding validate_untampered is_refusal is_refusal_code
  validate_untampered-Settled = ground arith

  check_sender-Settled :
      (body : lib.Json) (r : Result (Option lib.Json))
      → Settled (check_sender lib (some secret) now body r tokens).0
        × ((check_sender lib (some secret) now body r tokens).1 ≡ tokens)
  unfolding check_sender is_refusal is_refusal_code compare_sender
  check_sender-Settled body (err e) = ground arith
  check_sender-Settled body (ok none) = ground arith
  check_sender-Settled body (ok (some payload)) = ground arith

  check_sender_token-Settled :
      (body : lib.Json) (t : Option Bytes)
      → Settled (check_sender_token lib (some secret) now body t (some secret) tokens).0
        × ((check_sender_token lib (some secret) now body t (some secret) tokens).1 ≡ tokens)
  unfolding check_sender_token is_refusal
  check_sender_token-Settled body none = ground arith
  check_sender_token-Settled body (some t) = check_sender-Settled body _

  pub validate_sender_authenticity-Settled :
      Settled (validate_sender_authenticity lib (some secret) now req tokens).0
      × ((validate_sender_authenticity lib (some secret) now req tokens).1 ≡ tokens)
  unfolding validate_sender_authenticity is_refusal
  validate_sender_authenticity-Settled = elim (Option-cases (lib.parse req.body)) [
    | inl e ↦ rw e (ground arith)
    | inr (body, e) ↦ rw e (ground (arith, check_sender_token-Settled body (bearer_token req)))
  ]

  -- On a path that is not public, ValidateAuthenticated passes only a session.
  check_verified-ok :
      (token : Bytes) (r : Result (Option lib.Json))
      → (check_verified lib (some secret) now token r tokens).0 ≡ ok none
      → (payload : lib.Json) × (r ≡ ok (some payload)) × ((is_revoked token now tokens).0 ≡ false)
  unfolding check_verified check_revoked
  check_verified-ok token (err e) h = ground arith
  check_verified-ok token (ok none) h = ground arith
  check_verified-ok token (ok (some payload)) h = (payload, refl, ground arith)

  check_verified-Settled :
      (token : Bytes) (r : Result (Option lib.Json))
      → Settled (check_verified lib (some secret) now token r tokens).0
  unfolding check_verified check_revoked is_refusal is_refusal_code
  check_verified-Settled token (err e) = ground arith
  check_verified-Settled token (ok none) = ground arith
  check_verified-Settled token (ok (some payload)) = ground arith

  check_token-ok :
      (t : Option Bytes)
      → bearer_token req ≡ t
      → (check_token lib (some secret) now t (some secret) tokens).0 ≡ ok none
      → HasSession lib secret now req tokens
  unfolding check_token
  check_token-ok none e h = ground arith
  check_token-ok (some token) e h =
      let (payload, verified, live) = check_verified-ok token _ h in
      record {
        token = token;
        payload = payload;
        carried = e;
        verified = verified;
        not_revoked = live;
      }

  check_token-Settled :
      (t : Option Bytes) → Settled (check_token lib (some secret) now t (some secret) tokens).0
  unfolding check_token is_refusal is_refusal_code
  check_token-Settled none = ground arith
  check_token-Settled (some token) = check_verified-Settled token _

  pub validate_authenticated-ok :
      is_public req.path ≡ false
      → (validate_authenticated lib (some secret) now req tokens).0 ≡ ok none
      → HasSession lib secret now req tokens
  unfolding validate_authenticated
  validate_authenticated-ok protected h =
      check_token-ok (bearer_token req) refl (rw (protected, validate_authenticated) at h)

  pub validate_authenticated-Settled :
      Settled (validate_authenticated lib (some secret) now req tokens).0
  unfolding validate_authenticated is_refusal
  validate_authenticated-Settled = elim (Bool-cases (is_public req.path)) [
    | inl e ↦ rw e (inl refl)
    | inr e ↦ rw e (check_token-Settled (bearer_token req))
  ]
