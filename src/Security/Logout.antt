-- ===== src/Security/Logout.antt =====
-- What a logout achieves: how long a revoked token is kept from passing.
use kingdom.Base.{
  refl, inl, inr, Bool-cases, ℕ, ◌≡◌, ◌<◌, ◌≤◌, Bytes, bytes_eq_iff, bytes_eq_refl, Bool, true, not,
  none, some, List, [], ◌∷◌, All, arith, lookup, insert, lookup-insert, keep_if, value_or, leb,
}
use kingdom.Outcome.{ok}
use kingdom.Platform.{Platform}
use kingdom.Jwt.{Request, bearer_token, verified_jwt_payload}
use kingdom.Security.Blacklist.{Blacklist, prune_expired, expiry_from_token, revoke, is_revoked}
use kingdom.Security.Predicates.{is_public, validate_authenticated}

-- A call on the list, at a time.
pub data Call : Type 0 where
  revoke_call check_call : Bytes → ℕ → Call

abbrev pub call_time : Call → ℕ
call_time (revoke_call token now) = now
call_time (check_call token now) = now

unfoldable pub after_call : Platform → Call → Blacklist → Blacklist
after_call lib (revoke_call token now) tokens = revoke lib token now tokens
after_call lib (check_call token now) tokens = (is_revoked token now tokens).1

unfoldable pub after_calls : Platform → List Call → Blacklist → Blacklist
unfolding after_call
after_calls lib [] tokens = tokens
after_calls lib (c ∷ cs) tokens = after_calls lib cs (after_call lib c tokens)

lookup-prune_expired :
    (token : Bytes) (exp now : ℕ) (tokens : Blacklist)
    → now < exp
    → lookup token tokens ≡ some exp
    → lookup token (prune_expired now tokens) ≡ some exp
unfolding lookup prune_expired keep_if
lookup-prune_expired token exp now [] h e = ground arith
lookup-prune_expired token exp now (entry ∷ tokens) h e =
    ground (arith, lookup-prune_expired token exp now tokens h)

module _ (lib : Platform) (token : Bytes) (exp : ℕ)
    (known : expiry_from_token lib token ≡ some exp) where
  lookup-revoke_same :
      (now : ℕ) (tokens : Blacklist) → lookup token (revoke lib token now tokens) ≡ some exp
  unfolding revoke
  lookup-revoke_same now tokens = ground (
    arith,
    lookup-insert token token (value_or (expiry_from_token lib token) now)
        (prune_expired now tokens),
    bytes_eq_refl token,
    known,
  )

  lookup-after_call :
      (c : Call) (tokens : Blacklist)
      → call_time c < exp
      → lookup token tokens ≡ some exp
      → lookup token (after_call lib c tokens) ≡ some exp
  unfolding after_call revoke is_revoked
  lookup-after_call (revoke_call t now) tokens h e = ground (
    arith,
    lookup-insert t token (value_or (expiry_from_token lib t) now) (prune_expired now tokens),
    lookup-prune_expired token exp now tokens h e,
    bytes_eq_iff t token,
    known,
  )
  lookup-after_call (check_call t now) tokens h e = lookup-prune_expired token exp now tokens h e

  lookup-after_calls :
      (cs : List Call) (tokens : Blacklist)
      → All (λ c. call_time c < exp) cs
      → lookup token tokens ≡ some exp
      → lookup token (after_calls lib cs tokens) ≡ some exp
  unfolding after_calls
  lookup-after_calls [] tokens h e = e
  lookup-after_calls (c ∷ cs) tokens h e =
      lookup-after_calls cs (after_call lib c tokens) h.1 (lookup-after_call c tokens h.0 e)

  -- A token that was revoked is found revoked until the second of its expiry, whatever calls of
  -- `revoke` and `isRevoked` with earlier clocks come in between.
  pub is_revoked-revoke :
      (revoked_at now : ℕ) (between : List Call) (tokens : Blacklist)
      → All (λ c. call_time c < exp) between
      → now < exp
      → (is_revoked token now (after_calls lib between (revoke lib token revoked_at tokens))).0
        ≡ true
  unfolding is_revoked
  is_revoked-revoke revoked_at now between tokens h below = ground (
    arith,
    lookup-prune_expired token exp now _ below (
        lookup-after_calls between (revoke lib token revoked_at tokens) h
          (lookup-revoke_same revoked_at tokens)),
  )

lookup-keep_if-none :
    (token : Bytes) (p : Bytes × ℕ → Bool) (tokens : Blacklist)
    → lookup token tokens ≡ none
    → lookup token (keep_if p tokens) ≡ none
unfolding lookup keep_if
lookup-keep_if-none token p [] h = refl
lookup-keep_if-none token p (e ∷ tokens) h = ground (arith, lookup-keep_if-none token p tokens)

lookup-prune_inserted :
    (token : Bytes) (exp now : ℕ) (tokens : Blacklist)
    → exp ≤ now
    → lookup token tokens ≡ none
    → lookup token (prune_expired now (insert token exp tokens)) ≡ none
unfolding lookup prune_expired keep_if insert
lookup-prune_inserted token exp now [] h e = ground arith
lookup-prune_inserted token exp now (entry ∷ tokens) h e = ground (
  arith,
  lookup-prune_inserted token exp now tokens h,
  lookup-keep_if-none token (λ (x : Bytes × ℕ). not (leb x.1 now)) tokens,
)

revoke-gone :
    (lib : Platform) (token : Bytes) (exp revoked_at : ℕ) (tokens : Blacklist)
    → expiry_from_token lib token ≡ some exp
    → lookup token tokens ≡ none
    → lookup token (prune_expired exp (revoke lib token revoked_at tokens)) ≡ none
unfolding revoke prune_expired
revoke-gone lib token exp revoked_at tokens known absent = rw known (
    lookup-prune_inserted token exp exp (prune_expired revoked_at tokens) (omega arith)
      (lookup-keep_if-none token (λ (x : Bytes × ℕ). not (leb x.1 revoked_at)) tokens absent))

module _ (lib : Platform) (secret : Bytes) (req : Request) (token : Bytes) (exp : ℕ) where
  -- A token with the expiry `exp` that was not on the list is revoked. At the second `exp` it is no
  -- longer on the list: a request with it passes ValidateAuthenticated again if `verifiedJwtPayload`
  -- takes the token at that second.
  pub validate_authenticated-revoke :
      (revoked_at : ℕ) (tokens : Blacklist) (payload : lib.Json)
      → expiry_from_token lib token ≡ some exp
      → lookup token tokens ≡ none
      → bearer_token req ≡ some token
      → verified_jwt_payload lib token secret exp ≡ ok (some payload)
      → (validate_authenticated lib (some secret) exp req (revoke lib token revoked_at tokens)).0
        ≡ ok none
  unfolding validate_authenticated is_revoked
  validate_authenticated-revoke revoked_at tokens payload known absent bearer verified =
      elim (Bool-cases (is_public req.path)) [
        | inl e ↦ rw e refl
        | inr e ↦
            rw (e, bearer, verified, revoke-gone lib token exp revoked_at tokens known absent) refl
      ]
