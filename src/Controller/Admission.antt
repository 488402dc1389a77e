-- ===== src/Controller/Admission.antt =====
-- A request without a session reaches no handler of a protected route.
use kingdom.Base.{ℕ, ◌≡◌, refl, Bytes, Bool, true, false, Option, none, some, inl, inr, List, arith}
use kingdom.Outcome.{ok, err}
use kingdom.Platform.{Platform}
use kingdom.Jwt.{Request, bearer_token}
use kingdom.Security.Predicates.{Verdict, is_public}
use kingdom.Security.Gate.{HasSession, Settled, is_refusal, is_refusal_code}
use kingdom.Security.Chain.{Predicate, filter_chain, configured, execute}
use kingdom.Security.Admission.{execute-HasSession, execute-Settled}
use kingdom.Server.{Config, World, Server, Response, Flow, next, done, threw, state}
use kingdom.Controller.Routes.{after_chain, with_error_page, serve, before_body}

unfoldable pub is_refused_status : Option ℕ → Bool
is_refused_status none = false
is_refused_status (some code) = is_refusal_code code

-- Answered with 400, 401, 403 or 500, or thrown.
unfoldable pub is_refused : Flow Response → Bool
unfolding is_refused_status
is_refused (next res s) = false
is_refused (done res s) = is_refused_status res.status
is_refused (threw e s) = true

module _ (lib : Platform) (version : Bytes) (config : Config) (world : World) (req : Request)
    (s : Server) where
  after_chain-refused :
      (v : Verdict)
      → is_refusal v.0 ≡ true
      → (is_refused (after_chain lib version config world req v s) ≡ true)
        × ((state (after_chain lib version config world req v s)).db ≡ s.db)
        × ((state (after_chain lib version config world req v s)).rate_limit_map ≡ s.rate_limit_map)
  unfolding after_chain is_refused is_refusal
  after_chain-refused (err e, after) h = ground arith
  after_chain-refused (ok none, after) h = ground arith
  after_chain-refused (ok (some error), after) h = (h, refl, refl)

  -- The error handler changes neither the status nor the state.
  with_error_page-refused :
      (answer : Flow Response)
      → (is_refused answer ≡ true)
        × ((state answer).db ≡ s.db)
        × ((state answer).rate_limit_map ≡ s.rate_limit_map)
      → (is_refused (with_error_page lib version config world answer) ≡ true)
        × ((state (with_error_page lib version config world answer)).db ≡ s.db)
        × ((state (with_error_page lib version config world answer)).rate_limit_map
            ≡ s.rate_limit_map)
  unfolding with_error_page is_refused
  with_error_page-refused (next res t) h = h
  with_error_page-refused (done res t) h = h
  with_error_page-refused (threw e t) h = h

  -- A session does not depend on the body.
  HasSession-body :
      HasSession lib config.jwt_secret world.epoch_seconds (before_body req) s.blacklist
      → HasSession lib config.jwt_secret world.epoch_seconds req s.blacklist
  unfolding bearer_token
  HasSession-body h = record {
    token = h.token;
    payload = h.payload;
    carried = h.carried;
    verified = h.verified;
    not_revoked = h.not_revoked;
  }

  -- With the predicates that the controller configures, a request for a path that is not public and
  -- without a token that is signed, current and not revoked is refused (400, 401, 403, 500 or a
  -- throw), and neither the database nor the rate limits change.
  pub serve-refused :
      (ps : List Predicate)
      → filter_chain configured ≡ ok ps
      → is_public req.path ≡ false
      → (HasSession lib config.jwt_secret world.epoch_seconds req s.blacklist → ⊥)
      → (is_refused (serve lib version config world ps req s) ≡ true)
        × ((state (serve lib version config world ps req s)).db ≡ s.db)
        × ((state (serve lib version config world ps req s)).rate_limit_map ≡ s.rate_limit_map)
  unfolding serve
  serve-refused ps built protected stranger = with_error_page-refused _ (
      after_chain-refused
        (execute lib (some config.jwt_secret) world.epoch_seconds ps (before_body req) s.blacklist)
        (refused (
          execute-Settled lib config.jwt_secret world.epoch_seconds (before_body req) s.blacklist ps
            built)))
    where
      refused :
          Settled
            (execute lib
              (some config.jwt_secret)
              world.epoch_seconds
              ps
              (before_body req)
              s.blacklist).0
          → is_refusal
              (execute lib
                (some config.jwt_secret)
                world.epoch_seconds
                ps
                (before_body req)
                s.blacklist).0
            ≡ true
      refused (inl passes) =
          elim (stranger (
            HasSession-body (
              execute-HasSession lib config.jwt_secret world.epoch_seconds (before_body req)
                s.blacklist ps built protected passes))) [ ]
      refused (inr h) = h
