-- ===== src/Security/Admission.antt =====
-- What the configured filter chain lets through to the routes.
use kingdom.Base.{
  ℕ, ◌≡◌, ◌⊎◌, refl, subst, ap, sym, Bytes, true, false, none, some, inl, inr, List, [], ◌∷◌, arith,
}
use kingdom.Outcome.{ok, err}
use kingdom.Platform.{Platform}
use kingdom.Jwt.{Request}
use kingdom.Security.Blacklist.{Blacklist}
use kingdom.Security.Predicates.{Verdict, pass, is_public, validate_authenticated}
use kingdom.Security.Gate.{
  HasSession, Settled, is_refusal, validate_authenticated-ok, validate_authenticated-Settled,
  validate_untampered-Settled, validate_sender_authenticity-Settled,
}
use kingdom.Security.Chain.{
  Predicate, sender_authenticity, untampered, authenticated, filter_chain, configured,
  after_verdict, validate, execute,
}

-- What the constructor of Controller builds: the three predicates in their order.
pub filter_chain-configured :
    filter_chain configured ≡ ok (sender_authenticity ∷ untampered ∷ authenticated ∷ [])
unfolding filter_chain
filter_chain-configured = refl

module _ (lib : Platform) (secret : Bytes) (now : ℕ) (req : Request) (tokens : Blacklist) where
  abbrev run_chain : List Predicate → Verdict
  run_chain ps = execute lib (some secret) now ps req tokens

  after_verdict-next :
      (rest : Blacklist → Verdict) (v : Verdict)
      → Settled v.0 × (v.1 ≡ tokens)
      → (is_refusal (after_verdict rest v).0 ≡ true) ⊎ (after_verdict rest v ≡ rest tokens)
  unfolding after_verdict is_refusal
  after_verdict-next rest (err e, after) h = inl refl
  after_verdict-next rest (ok none, after) (_, same) = inr (ap rest same)
  after_verdict-next rest (ok (some error), after) (settled, same) = inl (ground arith)

  after_verdict-pass : (v : Verdict) → (after_verdict pass v).0 ≡ v.0
  unfolding after_verdict
  after_verdict-pass (err e, after) = refl
  after_verdict-pass (ok none, after) = refl
  after_verdict-pass (ok (some error), after) = refl

  execute-next :
      (p : Predicate) (ps : List Predicate)
      → Settled (validate lib (some secret) now p req tokens).0
        × ((validate lib (some secret) now p req tokens).1 ≡ tokens)
      → (is_refusal (run_chain (p ∷ ps)).0 ≡ true) ⊎ (run_chain (p ∷ ps) ≡ run_chain ps)
  unfolding execute
  execute-next p ps h =
      after_verdict-next (execute lib (some secret) now ps req)
        (validate lib (some secret) now p req tokens) h

  execute-last :
      (p : Predicate) → (run_chain (p ∷ [])).0 ≡ (validate lib (some secret) now p req tokens).0
  unfolding execute
  execute-last p = after_verdict-pass (validate lib (some secret) now p req tokens)

  sender_authenticity-Settled :
      Settled (validate lib (some secret) now sender_authenticity req tokens).0
      × ((validate lib (some secret) now sender_authenticity req tokens).1 ≡ tokens)
  unfolding validate
  sender_authenticity-Settled = validate_sender_authenticity-Settled lib secret now req tokens

  untampered-Settled :
      Settled (validate lib (some secret) now untampered req tokens).0
      × ((validate lib (some secret) now untampered req tokens).1 ≡ tokens)
  unfolding validate
  untampered-Settled = validate_untampered-Settled lib secret now req tokens

  abbrev three : List Predicate
  three = sender_authenticity ∷ untampered ∷ authenticated ∷ []

  run_three :
      (is_refusal (run_chain three).0 ≡ true)
      ⊎ ((run_chain three).0 ≡ (validate lib (some secret) now authenticated req tokens).0)
  run_three = ground (
    arith,
    execute-next sender_authenticity (untampered ∷ authenticated ∷ []) sender_authenticity-Settled,
    execute-next untampered (authenticated ∷ []) untampered-Settled,
    execute-last authenticated,
  )

  three-only : (ps : List Predicate) → filter_chain configured ≡ ok ps → ps ≡ three
  three-only ps built = ground (arith, built, filter_chain-configured)

  three-ok :
      (run_chain three).0 ≡ ok none
      → (validate_authenticated lib (some secret) now req tokens).0 ≡ ok none
  unfolding validate is_refusal
  three-ok h = ground (arith, run_three, h)

  three-Settled : Settled (run_chain three).0
  unfolding validate
  three-Settled =
      ground (arith, run_three, validate_authenticated-Settled lib secret now req tokens)

  module _ (ps : List Predicate) (built : filter_chain configured ≡ ok ps) where
    -- The chain that the controller configures lets a request for a path that is not public pass
    -- only with a token that is signed, current and not revoked.
    pub execute-HasSession :
        is_public req.path ≡ false
        → (run_chain ps).0 ≡ ok none
        → HasSession lib secret now req tokens
    execute-HasSession protected passed =
        validate_authenticated-ok lib secret now req tokens protected
          (three-ok (rw (three-only ps built) at passed))

    -- It passes a request, refuses it with 400, 401, 403 or 500, or throws.
    pub execute-Settled : Settled (run_chain ps).0
    execute-Settled =
        subst (λ (qs : List Predicate). Settled (run_chain qs).0) (sym (three-only ps built))
          three-Settled
