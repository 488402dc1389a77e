-- ===== src/Security/Chain.antt =====
-- SecurityPredicateFactory.cc and SecurityFilterChain.cc.
use text.Mathlib.Text.{◌==◌ as str_eq}
use kingdom.Base.{ℕ, String, Bytes, Option, none, some, List, [], ◌∷◌, if◌then◌else◌}
use kingdom.Outcome.{Result, ok, err, other_error}
use kingdom.Platform.{Platform}
use kingdom.Jwt.{Request}
use kingdom.Security.Blacklist.{Blacklist}
use kingdom.Security.Predicates.{
  Verdict, pass, validate_sender_authenticity, validate_untampered, validate_authenticated,
}

pub data Predicate : Type 0 where
  sender_authenticity untampered authenticated : Predicate

unfoldable pub get_predicate : String → Result Predicate
get_predicate name =
    if str_eq name "ValidateSenderAuthenticity"
    then ok sender_authenticity
    else if str_eq name "ValidateUntampered"
    then ok untampered
    else if str_eq name "ValidateAuthenticated"
    then ok authenticated
    else err other_error

push_predicate : Result Predicate → Result (List Predicate) → Result (List Predicate)
push_predicate (err e) rest = err e
push_predicate (ok p) (err e) = err e
push_predicate (ok p) (ok ps) = ok (p ∷ ps)

-- The constructor of SecurityFilterChain.
unfoldable pub filter_chain : List String → Result (List Predicate)
unfolding get_predicate push_predicate
filter_chain [] = ok []
filter_chain (name ∷ names) = push_predicate (get_predicate name) (filter_chain names)

-- The names that the constructor of Controller passes.
abbrev pub configured : List String
configured = "ValidateSenderAuthenticity" ∷ "ValidateUntampered" ∷ "ValidateAuthenticated" ∷ []

-- One round of the loop: an error ends it, and so does an exception.
unfoldable pub after_verdict : (Blacklist → Verdict) → Verdict → Verdict
after_verdict rest (err e, tokens) = (err e, tokens)
after_verdict rest (ok none, tokens) = rest tokens
after_verdict rest (ok (some error), tokens) = (ok (some error), tokens)

module _ (lib : Platform) (secret : Option Bytes) (now : ℕ) where
  unfoldable pub validate : Predicate → Request → Blacklist → Verdict
  validate sender_authenticity = validate_sender_authenticity lib secret now
  validate untampered = validate_untampered
  validate authenticated = validate_authenticated lib secret now

  unfoldable pub execute : List Predicate → Request → Blacklist → Verdict
  unfolding after_verdict
  execute [] req tokens = pass tokens
  execute (p ∷ ps) req tokens = after_verdict (execute ps req) (validate p req tokens)
