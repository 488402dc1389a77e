-- ===== src/Server/Ends.antt =====
-- What holds of the state in which a handler ends: one step of a block at a time, with what the step
-- has found out for the ones behind it.
use kingdom.Base.{◌≡◌, refl, subst, sym, ap, ◌∙◌, Bool, true, false, Option, none, some}
use kingdom.Outcome.{Exn, Result, ok, err}
use kingdom.Database.{Db}
use kingdom.Server.{
  Server, Response, Flow, Action, next, done, threw, bind, state, ◌>>=◌, or_throw, or_answer,
  answer_if, from_result, query, update_db,
}

module _ (P : Server → Type 0) {B : Type 0} (s : Server) (holds : P s) where
  pub or_answer-ends :
      {A : Type 0} (res : Response) (found : Option A) (f : A → Action B)
      → ((a : A) → found ≡ some a → P (state (f a s)))
      → P (state ((or_answer res found >>= f) s))
  unfolding ◌>>=◌ or_answer
  or_answer-ends res none f k = holds
  or_answer-ends res (some a) f k = k a refl

  pub or_throw-ends :
      {A : Type 0} (e : Exn) (found : Option A) (f : A → Action B)
      → ((a : A) → found ≡ some a → P (state (f a s)))
      → P (state ((or_throw e found >>= f) s))
  unfolding ◌>>=◌ or_throw
  or_throw-ends e none f k = holds
  or_throw-ends e (some a) f k = k a refl

  pub from_result-ends :
      {A : Type 0} (r : Result A) (f : A → Action B)
      → ((a : A) → r ≡ ok a → P (state (f a s)))
      → P (state ((from_result r >>= f) s))
  unfolding ◌>>=◌ from_result
  from_result-ends (ok a) f k = k a refl
  from_result-ends (err e) f k = holds

  pub answer_if-ends :
      (test : Bool) (res : Response) (f : Unit {0} → Action B)
      → (test ≡ false → P (state (f tt s)))
      → P (state ((answer_if test res >>= f) s))
  unfolding ◌>>=◌ answer_if
  answer_if-ends true res f k = holds
  answer_if-ends false res f k = k refl

module _ (P : Server → Type 0) {B : Type 0} (s : Server) where
  pub query-ends :
      {A : Type 0} (q : Db → A) (f : A → Action B)
      → P (state (f (q s.db) s))
      → P (state ((query q >>= f) s))
  unfolding ◌>>=◌ query
  query-ends q f h = h

  pub update_db-ends :
      {A : Type 0} (u : Db → A × Db) (f : A → Action B)
      → P (state (f (u s.db).0 (record s { db = (u s.db).1 })))
      → P (state ((update_db u >>= f) s))
  unfolding ◌>>=◌ update_db
  update_db-ends u f h = h

module _ {A B : Type 0} (P : Server → Type 0) (f : A → Action B) where
  flow-ends :
      (flow : Flow A)
      → P (state flow)
      → ((a : A) (s' : Server) → flow ≡ next a s' → P (state (f a s')))
      → P (state (bind flow f))
  flow-ends (next a s') h k = k a s' refl
  flow-ends (done res s') h k = h
  flow-ends (threw e s') h k = h

  -- Any step: it ends the block, or hands its value and its state on.
  pub step-ends :
      (m : Action A) (s : Server)
      → P (state (m s))
      → ((a : A) (s' : Server) → m s ≡ next a s' → P (state (f a s')))
      → P (state ((m >>= f) s))
  unfolding ◌>>=◌
  step-ends m s h k = flow-ends (m s) h k

  -- A step that leaves the state alone.
  pub read-ends :
      (m : Action A) (s : Server)
      → state (m s) ≡ s
      → P s
      → ((a : A) → P (state (f a s)))
      → P (state ((m >>= f) s))
  read-ends m s same holds k =
      step-ends m s (subst P (sym same) holds)
        (λ a s' e. subst (λ (t : Server). P (state (f a t))) (sym same ∙ ap state e) (k a))
