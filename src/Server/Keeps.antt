-- ===== src/Server/Keeps.antt =====
-- How a handler moves the database: a relation between the state before and the state after that
-- holds of each part of a handler holds of the whole, whether it answers or throws.
use kingdom.Base.{◌≡◌, refl, sym, subst, Bool, true, false, Option, none, some}
use kingdom.Outcome.{Exn, Result, ok, err, runtime_error, sql_error, other_error}
use kingdom.Platform.{Platform}
use kingdom.Database.{Db, Txn}
use kingdom.Server.{
  Server, Response, Flow, next, done, threw, Action, bind, ◌>>=◌, or_throw, or_answer, answer_if,
  answer, from_result, query, finish_txn, run_txn, update_db, catch_runtime, conflict_or_throw,
  state,
}

-- A relation that holds of doing nothing and of one change after another.
pub record IsOrder (R : Db → Db → Type 0) : Type 0 where
  pub same : (db : Db) → R db db
  pub then_next : (a b c : Db) → R a b → R b c → R a c

pub record Keeps (R : Db → Db → Type 0) {A : Type 0} (m : Action A) : Type 0 where
  pub at : (s : Server) → R s.db (state (m s)).db

module _ (R : Db → Db → Type 0) (o : IsOrder R) where
  open o use {same, then_next}

  module _ {A : Type 0} where
    pub Keeps-or_throw : (e : Exn) (a : Option A) → Keeps R (or_throw e a)
    unfolding or_throw
    Keeps-or_throw e none = record { at = λ s. same s.db }
    Keeps-or_throw e (some a) = record { at = λ s. same s.db }

    pub Keeps-or_answer : (res : Response) (a : Option A) → Keeps R (or_answer res a)
    unfolding or_answer
    Keeps-or_answer res none = record { at = λ s. same s.db }
    Keeps-or_answer res (some a) = record { at = λ s. same s.db }

    pub Keeps-from_result : (r : Result A) → Keeps R (from_result r)
    unfolding from_result
    Keeps-from_result (ok a) = record { at = λ s. same s.db }
    Keeps-from_result (err e) = record { at = λ s. same s.db }

    pub Keeps-query : (q : Db → A) → Keeps R (query q)
    unfolding query
    Keeps-query q = record { at = λ s. same s.db }

    finish_txn-state :
        (s : Server) (r : Result A) (db : Db) → (state (finish_txn s (r, db))).db ≡ db
    finish_txn-state s (ok a) db = refl
    finish_txn-state s (err e) db = refl

    pub Keeps-run_txn : (txn : Txn A) → ((db : Db) → R db (txn db).1) → Keeps R (run_txn txn)
    unfolding run_txn
    Keeps-run_txn txn keep = record {
      at = λ s. subst (R s.db) (sym (finish_txn-state s (txn s.db).0 (txn s.db).1)) (keep s.db);
    }

    pub Keeps-update_db : (f : Db → A × Db) → ((db : Db) → R db (f db).1) → Keeps R (update_db f)
    unfolding update_db
    Keeps-update_db f keep = record { at = λ s. keep s.db }

    catch_runtime-state :
        (lib : Platform) (flow : Flow A) → state (catch_runtime lib flow) ≡ state flow
    catch_runtime-state lib (next a s) = refl
    catch_runtime-state lib (done res s) = refl
    catch_runtime-state lib (threw (runtime_error what) s) = refl
    catch_runtime-state lib (threw sql_error s) = refl
    catch_runtime-state lib (threw other_error s) = refl

    pub Keeps-conflict_or_throw :
        (lib : Platform) (m : Action A) → Keeps R m → Keeps R (conflict_or_throw lib m)
    unfolding conflict_or_throw
    Keeps-conflict_or_throw lib m k = record {
      at = λ s. subst (λ (t : Server). R s.db t.db) (sym (catch_runtime-state lib (m s))) (k.at s);
    }

  pub Keeps-answer_if : (test : Bool) (res : Response) → Keeps R (answer_if test res)
  unfolding answer_if
  Keeps-answer_if true res = record { at = λ s. same s.db }
  Keeps-answer_if false res = record { at = λ s. same s.db }

  pub Keeps-answer : (res : Response) → Keeps R (answer res)
  unfolding answer
  Keeps-answer res = record { at = λ s. same s.db }

  module _ {A B : Type 0} where
    bind-keeps :
        (db : Db) (flow : Flow A) (f : A → Action B)
        → R db (state flow).db
        → ((a : A) → Keeps R (f a))
        → R db (state (bind flow f)).db
    bind-keeps db (next a s) f h kf = then_next db s.db _ h ((kf a).at s)
    bind-keeps db (done res s) f h kf = h
    bind-keeps db (threw e s) f h kf = h

    pub Keeps-bind :
        (m : Action A) (f : A → Action B)
        → Keeps R m
        → ((a : A) → Keeps R (f a))
        → Keeps R (m >>= f)
    unfolding ◌>>=◌
    Keeps-bind m f km kf = record { at = λ s. bind-keeps s.db (m s) f (km.at s) kf }

pub ruleset keeps_rules = (
  Keeps-bind, Keeps-or_throw, Keeps-or_answer, Keeps-from_result, Keeps-query, Keeps-run_txn,
  Keeps-update_db, Keeps-conflict_or_throw, Keeps-answer_if, Keeps-answer,
)
