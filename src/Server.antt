-- ===== src/Server.antt =====
-- The members of kd::Controller that its handlers read and write, what a handler reads from
-- outside, and handlers as actions on that state.
pub mod Keeps
pub mod Ends
use kingdom.Base.{ℕ, String, Bytes, Bool, Option, none, some, List, [], ◌∷◌, if◌then◌else◌}
use kingdom.Outcome.{Exn, Result, ok, err}
use kingdom.Platform.{Platform}
use kingdom.Database.{Db, Txn}
use kingdom.Security.Blacklist.{Blacklist}

pub record Config : Type 0 where
  pub jwt_secret : Bytes
  pub jwt_ttl_seconds : ℕ
  pub rate_limit_max_requests : ℕ

-- RateLimitEntry; a new entry of the map is all zero.
pub record RateLimitEntry : Type 0 where
  pub count : ℕ
  pub window_start : ℕ

pub record Server : Type 0 where
  pub db : Db
  pub blacklist : Blacklist
  pub rate_limit_map : List (Bytes × RateLimitEntry)

-- The clocks as one request reads them (`epochSeconds()`, the system clock in milliseconds, the
-- steady clock in nanoseconds), the salt of libsodium, and the sidecar: the status and the body with
-- which it answers a text, if it answers.
pub record World : Type 0 where
  pub epoch_seconds : ℕ
  pub now_millis : ℕ
  pub steady_nanos : ℕ
  pub salt : Bytes
  pub sidecar : Bytes → Option (ℕ × Bytes)

-- `httplib::Response`: no status means the one that the server fills in, 200.
pub record Response : Type 0 where
  pub status : Option ℕ
  pub content : Bytes

-- A handler goes on with a value, has answered, or has thrown.
pub data Flow (A : Type 0) : Type 0 where
  next : A → Server → Flow A
  done : Response → Server → Flow A
  threw : Exn → Server → Flow A

abbrev pub Action : Type 0 → Type 0
Action A = Server → Flow A

abbrev pub bind : {A B : Type 0} → Flow A → (A → Action B) → Flow B
bind (next a s) f = f a s
bind (done res s) f = done res s
bind (threw e s) f = threw e s

-- A handler's body ends by answering.
abbrev pub Handler : Type 0
Handler = Action Response

unfoldable pub or_throw : {A : Type 0} → Exn → Option A → Action A
or_throw e none s = threw e s
or_throw e (some a) s = next a s

unfoldable pub or_answer : {A : Type 0} → Response → Option A → Action A
or_answer res none s = done res s
or_answer res (some a) s = next a s

unfoldable pub answer_if : Bool → Response → Action (Unit {0})
answer_if test res s = if test then done res s else next tt s

unfoldable pub answer : Response → Handler
answer res s = done res s

unfoldable pub from_result : {A : Type 0} → Result A → Action A
from_result (ok a) s = next a s
from_result (err e) s = threw e s

-- A query of the database.
unfoldable pub query : {A : Type 0} → (Db → A) → Action A
query q s = next (q s.db) s

abbrev pub finish_txn : {A : Type 0} → Server → Result A × Db → Flow A
finish_txn s (ok a, db) = next a (record s { db = db })
finish_txn s (err e, db) = threw e (record s { db = db })

-- A method of the database that writes.
unfoldable pub run_txn : {A : Type 0} → Txn A → Action A
run_txn txn s = finish_txn s (txn s.db)

-- A statement of the database that cannot fail.
unfoldable pub update_db : {A : Type 0} → (Db → A × Db) → Action A
update_db f s = next (f s.db).0 (record s { db = (f s.db).1 })

-- Opening this opens the actions above too.
infixl 5 ◌>>=◌ ◌>>◌
unfoldable pub ◌>>=◌ : {A B : Type 0} → Action A → (A → Action B) → Action B
unfolding or_throw or_answer answer_if answer from_result query run_txn update_db
◌>>=◌ m f s = bind (m s) f

abbrev pub ◌>>◌ : {B : Type 0} → Action (Unit {0}) → Action B → Action B
m >> k = m >>= λ _. k

module _ (lib : Platform) where
  open lib use {dump, object, string, literal}

  -- `nlohmann::json{{json_fields::Error, message}}.dump()`
  abbrev pub error_body : Bytes → Bytes
  error_body message = dump (object (("error", string message) ∷ []))

  abbrev pub error_response : ℕ → String → Response
  error_response code message = record {
    status = some code;
    content = error_body (literal message);
  }

  abbrev pub catch_runtime : {A : Type 0} → Flow A → Flow A
  catch_runtime (next a s) = next a s
  catch_runtime (done res s) = done res s
  catch_runtime (threw (Exn.runtime_error what) s) = done (error_response 409 what) s
  catch_runtime (threw Exn.sql_error s) =
      done (record { status = some 409; content = error_body lib.sql_what }) s
  catch_runtime (threw Exn.other_error s) = threw Exn.other_error s

  -- A `try` block whose `catch (const std::runtime_error& e)` answers 409 with `e.what()`.
  unfoldable pub conflict_or_throw : {A : Type 0} → Action A → Action A
  conflict_or_throw m s = catch_runtime (m s)

-- The state that a handler leaves, however it ends.
abbrev pub state : {A : Type 0} → Flow A → Server
state (next a s) = s
state (done res s) = s
state (threw e s) = s
