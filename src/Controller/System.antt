-- ===== src/Controller/System.antt =====
-- The running server: requests, rounds of the resolver thread and restarts, in any order.
use kingdom.Base.{ℕ, All, ◌≡◌, refl, Bytes, Bool, true, false, Option, List, [], ◌∷◌}
use kingdom.Platform.{Platform}
use kingdom.Jwt.{Request}
use kingdom.Security.Chain.{Predicate}
use kingdom.Server.{Config, World, Server, state}
use kingdom.Database.{Db}
use kingdom.Database.Messages.{init_schema, get_pending_blockchain_messages}
use kingdom.Controller.Resolver.{
  Resolution, confirmed, failed, unresolved, apply_resolution, resolve_each, resolve_pending,
}
use kingdom.Controller.Routes.{serve}
use kingdom.Controller.Keeps.{Operations, serve-Keeps}

-- What the server meets: a request with what it reads from outside, a round of the resolver with
-- the sidecar's answers, or a new start of the process on the same database.
pub data Event : Type 0 where
  request : World → Request → Event
  resolver_round : (Bytes → Option (ℕ × Bytes)) → Event
  restart : Event

abbrev pub is_restart : Event → Bool
is_restart restart = true
is_restart _ = false

module _ (lib : Platform) (version : Bytes) (config : Config) (predicates : List Predicate) where
  -- A new process starts with no revoked tokens and no counts.
  unfoldable pub on_event : Event → Server → Server
  on_event (request world req) s = state (serve lib version config world predicates req s)
  on_event (resolver_round get) s = record s { db = resolve_pending lib get s.db }
  on_event restart s = record { db = (init_schema s.db).1; blacklist = []; rate_limit_map = [] }

  unfoldable pub run : List Event → Server → Server
  unfolding on_event
  run [] s = s
  run (event ∷ events) s = run events (on_event event s)

module _ (lib : Platform) (R : Db → Db → Type 0) (ops : Operations lib R) where
  open ops use {order}

  apply_resolution-keeps : (m : ℕ) (r : Resolution) (db : Db) → R db (apply_resolution lib m r db)
  unfolding apply_resolution
  apply_resolution-keeps m (confirmed tx) db = ops.update_digest_keeps m tx db
  apply_resolution-keeps m failed db = ops.update_digest_keeps m [] db
  apply_resolution-keeps m unresolved db = order.same db

  resolve_each-keeps :
      (get : Bytes → Option (ℕ × Bytes)) (pending : List (ℕ × Bytes)) (db : Db)
      → R db (resolve_each lib get pending db)
  unfolding resolve_each
  resolve_each-keeps get [] db = order.same db
  resolve_each-keeps get ((m, p) ∷ rest) db =
      order.then_next _ _ _ (apply_resolution-keeps m _ db) (resolve_each-keeps get rest _)

  pub resolve_pending-keeps :
      (get : Bytes → Option (ℕ × Bytes)) (db : Db) → R db (resolve_pending lib get db)
  unfolding resolve_pending
  resolve_pending-keeps get db = resolve_each-keeps get (get_pending_blockchain_messages db) db

  module _ (version : Bytes) (config : Config) (predicates : List Predicate) where
    on_event-keeps :
        (event : Event)
        → (is_restart event ≡ true → (db : Db) → R db (init_schema db).1)
        → (s : Server) → R s.db (on_event lib version config predicates event s).db
    unfolding on_event
    on_event-keeps (request world req) k s =
        (serve-Keeps lib R ops config world version predicates req).at s
    on_event-keeps (resolver_round get) k s = resolve_pending-keeps get s.db
    on_event-keeps restart k s = k refl s.db

    -- A relation that the operations keep, and a restart where there is one, is kept by a run.
    pub run-keeps :
        (events : List Event)
        → All (λ e. is_restart e ≡ true → (db : Db) → R db (init_schema db).1) events
        → (s : Server) → R s.db (run lib version config predicates events s).db
    unfolding run
    run-keeps [] k s = order.same s.db
    run-keeps (event ∷ events) k s =
        order.then_next _ _ _ (on_event-keeps event k.0 s) (run-keeps events k.1 _)
