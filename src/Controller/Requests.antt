-- ===== src/Controller/Requests.antt =====
-- The server over any sequence of events, from any valid state of its database.
use kingdom.Base.{ℕ, ◌≡◌, ◌<◌, true, false, Bytes, List, [], ◌∷◌, All, All-imp, arith}
use kingdom.Platform.{Platform}
use kingdom.Security.Chain.{Predicate}
use kingdom.Server.{Config, Server}
use kingdom.Database.Messages.{has_access}
use kingdom.Database.Validity.{IsValid, Advances}
use kingdom.Database.Validity.Order.{unchanged, then-Advances}
use kingdom.Database.Validity.Operations.{
  create_user-Advances, create_conversation-Advances, create_message-Advances, init_schema-Advances,
}
use kingdom.Database.Validity.Changes.{
  delete_message-Advances, revoke-Advances, update_digest-Advances,
}
use kingdom.Database.Narrowing.{operations, Narrows}
use kingdom.Controller.Keeps.{Operations}
use kingdom.Controller.System.{Event, is_restart, run, run-keeps}

advancing : (lib : Platform) → Operations lib Advances
advancing lib = record {
  order = record { same = unchanged; then_next = then-Advances };
  create_user_keeps = create_user-Advances;
  create_conversation_keeps = create_conversation-Advances;
  create_message_keeps = create_message-Advances lib;
  delete_message_keeps = delete_message-Advances;
  revoke_keeps = revoke-Advances;
  update_digest_keeps = update_digest-Advances;
}

every : {P : Event → Type 0} → ((e : Event) → P e) → (events : List Event) → All P events
every p [] = tt
every p (e ∷ es) = (p e, every p es)

module _ (lib : Platform) (version : Bytes) (config : Config) (predicates : List Predicate) where
  -- Whatever the server meets (requests that it answers, refuses or fails on, rounds of the
  -- resolver, restarts), valid tables stay valid: ids below their sequences, user names and access
  -- pairs unique, no access row without its message.
  pub run-IsValid :
      (events : List Event) (s : Server)
      → IsValid s.db
      → IsValid (run lib version config predicates events s).db
  run-IsValid events s v =
      (run-keeps lib Advances (advancing lib) version config predicates events
        (every (λ e h. init_schema-Advances) events) s v).valid

  -- From valid tables and without a restart, no sequence of requests and rounds of the resolver gives
  -- a user access to a message that was stored before it, unless the user had that access.
  pub run-access :
      (events : List Event) (s : Server) (i v : ℕ)
      → All (λ e. is_restart e ≡ false) events
      → IsValid s.db
      → i < s.db.next_message
      → has_access i v (run lib version config predicates events s).db ≡ true
      → has_access i v s.db ≡ true
  run-access events s i v stays valid below =
      (run-keeps lib Narrows (operations lib) version config predicates events
          (All-imp events (λ e h k. ground (arith, h, k)) stays) s valid).access
        i v below
