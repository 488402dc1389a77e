-- ===== src/Controller/Keeps.antt =====
-- Every request moves the database by the operations of kds/src/db alone: a relation that each of
-- them keeps is kept by every handler and by the server's answer to any request.
use kingdom.Base.{ℕ, Bytes, Option, none, some, List, ◌≡◌, refl, sym, subst, arith}
use kingdom.Outcome.{ok, err}
use kingdom.Platform.{Platform}
use kingdom.Database.{Db}
use kingdom.Database.Users.{create_user}
use kingdom.Database.Conversations.{create_conversation}
use kingdom.Database.Messages.{
  create_message, delete_message, revoke_message_access, update_message_blockchain_digest,
}
use kingdom.Database.PreKeys.{consume_one_time_pre_key}
use kingdom.Jwt.{Request}
use kingdom.Security.Chain.{Predicate, execute}
use kingdom.Security.Predicates.{Verdict}
use kingdom.Server.{Config, World, Server, Response, Flow, next, done, threw, state}
use kingdom.Server.Keeps.{IsOrder, Keeps, keeps_rules}
use kingdom.Controller.Auth.{
  rate_limit, revoke_token, register, handle_signup, handle_login, handle_logout,
}
use kingdom.Controller.Conversations.{
  require_user, list_users, public_key, handle_create_conversation, handle_list_user_conversations,
  health, api_info,
}
use kingdom.Controller.Messages.{
  recipient_of, queue_for_blockchain, queued_id, record_digest, store_message, sidecar_body,
  handle_create_message, handle_delete_message, handle_revoke_message_access,
  handle_list_conversation_messages,
}
use kingdom.Controller.Routes.{
  Route, Match, handle_route, dispatch, after_chain, with_error_page, serve, find_route,
  before_body,
}

-- What a client of the database needs to know of the operations that write.
pub record Operations (lib : Platform) (R : Db → Db → Type 0) : Type 0 where
  pub order : IsOrder R
  pub create_user_keeps : (name hash key : Bytes) (db : Db) → R db (create_user name hash key db).1
  pub create_conversation_keeps :
      (name : Bytes) (ids : List ℕ) (now : ℕ) (db : Db)
      → R db (create_conversation name ids now db).1
  pub create_message_keeps :
      (c s : ℕ) (payload : Bytes) (time : ℕ) (recipient pre_key : Option ℕ) (db : Db)
      → R db (create_message (consume_one_time_pre_key lib) c s payload time recipient pre_key db).1
  pub delete_message_keeps : (c m s : ℕ) (db : Db) → R db (delete_message c m s db).1
  pub revoke_keeps : (c m s t at : ℕ) (db : Db) → R db (revoke_message_access c m s t at db).1
  pub update_digest_keeps :
      (m : ℕ) (digest : Bytes) (db : Db) → R db (update_message_blockchain_digest m digest db)

module _ (lib : Platform) (R : Db → Db → Type 0) (ops : Operations lib R) where
  open ops use {order}

  rate_limit-Keeps :
      (config : Config) (world : World) (req : Request) → Keeps R (rate_limit config world req)
  unfolding rate_limit
  rate_limit-Keeps config world req = record { at = λ s. order.same s.db }

  revoke_token-Keeps :
      (world : World) (token : Option Bytes) → Keeps R (revoke_token lib world token)
  unfolding revoke_token
  revoke_token-Keeps world none = record { at = λ s. order.same s.db }
  revoke_token-Keeps world (some token) = record { at = λ s. order.same s.db }

  register-Keeps :
      (config : Config) (world : World) (username password key : Bytes)
      → Keeps R (register lib config world username password key)
  unfolding register
  register-Keeps config world username password key =
      search (keeps_rules, order, ops.create_user_keeps)

  signup-Keeps :
      (config : Config) (world : World) (req : Request)
      → Keeps R (handle_signup lib config world req)
  unfolding handle_signup
  signup-Keeps config world req =
      search (keeps_rules, order, rate_limit-Keeps, register-Keeps) depth 20

  login-Keeps :
      (config : Config) (world : World) (req : Request)
      → Keeps R (handle_login lib config world req)
  unfolding handle_login
  login-Keeps config world req = search (keeps_rules, order, rate_limit-Keeps) depth 20

  logout-Keeps : (world : World) (req : Request) → Keeps R (handle_logout lib world req)
  unfolding handle_logout
  logout-Keeps world req = search (keeps_rules, order, revoke_token-Keeps) depth 20

  list_users-Keeps : Keeps R (list_users lib)
  unfolding list_users
  list_users-Keeps = search (keeps_rules, order)

  public_key-Keeps : (req : Request) → Keeps R (public_key lib req)
  unfolding public_key
  public_key-Keeps req = search (keeps_rules, order) depth 9

  health-Keeps : Keeps R (health lib)
  unfolding health
  health-Keeps = search (keeps_rules, order)

  api_info-Keeps : (version : Bytes) → Keeps R (api_info lib version)
  unfolding api_info
  api_info-Keeps version = search (keeps_rules, order)

  module _ (config : Config) (world : World) where
    require_user-Keeps : (req : Request) → Keeps R (require_user lib config world req)
    unfolding require_user
    require_user-Keeps req = search (keeps_rules, order)

    create_conversation-Keeps :
        (req : Request) → Keeps R (handle_create_conversation lib config world req)
    unfolding handle_create_conversation
    create_conversation-Keeps req =
        search (keeps_rules, order, require_user-Keeps, ops.create_conversation_keeps) depth 30

    list_conversations-Keeps :
        (req : Request) → Keeps R (handle_list_user_conversations lib config world req)
    unfolding handle_list_user_conversations
    list_conversations-Keeps req = search (keeps_rules, order, require_user-Keeps) depth 20

    recipient_of-state : (body : lib.Json) (s : Server) → state (recipient_of lib body s) ≡ s
    unfolding recipient_of
    recipient_of-state body s = ground arith

    recipient_of-Keeps : (body : lib.Json) → Keeps R (recipient_of lib body)
    unfolding recipient_of
    recipient_of-Keeps body = record { at = λ s. rw (recipient_of-state body s) (order.same s.db) }

    record_digest-Keeps : (m : ℕ) (pending : Option Bytes) → Keeps R (record_digest lib m pending)
    unfolding record_digest
    record_digest-Keeps m none = record { at = λ s. order.same s.db }
    record_digest-Keeps m (some pending) = record { at = λ s. ops.update_digest_keeps m _ s.db }

    queue-Keeps : (c m : ℕ) (payload : Bytes) → Keeps R (queue_for_blockchain lib world c m payload)
    unfolding queue_for_blockchain
    queue-Keeps c m payload =
        record_digest-Keeps m (queued_id lib (world.sidecar (sidecar_body lib c m payload)))

    store_message-Keeps :
        (c s : ℕ) (payload : Bytes) (recipient : Option ℕ)
        → Keeps R (store_message lib world c s payload recipient)
    unfolding store_message
    store_message-Keeps c s payload recipient =
        search (keeps_rules, order, ops.create_message_keeps)

    create_message-Keeps : (req : Request) → Keeps R (handle_create_message lib config world req)
    unfolding handle_create_message
    create_message-Keeps req =
        search
          (
            keeps_rules, order, require_user-Keeps, recipient_of-Keeps, store_message-Keeps,
            queue-Keeps,
          )
          depth 40

    delete_message-Keeps : (req : Request) → Keeps R (handle_delete_message lib config world req)
    unfolding handle_delete_message
    delete_message-Keeps req =
        search (keeps_rules, order, require_user-Keeps, ops.delete_message_keeps) depth 30

    revoke-Keeps : (req : Request) → Keeps R (handle_revoke_message_access lib config world req)
    unfolding handle_revoke_message_access
    revoke-Keeps req = search (keeps_rules, order, require_user-Keeps, ops.revoke_keeps) depth 40

    list_messages-Keeps :
        (req : Request) → Keeps R (handle_list_conversation_messages lib config world req)
    unfolding handle_list_conversation_messages
    list_messages-Keeps req = search (keeps_rules, order, require_user-Keeps) depth 20

    handle_route-Keeps :
        (version : Bytes) (route : Route) (req : Request)
        → Keeps R (handle_route lib version config world route req)
    unfolding handle_route
    handle_route-Keeps version Route.signup req = signup-Keeps config world req
    handle_route-Keeps version Route.login req = login-Keeps config world req
    handle_route-Keeps version Route.logout req = logout-Keeps world req
    handle_route-Keeps version Route.health_check req = health-Keeps
    handle_route-Keeps version Route.users req = list_users-Keeps
    handle_route-Keeps version Route.key_of_user req = public_key-Keeps req
    handle_route-Keeps version Route.info req = api_info-Keeps version
    handle_route-Keeps version Route.new_conversation req = create_conversation-Keeps req
    handle_route-Keeps version Route.conversations_of_user req = list_conversations-Keeps req
    handle_route-Keeps version Route.new_message req = create_message-Keeps req
    handle_route-Keeps version Route.messages_of_conversation req = list_messages-Keeps req
    handle_route-Keeps version Route.one_message req = delete_message-Keeps req
    handle_route-Keeps version Route.message_access req = revoke-Keeps req

    dispatch-Keeps :
        (version : Bytes) (found : Match) (req : Request)
        → Keeps R (dispatch lib version config world found req)
    unfolding dispatch
    dispatch-Keeps version none req = record { at = λ s. order.same s.db }
    dispatch-Keeps version (some (route, groups)) req = record {
      at = (handle_route-Keeps version route _).at;
    }

    after_chain-Keeps :
        (version : Bytes) (req : Request) (verdict : Verdict)
        → Keeps R (after_chain lib version config world req verdict)
    unfolding after_chain
    after_chain-Keeps version req (err e, tokens) = record { at = λ s. order.same s.db }
    after_chain-Keeps version req (ok (some error), tokens) = record { at = λ s. order.same s.db }
    after_chain-Keeps version req (ok none, tokens) = record {
      at = λ s.
          (dispatch-Keeps version (find_route req.method req.path) req).at
            (record s { blacklist = tokens });
    }

    state-with_error_page :
        (version : Bytes) (answer : Flow Response)
        → state (with_error_page lib version config world answer) ≡ state answer
    unfolding with_error_page
    state-with_error_page version (next res s) = refl
    state-with_error_page version (done res s) = refl
    state-with_error_page version (threw e s) = refl

    pub serve-Keeps :
        (version : Bytes) (predicates : List Predicate) (req : Request)
        → Keeps R (serve lib version config world predicates req)
    unfolding serve
    serve-Keeps version predicates req = record {
      at = λ s.
          subst (λ (t : Server). R s.db t.db)
            (sym (
              state-with_error_page version (
                after_chain lib version config world req
                  (execute lib (some config.jwt_secret) world.epoch_seconds predicates
                    (before_body req) s.blacklist)
                  s)))
            ((after_chain-Keeps version req (
                execute lib (some config.jwt_secret) world.epoch_seconds predicates
                  (before_body req) s.blacklist)).at
              s);
    }
