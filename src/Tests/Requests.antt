-- ===== src/Tests/Requests.antt =====
-- A server with the tables of kingdom.Tests.Tables and the sessions of kingdom.Tests.Sessions.
use kingdom.Base.{
  ℕ, suc, ◌≡◌, ◌<◌, ◌⊎◌, refl, String, Bytes, codes, bytes_eq, Bool, true, false, any, Option, none,
  some, List, [], ◌∷◌, arith, All,
}
use kingdom.Jwt.{Request, bearer_token}
use kingdom.Security.Predicates.{is_public}
use kingdom.Security.Chain.{Predicate, sender_authenticity, untampered, authenticated}
use kingdom.Security.Gate.{HasSession}
use kingdom.Security.Admission.{filter_chain-configured}
use kingdom.Database.Messages.{has_access}
use kingdom.Database.Validity.{IsValid}
use kingdom.Server.{Config, World, Server, state}
use kingdom.Controller.Routes.{serve}
use kingdom.Controller.System.{Event, request, resolver_round, restart, run}
use kingdom.Controller.Requests.{run-IsValid, run-access}
use kingdom.Controller.Admission.{is_refused, serve-refused}
use kingdom.Controller.Messages.{
  handle_create_message, handle_delete_message, handle_revoke_message_access,
}
use kingdom.Controller.Messages.Authority.{
  IsDeleted, handle_delete_message-IsDeleted, IsRevoked, handle_revoke_message_access-IsRevoked,
}
use kingdom.Controller.Messages.Creation.{IsCreated, handle_create_message-IsCreated}
use kingdom.Tests.Toy.{toy}
use kingdom.Tests.Tables.{tables, tables-IsValid, greeting, granted}
use kingdom.Tests.Sessions.{ann_request}

abbrev config : Config
config = record { jwt_secret = codes "key"; jwt_ttl_seconds = 60; rate_limit_max_requests = 2 }

abbrev silent : Bytes → Option (ℕ × Bytes)
silent path = none

abbrev world : World
world = record {
  epoch_seconds = 60;
  now_millis = 60000;
  steady_nanos = 90_000_000_000;
  salt = codes "salt";
  sidecar = silent;
}

abbrev server : Server
server = record { db = tables; blacklist = []; rate_limit_map = [] }

abbrev three : List Predicate
three = sender_authenticity ∷ untampered ∷ authenticated ∷ []

-- Ann deletes her message.
abbrev ann_deletes : Request
ann_deletes = record ann_request {
  method = codes "DELETE";
  path = codes "/conversations/1/messages/1";
  matches = codes "/conversations/1/messages/1" ∷ codes "1" ∷ codes "1" ∷ [];
}

abbrev ann_revokes : Request
ann_revokes = record ann_request {
  method = codes "DELETE";
  path = codes "/conversations/1/messages/1/access/2";
  matches = codes "/conversations/1/messages/1/access/2" ∷ codes "1" ∷ codes "1" ∷ codes "2" ∷ [];
}

abbrev events : List Event
events = request world ann_request ∷ resolver_round silent ∷ request world ann_deletes ∷ []

run-IsValid_example : IsValid (run toy (codes "1.0") config three (restart ∷ events) server).db
run-IsValid_example =
    run-IsValid toy (codes "1.0") config three (restart ∷ events) server tables-IsValid

bob_can_read :
    has_access 1 2 (run toy (codes "1.0") config three (resolver_round silent ∷ []) server).db
    ≡ true
unfolding run has_access any kingdom.Controller.Resolver.resolve_pending
    kingdom.Database.Messages.get_pending_blockchain_messages kingdom.Base.strip_prefix
bob_can_read = refl

run-access_example : has_access 1 2 tables ≡ true
run-access_example =
    run-access toy (codes "1.0") config three (resolver_round silent ∷ []) server 1 2 (refl, tt)
      tables-IsValid (omega arith) bob_can_read

-- Without a token.
abbrev stranger : Request
stranger = record ann_request { header = λ name. [] }

protected : is_public (codes "/users") ≡ false
unfolding is_public any bytes_eq kingdom.Security.Predicates.is_public_key_path
    kingdom.Base.strip_prefix
protected = refl

no_token : bearer_token stranger ≡ none
unfolding bearer_token
no_token = refl

no_session : HasSession toy (codes "key") 60 stranger [] → ⊥
no_session h = ground (arith, h.carried, no_token)

serve-refused_example :
    (is_refused (serve toy (codes "1.0") config world three stranger server) ≡ true)
    × ((state (serve toy (codes "1.0") config world three stranger server)).db ≡ tables)
    × ((state (serve toy (codes "1.0") config world three stranger server)).rate_limit_map ≡ [])
serve-refused_example =
    serve-refused toy (codes "1.0") config world stranger server three filter_chain-configured
      protected no_session

handle_delete_message-IsDeleted_example :
    IsDeleted toy config world ann_deletes server
      (state (handle_delete_message toy config world ann_deletes server))
handle_delete_message-IsDeleted_example =
    handle_delete_message-IsDeleted toy config world ann_deletes server

handle_revoke_message_access-IsRevoked_example :
    IsRevoked toy config world ann_revokes server
      (state (handle_revoke_message_access toy config world ann_revokes server))
handle_revoke_message_access-IsRevoked_example =
    handle_revoke_message_access-IsRevoked toy config world ann_revokes server

-- A message of ann to bob.
abbrev ann_sends : Request
ann_sends = record ann_request {
  method = codes "POST";
  path = codes "/conversations/1/messages";
  body = codes "MAIL";
  matches = codes "/conversations/1/messages" ∷ codes "1" ∷ [];
}

-- The sidecar queues every message.
abbrev queueing : World
queueing = record world { sidecar = λ path. some (200, codes "LATER") }

handle_create_message-IsCreated_example :
    IsCreated toy config queueing ann_sends server
      (state (handle_create_message toy config queueing ann_sends server))
handle_create_message-IsCreated_example =
    handle_create_message-IsCreated toy config queueing ann_sends server

-- Her message is stored for the two of them, with the digest.
sent : (state (handle_create_message toy config queueing ann_sends server)).db ≡ record tables {
  messages =
      greeting
      ∷ record {
        id = 2;
        conversation_id = 1;
        sender_id = 1;
        payload = codes "yo";
        timestamp = 60000;
        blockchain_digest = codes "pending:p1";
      }
      ∷ [];
  access =
      granted 1
      ∷ granted 2
      ∷ record { message_id = 2; user_id = 1; granted_by = 1; revoked_at = none }
      ∷ record { message_id = 2; user_id = 2; granted_by = 1; revoked_at = none }
      ∷ [];
  next_message = 3;
}
unfolding handle_create_message kingdom.Server.◌>>=◌ kingdom.Numerals.parse_id
    kingdom.Numerals.from_chars kingdom.Jwt.group kingdom.Controller.Auth.parse_with bytes_eq
    kingdom.Controller.Messages.recipient_of kingdom.Controller.Conversations.require_user
    kingdom.Controller.Session.authenticated_user_id bearer_token kingdom.Base.strip_prefix
    kingdom.Jwt.verified_jwt_payload kingdom.Jwt.two_dots kingdom.Base.find kingdom.Base.find_from
    kingdom.Jwt.sign_jwt_input kingdom.Jwt.Base64.base64_url_encode any kingdom.Base.find_if
    kingdom.Base.keep_if kingdom.Controller.Messages.found_recipient
    kingdom.Controller.Messages.is_stranger
    kingdom.Controller.Messages.one_time_pre_key_id_from_payload
    kingdom.Controller.Messages.queue_for_blockchain kingdom.Controller.Messages.queued_id
    kingdom.Controller.Messages.record_digest kingdom.Controller.Messages.store_message
    kingdom.Controller.Session.session_subject kingdom.Database.Conversations.conversation_exists
    kingdom.Database.Conversations.is_participant kingdom.Database.Messages.consume_prekey
    kingdom.Database.Messages.create_message kingdom.Database.Messages.grant_access
    kingdom.Database.Messages.grant_and_return kingdom.Database.Messages.insert_access
    kingdom.Database.Messages.insert_accesses kingdom.Database.Messages.insert_and_grant
    kingdom.Database.Messages.insert_direct_access kingdom.Database.Messages.insert_group_access
    kingdom.Database.Messages.insert_message kingdom.Database.Messages.message_exists
    kingdom.Database.Messages.set_digest kingdom.Database.Messages.update_message_blockchain_digest
    kingdom.Database.PreKeys.consume_from kingdom.Database.PreKeys.consume_one_time_pre_key
    kingdom.Database.PreKeys.has_pre_keys kingdom.Database.PreKeys.is_pre_key
    kingdom.Database.PreKeys.remove_pre_key kingdom.Database.PreKeys.set_public_key
    kingdom.Database.PreKeys.store_keys kingdom.Database.PreKeys.update_public_key
    kingdom.Database.Users.user_exists kingdom.Jwt.Base64.base64_url_decode
    kingdom.Jwt.Base64.drop_padding kingdom.Jwt.Base64.pad_loop kingdom.Jwt.Base64.pad_to_block
    kingdom.Jwt.check_algorithm kingdom.Jwt.check_bodies kingdom.Jwt.check_content
    kingdom.Jwt.check_expiry kingdom.Jwt.check_parsed kingdom.Jwt.check_signature
    kingdom.Numerals.is_digit kingdom.Numerals.stoull kingdom.Server.answer kingdom.Server.answer_if
    kingdom.Server.conflict_or_throw kingdom.Server.from_result kingdom.Server.or_answer
    kingdom.Server.or_throw kingdom.Server.query kingdom.Server.run_txn
sent = refl
