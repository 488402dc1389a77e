-- ===== src/Tests/Tables.antt =====
-- A database of three users, one conversation and one message, and the theorems about the tables.
use kingdom.Base.{
  ℕ, ◌≡◌, ◌↔◌, refl, codes, true, not, ◌&&◌, ◌||◌, ◌==◌, any, bytes_eq, keep_if, none, some, [],
  ◌∷◌, arith, Member,
}
use kingdom.Outcome.{ok, err, runtime_error}
use kingdom.Database.{Db, MessageRow, AccessRow}
use kingdom.Database.Validity.{IsValid}
use kingdom.Database.Users.{user_exists, insert_user, create_user, get_user_by_username}
use kingdom.Database.Conversations.{conversation_exists}
use kingdom.Database.Messages.{
  create_message, consume_prekey, insert_and_grant, grant_and_return, grant_access,
  insert_direct_access, insert_group_access, insert_access, insert_accesses, insert_message,
  has_access, delete_message, revoke_message_access, is_message_sender, grant_all, init_schema,
  get_messages_by_conversation_id_for_user,
}
use kingdom.Database.PreKeys.{consume_one_time_pre_key}
use kingdom.Database.Audience.{is_audience, create_message-access}
use kingdom.Database.Narrowing.{IsValid-AccessBelow}
use kingdom.Database.Revocation.{revoke_message_access-access, delete_message-access}
use kingdom.Database.Startup.{SameButAccess, IsStarted, init_schema-access}
use kingdom.Database.Listing.{InOrder, get_messages_by_conversation_id_for_user-Member}
use kingdom.Database.Accounts.{get_user_by_username-create_user, create_user-create_user}
use kingdom.Tests.Toy.{toy}

abbrev pub granted : ℕ → AccessRow
granted u = record { message_id = 1; user_id = u; granted_by = 1; revoked_at = none }

abbrev pub greeting : MessageRow
greeting = record {
  id = 1;
  conversation_id = 1;
  sender_id = 1;
  payload = codes "hi";
  timestamp = 5;
  blockchain_digest = [];
}

-- The message was sent to bob alone: cat takes part in the conversation and has no access.
abbrev pub tables : Db
tables = record {
  users =
      record { id = 1; username = codes "ann"; password_hash = []; public_key = none }
      ∷ record { id = 2; username = codes "bob"; password_hash = []; public_key = none }
      ∷ record { id = 3; username = codes "cat"; password_hash = []; public_key = none }
      ∷ [];
  conversations = record { id = 1; name = codes "trio"; created_at = 4 } ∷ [];
  participants =
      record { conversation_id = 1; user_id = 1 }
      ∷ record { conversation_id = 1; user_id = 2 }
      ∷ record { conversation_id = 1; user_id = 3 }
      ∷ [];
  messages = greeting ∷ [];
  access = granted 1 ∷ granted 2 ∷ [];
  next_user = 4;
  next_conversation = 2;
  next_message = 2;
}

pub tables-IsValid : IsValid tables
unfolding any bytes_eq
tables-IsValid = record {
  users_below = ground arith;
  conversations_below = ground arith;
  messages_below = ground arith;
  names_distinct = ground arith;
  keys_distinct = ground arith;
  access_refers = ground arith;
}

-- Ann writes to bob.
abbrev after_letter : Db
after_letter =
    (create_message (consume_one_time_pre_key toy) 1 1 (codes "yo") 9 (some 2) none tables).1

letter_sent :
    create_message (consume_one_time_pre_key toy) 1 1 (codes "yo") 9 (some 2) none tables
    ≡ (ok 2, after_letter)
unfolding create_message consume_prekey insert_and_grant grant_and_return grant_access
    insert_direct_access insert_access insert_message conversation_exists user_exists any
letter_sent = refl

create_message-access_example :
    has_access 2 3 after_letter
    ≡ (has_access 2 3 tables || (2 == 2 && is_audience 1 1 (some 2) tables 3))
create_message-access_example =
    create_message-access toy 1 1 (codes "yo") 9 (some 2) none tables after_letter 2 2 3
      (IsValid-AccessBelow tables tables-IsValid) letter_sent

revoke_message_access-access_example : has_access 1 2 (revoke_message_access 1 1 1 2 8 tables).1 ≡ (
    has_access 1 2 tables
    && not ((is_message_sender 1 1 1 tables && not (2 == 1)) && (1 == 1 && 2 == 2)))
revoke_message_access-access_example = revoke_message_access-access 1 1 1 2 8 tables 1 2

delete_message-access_example :
    has_access 1 2 (delete_message 1 1 1 tables).1
    ≡ (has_access 1 2 tables && not (is_message_sender 1 1 1 tables && 1 == 1))
delete_message-access_example = delete_message-access 1 1 1 tables 1 2

init_schema-access_example :
    SameButAccess tables (init_schema tables).1 × IsStarted 1 3 tables (init_schema tables)
init_schema-access_example = init_schema-access 1 3 tables

-- Cat reads the message to bob after the start.
cat_can_read : has_access 1 3 (init_schema tables).1 ≡ true
unfolding init_schema grant_all insert_group_access insert_accesses insert_access user_exists any
    keep_if has_access
cat_can_read = refl

get_messages_by_conversation_id_for_user-Member_example :
    InOrder (get_messages_by_conversation_id_for_user 1 2 tables)
    × ((m : MessageRow)
        → Member m (get_messages_by_conversation_id_for_user 1 2 tables) ↔ (
            Member m tables.messages × (m.conversation_id ≡ 1) × (has_access m.id 2 tables ≡ true)))
get_messages_by_conversation_id_for_user-Member_example =
    get_messages_by_conversation_id_for_user-Member 1 2 tables

abbrev with_dan : Db
with_dan = (create_user (codes "dan") (codes "hash") (codes "key") tables).1

dan_created : create_user (codes "dan") (codes "hash") (codes "key") tables ≡ (ok 4, with_dan)
unfolding create_user insert_user any bytes_eq
dan_created = refl

get_user_by_username-create_user_example :
    get_user_by_username (codes "dan") with_dan
    ≡ some (record {
      id = 4;
      username = codes "dan";
      password_hash = codes "hash";
      public_key = codes "key";
    })
get_user_by_username-create_user_example =
    get_user_by_username-create_user (codes "dan") (codes "hash") (codes "key") tables with_dan 4
      dan_created

create_user-create_user_example :
    ((create_user (codes "dan") [] [] with_dan).0 ≡ err (runtime_error "Username already taken"))
    × ((create_user (codes "dan") [] [] with_dan).1.users ≡ with_dan.users)
create_user-create_user_example =
    create_user-create_user (codes "dan") (codes "hash") (codes "key") tables with_dan 4 dan_created
      [] []
