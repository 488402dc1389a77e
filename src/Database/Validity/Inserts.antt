-- ===== src/Database/Validity/Inserts.antt =====
-- The statements that add a user, a conversation, a participant or a message.
use kingdom.Base.{
  ℕ, suc, ◌≡◌, ◌&&◌, Bytes, bytes_eq, List, [], ◌∷◌, ◌++◌, ◌==◌, All-imp, All-append,
  Distinct-append, any, any-append, arith, ◌⊎◌, ◌∙◌, Bool-cases, inl, inr,
}
use kingdom.Database.{Db, UserRow, ParticipantRow, MessageRow}
use kingdom.Database.Users.{insert_user, user_exists}
use kingdom.Database.Conversations.{conversation_exists, insert_conversation, insert_participant}
use kingdom.Database.Messages.{insert_message}
use kingdom.Database.Validity.{Advances, same_name}
use kingdom.Database.Validity.Order.{raised, unchanged}

pub insert_user-Advances :
    (name hash key : Bytes) (db : Db) → Advances db (insert_user name hash key db).1
unfolding insert_user
insert_user-Advances name hash key db v =
    elim (Bool-cases (any (λ (u : UserRow). bytes_eq u.username name) db.users)) [
      | inl taken ↦ rw taken (
          raised db (record db { next_user = suc db.next_user }) v (omega arith) (omega arith)
            (omega arith))
      | inr free ↦ rw free (record {
        valid = record {
          users_below =
              All-append _ db.users _ (All-imp db.users (λ u h. omega arith) v.users_below)
                (omega arith, tt);
          conversations_below = v.conversations_below;
          messages_below = v.messages_below;
          names_distinct = Distinct-append same_name _ db.users v.names_distinct free;
          keys_distinct = v.keys_distinct;
          access_refers = v.access_refers;
        };
        users = omega arith;
        conversations = omega arith;
        messages = omega arith;
      })
    ]

pub insert_conversation-Advances :
    (name : Bytes) (now : ℕ) (db : Db) → Advances db (insert_conversation name now db).1
unfolding insert_conversation
insert_conversation-Advances name now db v = record {
  valid = record {
    users_below = v.users_below;
    conversations_below =
        All-append _ db.conversations _
          (All-imp db.conversations (λ u h. omega arith) v.conversations_below) (omega arith, tt);
    messages_below = v.messages_below;
    names_distinct = v.names_distinct;
    keys_distinct = v.keys_distinct;
    access_refers = v.access_refers;
  };
  users = omega arith;
  conversations = omega arith;
  messages = omega arith;
}

with_participants :
    (db : Db) (ps : List ParticipantRow) → Advances db (record db { participants = ps })
with_participants db ps v = record {
  valid = record {
    users_below = v.users_below;
    conversations_below = v.conversations_below;
    messages_below = v.messages_below;
    names_distinct = v.names_distinct;
    keys_distinct = v.keys_distinct;
    access_refers = v.access_refers;
  };
  users = omega arith;
  conversations = omega arith;
  messages = omega arith;
}

insert_participant-result :
    (c u : ℕ) (db : Db)
    → ((insert_participant c u db).1 ≡ db)
      ⊎ ((insert_participant c u db).1 ≡ record db {
        participants = db.participants ++ record { conversation_id = c; user_id = u } ∷ [];
      })
unfolding insert_participant
insert_participant-result c u db = ground arith

pub insert_participant-Advances : (c u : ℕ) (db : Db) → Advances db (insert_participant c u db).1
insert_participant-Advances c u db = elim (insert_participant-result c u db) [
  | inl e ↦ rw e (unchanged db)
  | inr e ↦ rw e (with_participants db _)
]

pub insert_message-Advances :
    (c s : ℕ) (payload : Bytes) (time : ℕ) (db : Db)
    → Advances db (insert_message c s payload time db).1
unfolding insert_message
insert_message-Advances c s payload time db v =
    elim (Bool-cases (conversation_exists c db && user_exists s db)) [
      | inr missing ↦ rw missing (
          raised db (record db { next_message = suc db.next_message }) v (omega arith) (omega arith)
            (omega arith))
      | inl known ↦ rw known (record {
        valid = record {
          users_below = v.users_below;
          conversations_below = v.conversations_below;
          messages_below =
              All-append _ db.messages _ (All-imp db.messages (λ u h. omega arith) v.messages_below)
                (omega arith, tt);
          names_distinct = v.names_distinct;
          keys_distinct = v.keys_distinct;
          access_refers =
              All-imp db.access
                (λ a h. any-append (λ (m : MessageRow). m.id == a.message_id) db.messages _ ∙ rw h)
                v.access_refers;
        };
        users = omega arith;
        conversations = omega arith;
        messages = omega arith;
      })
    ]
