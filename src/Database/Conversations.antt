-- ===== src/Database/Conversations.antt =====
-- The `conversations` and `conversation_participants` tables: Database.cc lines 188-256, 415-424.
use kingdom.Base.{
  ℕ, suc, Bytes, Bool, List, [], ◌∷◌, ◌++◌, map, any, keep_if, ◌==◌, ◌&&◌, if◌then◌else◌,
}
use kingdom.Outcome.{ok, err, sql_error}
use kingdom.Database.{ConversationRow, ParticipantRow, Db, Txn, pure, transaction, ◌>>=◌, ◌>>◌}
use kingdom.Database.ArrayText.{parse_array}
use kingdom.Database.Users.{user_exists}

-- `kd::Conversation`.
pub record Conversation : Type 0 where
  pub id : ℕ
  pub name : Bytes
  pub participant_ids : List ℕ
  pub created_at : ℕ

-- INSERT INTO conversations ... RETURNING id
unfoldable pub insert_conversation : Bytes → ℕ → Txn ℕ
insert_conversation name now db =
    let row : ConversationRow = record {
      id = db.next_conversation;
      name = name;
      created_at = now;
    } in
    (
      ok db.next_conversation,
      record db {
        conversations = db.conversations ++ row ∷ [];
        next_conversation = suc db.next_conversation;
      },
    )

unfoldable pub conversation_exists : ℕ → Db → Bool
conversation_exists conv_id db = any (λ (c : ConversationRow). c.id == conv_id) db.conversations

-- SELECT 1 FROM conversation_participants WHERE conversation_id = $1 AND user_id = $2
unfoldable pub is_participant : ℕ → ℕ → Db → Bool
is_participant conv_id user_id db =
    any (λ (p : ParticipantRow). p.conversation_id == conv_id && p.user_id == user_id)
      db.participants

-- INSERT INTO conversation_participants, under its primary key and its two references.
unfoldable pub insert_participant : ℕ → ℕ → Txn (Unit {0})
insert_participant conv_id user_id db =
    if is_participant conv_id user_id db
    then (err sql_error, db)
    else if conversation_exists conv_id db && user_exists user_id db
    then (
      ok tt,
      record db {
        participants =
            db.participants ++ record { conversation_id = conv_id; user_id = user_id } ∷ [];
      },
    )
    else (err sql_error, db)

unfoldable pub insert_participants : ℕ → List ℕ → Txn (Unit {0})
insert_participants conv_id [] = pure tt
insert_participants conv_id (uid ∷ uids) = do
  insert_participant conv_id uid
  insert_participants conv_id uids

unfoldable pub create_conversation : Bytes → List ℕ → ℕ → Txn ℕ
create_conversation name participant_ids now = transaction (do
  conv_id ← insert_conversation name now
  insert_participants conv_id participant_ids
  pure conv_id)

-- array_agg(cp2.user_id)
abbrev members : ℕ → Db → List ℕ
members conv_id db =
    map (λ (p : ParticipantRow). p.user_id)
      (keep_if (λ (p : ParticipantRow). p.conversation_id == conv_id) db.participants)

-- One row for each conversation of the user, in no order that the statement asks for. The database
-- writes the array: `array_text` is its text for the ids.
unfoldable pub get_conversations_by_user_id : (List ℕ → Bytes) → ℕ → Db → List Conversation
unfolding parse_array
get_conversations_by_user_id array_text user_id db =
    map
      (λ (c : ConversationRow). record {
        id = c.id;
        name = c.name;
        participant_ids = parse_array (array_text (members c.id db));
        created_at = c.created_at;
      })
      (keep_if (λ (c : ConversationRow). is_participant c.id user_id db) db.conversations)
