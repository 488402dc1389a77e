-- ===== src/Database/Messages.antt =====
-- The `messages` and `message_access` tables: Database.cc lines 258-436.
use kingdom.Base.{
  ℕ, suc, Bytes, strip_prefix, Bool, not, Option, none, some, List, [], ◌∷◌, ◌++◌, map, any,
  keep_if, length, is_some, ◌==◌, ◌&&◌, leb, if◌then◌else◌, codes,
}
use kingdom.Outcome.{ok, err, sql_error, runtime_error}
use kingdom.Database.{
  ParticipantRow, MessageRow, AccessRow, Db, Txn, pure, throw, transaction, ◌>>=◌, ◌>>◌,
}
use kingdom.Database.Users.{user_exists}
use kingdom.Database.Conversations.{conversation_exists}

-- INSERT INTO messages ... RETURNING id, under its two references.
unfoldable pub insert_message : ℕ → ℕ → Bytes → ℕ → Txn ℕ
insert_message conv_id sender_id payload timestamp db =
    let drawn : Db = record db { next_message = suc db.next_message } in
    let row : MessageRow = record {
      id = db.next_message;
      conversation_id = conv_id;
      sender_id = sender_id;
      payload = payload;
      timestamp = timestamp;
      blockchain_digest = [];
    } in
    if conversation_exists conv_id db && user_exists sender_id db
    then (ok db.next_message, record drawn { messages = db.messages ++ row ∷ [] })
    else (err sql_error, drawn)

unfoldable pub message_exists : ℕ → Db → Bool
message_exists msg_id db = any (λ (m : MessageRow). m.id == msg_id) db.messages

-- The primary key of `message_access`.
abbrev pub has_key : ℕ → ℕ → AccessRow → Bool
has_key msg_id user_id a = a.message_id == msg_id && a.user_id == user_id

-- INSERT INTO message_access ... ON CONFLICT (message_id, user_id) DO NOTHING, under its references.
unfoldable pub insert_access : ℕ → ℕ → ℕ → Txn (Unit {0})
unfolding message_exists
insert_access msg_id user_id granted_by db =
    let row : AccessRow = record {
      message_id = msg_id;
      user_id = user_id;
      granted_by = granted_by;
      revoked_at = none;
    } in
    if any (has_key msg_id user_id) db.access
    then (ok tt, db)
    else if message_exists msg_id db && user_exists user_id db && user_exists granted_by db
    then (ok tt, record db { access = db.access ++ row ∷ [] })
    else (err sql_error, db)

unfoldable pub insert_accesses : ℕ → List ℕ → ℕ → Txn (Unit {0})
insert_accesses msg_id [] granted_by = pure tt
insert_accesses msg_id (uid ∷ uids) granted_by = do
  insert_access msg_id uid granted_by
  insert_accesses msg_id uids granted_by

-- SELECT user_id FROM conversation_participants WHERE conversation_id = $2
abbrev pub participant_ids : ℕ → List ParticipantRow → List ℕ
participant_ids conv_id rows =
    map (λ (p : ParticipantRow). p.user_id)
      (keep_if (λ (p : ParticipantRow). p.conversation_id == conv_id) rows)

-- INSERT INTO message_access ... SELECT user_id ... FROM conversation_participants
unfoldable pub insert_group_access : ℕ → ℕ → ℕ → Txn (Unit {0})
insert_group_access msg_id conv_id granted_by db =
    insert_accesses msg_id (participant_ids conv_id db.participants) granted_by db

-- The access rows of a message to one recipient.
unfoldable pub insert_direct_access : ℕ → ℕ → ℕ → Txn (Unit {0})
insert_direct_access msg_id sender_id recipient_id = do
  insert_access msg_id sender_id sender_id
  if recipient_id == sender_id then pure tt else insert_access msg_id recipient_id sender_id

unfoldable pub grant_access : ℕ → ℕ → ℕ → Option ℕ → Txn (Unit {0})
unfolding insert_group_access insert_direct_access
grant_access msg_id conv_id sender_id none = insert_group_access msg_id conv_id sender_id
grant_access msg_id conv_id sender_id (some recipient_id) =
    insert_direct_access msg_id sender_id recipient_id

-- `consumeOneTimePreKeyInTransaction` is handed over as `consume`.
unfoldable pub consume_prekey : (ℕ → ℕ → Txn Bool) → ℕ → Option ℕ → Option ℕ → Txn (Unit {0})
consume_prekey consume sender_id (some recipient_id) (some pre_key_id) =
    if recipient_id == sender_id then pure tt else do
      found ← consume recipient_id pre_key_id
      if found then pure tt else throw (runtime_error "one-time prekey not found")
consume_prekey consume sender_id recipient_id pre_key_id = pure tt

-- The rows of `message_access`, and the id that `createMessage` returns.
unfoldable pub grant_and_return : ℕ → ℕ → Option ℕ → ℕ → Txn ℕ
grant_and_return conv_id sender_id recipient_id msg_id = do
  grant_access msg_id conv_id sender_id recipient_id
  pure msg_id

unfoldable pub insert_and_grant : ℕ → ℕ → Bytes → ℕ → Option ℕ → Txn ℕ
insert_and_grant conv_id sender_id payload timestamp recipient_id = do
  msg_id ← insert_message conv_id sender_id payload timestamp
  grant_and_return conv_id sender_id recipient_id msg_id

unfoldable pub create_message : (ℕ → ℕ → Txn Bool) → ℕ → ℕ → Bytes → ℕ → Option ℕ → Option ℕ → Txn ℕ
create_message consume conv_id sender_id payload timestamp recipient_id pre_key_id = transaction (do
  consume_prekey consume sender_id recipient_id pre_key_id
  insert_and_grant conv_id sender_id payload timestamp recipient_id)

-- ORDER BY timestamp ASC
unfoldable pub insert_by_time : MessageRow → List MessageRow → List MessageRow
insert_by_time m [] = m ∷ []
insert_by_time m (n ∷ ns) =
    if leb m.timestamp n.timestamp then m ∷ n ∷ ns else n ∷ insert_by_time m ns

unfoldable pub sort_by_time : List MessageRow → List MessageRow
unfolding insert_by_time
sort_by_time [] = []
sort_by_time (m ∷ ms) = insert_by_time m (sort_by_time ms)

unfoldable pub get_messages_by_conversation_id : ℕ → Db → List MessageRow
get_messages_by_conversation_id conv_id db =
    sort_by_time (keep_if (λ (m : MessageRow). m.conversation_id == conv_id) db.messages)

-- ma.revoked_at IS NULL
abbrev pub is_live : AccessRow → Bool
is_live a = not (is_some a.revoked_at)

-- A row of `message_access` for the pair that is not revoked.
unfoldable pub has_access : ℕ → ℕ → Db → Bool
has_access msg_id user_id db =
    any (λ (a : AccessRow). has_key msg_id user_id a && is_live a) db.access

-- The join meets a message at most once, since (message_id, user_id) is the key of the rows.
unfoldable pub get_messages_by_conversation_id_for_user : ℕ → ℕ → Db → List MessageRow
get_messages_by_conversation_id_for_user conv_id user_id db = sort_by_time (
    keep_if (λ (m : MessageRow). m.conversation_id == conv_id && has_access m.id user_id db)
      db.messages)

abbrev pub is_sent : ℕ → ℕ → ℕ → MessageRow → Bool
is_sent conv_id msg_id sender_id m =
    m.id == msg_id && m.conversation_id == conv_id && m.sender_id == sender_id

-- DELETE FROM messages; ON DELETE CASCADE takes the access rows of what it removes.
unfoldable pub delete_message : ℕ → ℕ → ℕ → Db → Bool × Db
delete_message conv_id msg_id sender_id db =
    let hit : MessageRow → Bool = is_sent conv_id msg_id sender_id in
    (
      length (keep_if hit db.messages) == 1,
      record db {
        messages = keep_if (λ (m : MessageRow). not (hit m)) db.messages;
        access =
            keep_if
              (λ (a : AccessRow).
                not (any (λ (m : MessageRow). hit m && m.id == a.message_id) db.messages))
              db.access;
      },
    )

unfoldable pub is_message_sender : ℕ → ℕ → ℕ → Db → Bool
is_message_sender conv_id msg_id sender_id db = any (is_sent conv_id msg_id sender_id) db.messages

-- The WHERE clause of the update.
abbrev pub is_revocable : ℕ → ℕ → ℕ → ℕ → Db → AccessRow → Bool
is_revocable conv_id msg_id sender_id target_id db a =
    any (λ (m : MessageRow). a.message_id == m.id && is_sent conv_id msg_id sender_id m) db.messages
    && a.user_id == target_id
    && not (a.user_id == sender_id)
    && is_live a

unfoldable pub revoke_row : (AccessRow → Bool) → ℕ → AccessRow → AccessRow
revoke_row hit revoked_at a = if hit a then record a { revoked_at = some revoked_at } else a

unfoldable pub revoke_message_access : ℕ → ℕ → ℕ → ℕ → ℕ → Db → Bool × Db
revoke_message_access conv_id msg_id sender_id target_id revoked_at db =
    let hit : AccessRow → Bool = is_revocable conv_id msg_id sender_id target_id db in
    (
      length (keep_if hit db.access) == 1,
      record db { access = map (revoke_row hit revoked_at) db.access },
    )

unfoldable pub set_digest : ℕ → Bytes → MessageRow → MessageRow
set_digest msg_id digest m = if m.id == msg_id then record m { blockchain_digest = digest } else m

unfoldable pub update_message_blockchain_digest : ℕ → Bytes → Db → Db
update_message_blockchain_digest msg_id digest db = record db {
  messages = map (set_digest msg_id digest) db.messages;
}

-- `kPendingPrefix`.
abbrev pub pending_prefix : Bytes
pending_prefix = codes "pending:"

pending_rows : List MessageRow → List (ℕ × Bytes)
pending_rows [] = []
pending_rows (m ∷ ms) =
    let rest = pending_rows ms in
    elim (strip_prefix pending_prefix m.blockchain_digest) [
      | none ↦ rest
      | some pending_id ↦ (m.id, pending_id) ∷ rest
    ]

unfoldable pub get_pending_blockchain_messages : Db → List (ℕ × Bytes)
unfolding pending_rows
get_pending_blockchain_messages db = pending_rows db.messages

-- The statement of `initSchema_` that fills `message_access`:
-- SELECT m.id, cp.user_id, m.sender_id FROM messages m JOIN conversation_participants cp ...
-- ON CONFLICT (message_id, user_id) DO NOTHING
unfoldable pub grant_all : List MessageRow → Txn (Unit {0})
grant_all [] = pure tt
grant_all (m ∷ ms) = do insert_group_access m.id m.conversation_id m.sender_id; grant_all ms

-- The CREATE TABLE IF NOT EXISTS statements change nothing where the tables are there.
unfoldable pub init_schema : Txn (Unit {0})
init_schema db = transaction (grant_all db.messages) db
