-- ===== src/Database/Validity.antt =====
-- The invariant of the tables: every id is below its sequence, user names and the pairs of
-- `message_access` are unique, and every row of `message_access` names a message that is there.
pub mod Order
pub mod Inserts
pub mod Grants
pub mod Changes
pub mod Operations
use kingdom.Base.{
  ℕ, suc, ◌≡◌, ◌<◌, ◌≤◌, Bool, true, false, ◌&&◌, Bytes, bytes_eq, List, ◌==◌, All, Distinct, any,
}
use kingdom.Database.{Db, UserRow, ConversationRow, MessageRow, AccessRow, empty, rollback}
use kingdom.Database.Messages.{message_exists, has_key}

abbrev pub same_name : UserRow → UserRow → Bool
same_name u w = bytes_eq u.username w.username

abbrev pub same_key : AccessRow → AccessRow → Bool
same_key a b = has_key b.message_id b.user_id a

-- A message of the list with that id.
abbrev pub names_message : List MessageRow → AccessRow → Bool
names_message ms a = any (λ (m : MessageRow). m.id == a.message_id) ms

pub record IsValid (db : Db) : Type 0 where
  pub users_below : All (λ (u : UserRow). u.id < db.next_user) db.users
  pub conversations_below :
      All (λ (c : ConversationRow). c.id < db.next_conversation) db.conversations
  pub messages_below : All (λ (m : MessageRow). m.id < db.next_message) db.messages
  pub names_distinct : Distinct same_name db.users
  pub keys_distinct : Distinct same_key db.access
  pub access_refers : All (λ (a : AccessRow). names_message db.messages a ≡ true) db.access

-- A valid state stays valid, and no sequence goes back.
pub record Advanced (db db' : Db) : Type 0 where
  pub valid : IsValid db'
  pub users : db.next_user ≤ db'.next_user
  pub conversations : db.next_conversation ≤ db'.next_conversation
  pub messages : db.next_message ≤ db'.next_message

abbrev pub Advances : Db → Db → Type 0
Advances db db' = IsValid db → Advanced db db'
