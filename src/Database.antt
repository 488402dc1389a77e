-- ===== src/Database.antt =====
-- kds/src/db/Database.cc: the tables that its schema creates, and a transaction on them.
-- Ids stand for the BIGINT column and the `uint64_t` alike: the cast between them is a bijection.
pub mod Users
pub mod ArrayText
pub mod Conversations
pub mod Messages
pub mod PreKeys
pub mod Transactions
pub mod Access
pub mod Audience
pub mod Revocation
pub mod Startup
pub mod Validity
pub mod Narrowing
pub mod Listing
pub mod Accounts
use kingdom.Base.{ℕ, Bytes, Option, List, []}
use kingdom.Outcome.{Exn, Result, ok, err}

pub record UserRow : Type 0 where
  pub id : ℕ
  pub username : Bytes
  pub password_hash : Bytes
  pub public_key : Option Bytes

pub record ConversationRow : Type 0 where
  pub id : ℕ
  pub name : Bytes
  pub created_at : ℕ

pub record ParticipantRow : Type 0 where
  pub conversation_id : ℕ
  pub user_id : ℕ

pub record MessageRow : Type 0 where
  pub id : ℕ
  pub conversation_id : ℕ
  pub sender_id : ℕ
  pub payload : Bytes
  pub timestamp : ℕ
  pub blockchain_digest : Bytes

pub record AccessRow : Type 0 where
  pub message_id : ℕ
  pub user_id : ℕ
  pub granted_by : ℕ
  pub revoked_at : Option ℕ

-- The tables, and the next value of each BIGSERIAL sequence.
pub record Db : Type 0 where
  pub users : List UserRow
  pub conversations : List ConversationRow
  pub participants : List ParticipantRow
  pub messages : List MessageRow
  pub access : List AccessRow
  pub next_user : ℕ
  pub next_conversation : ℕ
  pub next_message : ℕ

-- Statements inside a transaction: on an error the second part is what was written so far.
abbrev pub Txn : Type 0 → Type 0
Txn A = Db → Result A × Db

abbrev pub continue : {A B : Type 0} → Result A → (A → Txn B) → Txn B
continue (ok a) f db = f a db
continue (err e) f db = (err e, db)

infixl 5 ◌>>=◌ ◌>>◌
abbrev pub ◌>>=◌ : {A B : Type 0} → Txn A → (A → Txn B) → Txn B
◌>>=◌ m f db = continue (m db).0 f (m db).1

abbrev pub ◌>>◌ : {B : Type 0} → Txn (Unit {0}) → Txn B → Txn B
m >> k = m >>= λ _. k

abbrev pub pure : {A : Type 0} → A → Txn A
pure a db = (ok a, db)

abbrev pub throw : {A : Type 0} → Exn → Txn A
throw e db = (err e, db)

-- A rollback restores the tables; a sequence does not go back.
abbrev pub rollback : Db → Db → Db
rollback before after = record before {
  next_user = after.next_user;
  next_conversation = after.next_conversation;
  next_message = after.next_message;
}

abbrev pub close : {A : Type 0} → Db → Result A × Db → Result A × Db
close before (ok a, after) = (ok a, after)
close before (err e, after) = (err e, rollback before after)

-- `pqxx::work txn ... txn.commit()`: an exception leaves the block without a commit.
abbrev pub transaction : {A : Type 0} → Txn A → Txn A
transaction body before = close before (body before)

abbrev pub empty : Db
empty = record {
  users = [];
  conversations = [];
  participants = [];
  messages = [];
  access = [];
  next_user = 1;
  next_conversation = 1;
  next_message = 1;
}
