-- ===== src/Database/Validity/Operations.antt =====
-- Whole operations keep the tables valid: the statements of a transaction, one after another.
use kingdom.Base.{
  ℕ, Bool, true, false, Bytes, List, [], ◌∷◌, ◌==◌, Option, none, some, if◌then◌else◌,
}
use kingdom.Outcome.{Result, runtime_error}
use kingdom.Platform.{Platform}
use kingdom.Database.{Db, MessageRow, pure, throw}
use kingdom.Database.Transactions.{bind-keeps, transaction-keeps}
use kingdom.Database.Users.{insert_user, create_user}
use kingdom.Database.Conversations.{
  insert_conversation, insert_participant, insert_participants, create_conversation,
}
use kingdom.Database.Messages.{
  insert_message, insert_access, insert_accesses, insert_group_access, insert_direct_access,
  grant_access, grant_all, init_schema, consume_prekey, grant_and_return, insert_and_grant,
  create_message,
}
use kingdom.Database.PreKeys.{consume_one_time_pre_key}
use kingdom.Database.Validity.{Advances}
use kingdom.Database.Validity.Order.{unchanged, then-Advances, undo-Advances}
use kingdom.Database.Validity.Inserts.{
  insert_user-Advances, insert_conversation-Advances, insert_participant-Advances,
  insert_message-Advances,
}
use kingdom.Database.Validity.Grants.{insert_access-Advances, consume-Advances}

pub create_user-Advances :
    (name hash key : Bytes) (db : Db) → Advances db (create_user name hash key db).1
unfolding create_user
create_user-Advances name hash key =
    transaction-keeps Advances undo-Advances (insert_user name hash key)
      (insert_user-Advances name hash key)

insert_participants-Advances :
    (c : ℕ) (us : List ℕ) (db : Db) → Advances db (insert_participants c us db).1
unfolding insert_participants
insert_participants-Advances c [] db = unchanged db
insert_participants-Advances c (u ∷ us) db =
    bind-keeps Advances then-Advances (insert_participant c u) (λ _. insert_participants c us)
      (insert_participant-Advances c u) (λ _. insert_participants-Advances c us) db

pub create_conversation-Advances :
    (name : Bytes) (ids : List ℕ) (now : ℕ) (db : Db)
    → Advances db (create_conversation name ids now db).1
unfolding create_conversation
create_conversation-Advances name ids now = transaction-keeps Advances undo-Advances _ (
    bind-keeps Advances then-Advances (insert_conversation name now) _
      (insert_conversation-Advances name now)
      (λ c.
        bind-keeps Advances then-Advances (insert_participants c ids) (λ _. pure c)
          (insert_participants-Advances c ids) (λ _. unchanged)))

insert_accesses-Advances :
    (m g : ℕ) (us : List ℕ) (db : Db) → Advances db (insert_accesses m us g db).1
unfolding insert_accesses
insert_accesses-Advances m g [] db = unchanged db
insert_accesses-Advances m g (u ∷ us) db =
    bind-keeps Advances then-Advances (insert_access m u g) (λ _. insert_accesses m us g)
      (insert_access-Advances m u g) (λ _. insert_accesses-Advances m g us) db

if-Advances :
    (test : Bool) (m k : Db → Result (Unit {0}) × Db)
    → ((db : Db) → Advances db (m db).1)
    → ((db : Db) → Advances db (k db).1)
    → (db : Db) → Advances db ((if test then m else k) db).1
if-Advances true m k hm hk = hm
if-Advances false m k hm hk = hk

grant_access-Advances :
    (m c s : ℕ) (recipient : Option ℕ) (db : Db) → Advances db (grant_access m c s recipient db).1
unfolding grant_access insert_group_access insert_direct_access
grant_access-Advances m c s none db = insert_accesses-Advances m s _ db
grant_access-Advances m c s (some r) db =
    bind-keeps Advances then-Advances (insert_access m s s) _ (insert_access-Advances m s s)
      (λ _.
        if-Advances (r == s) (pure tt) (insert_access m r s) unchanged
          (insert_access-Advances m r s))
      db

insert_and_grant-Advances :
    (c s : ℕ) (payload : Bytes) (time : ℕ) (recipient : Option ℕ) (db : Db)
    → Advances db (insert_and_grant c s payload time recipient db).1
unfolding insert_and_grant grant_and_return
insert_and_grant-Advances c s payload time recipient =
    bind-keeps Advances then-Advances (insert_message c s payload time) _
      (insert_message-Advances c s payload time)
      (λ m.
        bind-keeps Advances then-Advances (grant_access m c s recipient) (λ _. pure m)
          (grant_access-Advances m c s recipient) (λ _. unchanged))

found-Advances :
    (found : Bool) (db : Db)
    → Advances db
        ((if found then pure tt else throw (runtime_error "one-time prekey not found")) db).1
found-Advances true db = unchanged db
found-Advances false db = unchanged db

consume_prekey-Advances :
    (lib : Platform) (s : ℕ) (recipient pre_key : Option ℕ) (db : Db)
    → Advances db (consume_prekey (consume_one_time_pre_key lib) s recipient pre_key db).1
unfolding consume_prekey
consume_prekey-Advances lib s none pre_key db = unchanged db
consume_prekey-Advances lib s (some r) none db = unchanged db
consume_prekey-Advances lib s (some r) (some k) db =
    if-Advances (r == s) (pure tt) _ unchanged
      (bind-keeps Advances then-Advances (consume_one_time_pre_key lib r k) _
        (consume-Advances lib r k) found-Advances)
      db

pub create_message-Advances :
    (lib : Platform) (c s : ℕ) (payload : Bytes) (time : ℕ) (recipient pre_key : Option ℕ) (db : Db)
    → Advances db
        (create_message (consume_one_time_pre_key lib) c s payload time recipient pre_key db).1
unfolding create_message
create_message-Advances lib c s payload time recipient pre_key =
    transaction-keeps Advances undo-Advances _ (
      bind-keeps Advances then-Advances
        (consume_prekey (consume_one_time_pre_key lib) s recipient pre_key) _
        (consume_prekey-Advances lib s recipient pre_key)
        (λ _. insert_and_grant-Advances c s payload time recipient))

grant_all-Advances : (ms : List MessageRow) (db : Db) → Advances db (grant_all ms db).1
unfolding grant_all insert_group_access grant_access
grant_all-Advances [] db = unchanged db
grant_all-Advances (m ∷ ms) db =
    bind-keeps Advances then-Advances (insert_group_access m.id m.conversation_id m.sender_id) _
      (grant_access-Advances m.id m.conversation_id m.sender_id none) (λ _. grant_all-Advances ms)
      db

pub init_schema-Advances : (db : Db) → Advances db (init_schema db).1
unfolding init_schema
init_schema-Advances db =
    transaction-keeps Advances undo-Advances (grant_all db.messages)
      (grant_all-Advances db.messages) db
