-- ===== src/Database/Startup.antt =====
-- `initSchema_`, which every start of the server runs: Database.cc lines 65-71.
use kingdom.Base.{
  ℕ, ◌≡◌, sym, ap, ◌∙◌, Bool, not, ◌&&◌, ◌||◌, ◌⊎◌, inl, inr, refl, List, [], ◌∷◌, arith, any, ◌==◌,
}
use kingdom.Outcome.{Result, ok, err, IsErr}
use kingdom.Database.{Db, MessageRow, rollback}
use kingdom.Database.Transactions.{
  bind-ok, transaction-ok, transaction-err, bind-keeps, transaction-keeps,
}
use kingdom.Database.Conversations.{is_participant}
use kingdom.Database.Messages.{
  has_access, insert_access, insert_accesses, insert_group_access, participant_ids, grant_all,
  init_schema,
}
use kingdom.Database.Access.{
  has_row, has_row-insert_accesses, has_access-insert_accesses, is_member-participant_ids, same_row,
}

-- The tables and sequences that rows of `message_access` leave alone.
pub record SameButAccess (db db' : Db) : Type 0 where
  pub users : db'.users ≡ db.users
  pub conversations : db'.conversations ≡ db.conversations
  pub participants : db'.participants ≡ db.participants
  pub messages : db'.messages ≡ db.messages
  pub next_user : db'.next_user ≡ db.next_user
  pub next_conversation : db'.next_conversation ≡ db.next_conversation
  pub next_message : db'.next_message ≡ db.next_message

pub insert_access-SameButAccess :
    (m u g : ℕ) (db : Db) → SameButAccess db (insert_access m u g db).1
unfolding insert_access
insert_access-SameButAccess m u g db = ground arith

pub insert_accesses-SameButAccess :
    (m g : ℕ) (us : List ℕ) (db : Db) → SameButAccess db (insert_accesses m us g db).1
unfolding insert_accesses
insert_accesses-SameButAccess m g [] db = ground arith
insert_accesses-SameButAccess m g (u ∷ us) db = ground (
  arith,
  insert_access-SameButAccess m u g db,
  insert_accesses-SameButAccess m g us (insert_access m u g db).1,
)

module _ (m c g i v : ℕ) (db db' : Db) (h : insert_group_access m c g db ≡ (ok tt, db')) where
  group_row : has_row i v db' ≡ (has_row i v db || (m == i && is_participant c v db))
  unfolding insert_group_access is_participant
  group_row = ground (
    arith,
    has_row-insert_accesses m g i v (participant_ids c db.participants) db db' h,
    is_member-participant_ids c v db.participants,
  )

  group_access :
      has_access i v db'
      ≡ (has_access i v db || (m == i && is_participant c v db && not (has_row m v db)))
  unfolding insert_group_access is_participant
  group_access = ground (
    arith,
    has_access-insert_accesses m g i v (participant_ids c db.participants) db db' h,
    is_member-participant_ids c v db.participants,
  )

  group_participants : db'.participants ≡ db.participants
  unfolding insert_group_access
  group_participants =
      ap (λ (r : Result Unit × Db). r.1.participants) (sym h)
      ∙ (insert_accesses-SameButAccess m g (participant_ids c db.participants) db).participants

is_participant-eq :
    (c v : ℕ) (db db' : Db)
    → db'.participants ≡ db.participants
    → is_participant c v db' ≡ is_participant c v db
unfolding is_participant
is_participant-eq c v db db' e = rw e

-- A message of the list with that id whose conversation the user is in.
abbrev pub is_reached : ℕ → ℕ → Db → MessageRow → Bool
is_reached i v db m = m.id == i && is_participant m.conversation_id v db

any_reached-eq :
    (i v : ℕ) (db db' : Db) (ms : List MessageRow)
    → db'.participants ≡ db.participants
    → any (is_reached i v db') ms ≡ any (is_reached i v db) ms
unfolding is_participant
any_reached-eq i v db db' ms e = rw e

grant_all-access :
    (i v : ℕ) (ms : List MessageRow) (db db' : Db)
    → grant_all ms db ≡ (ok tt, db')
    → has_access i v db'
      ≡ (has_access i v db || (not (has_row i v db) && any (is_reached i v db) ms))
unfolding grant_all any
grant_all-access i v [] db db' h = ground arith
grant_all-access i v (m ∷ ms) db db' h =
    let (_, mid, first, rest) =
      bind-ok (insert_group_access m.id m.conversation_id m.sender_id) (λ _. grant_all ms) db db'
        h in
    let same = group_participants m.id m.conversation_id m.sender_id i v db mid first in
    ground (
      arith,
      group_row m.id m.conversation_id m.sender_id i v db mid first,
      group_access m.id m.conversation_id m.sender_id i v db mid first,
      grant_all-access i v ms mid db' rest,
      any_reached-eq i v db mid ms same,
      same_row m.id v i v db,
      same_row i v m.id v db,
    )

SameButAccess-then : (a b c : Db) → SameButAccess a b → SameButAccess b c → SameButAccess a c
SameButAccess-then a b c h k = record {
  users = k.users ∙ h.users;
  conversations = k.conversations ∙ h.conversations;
  participants = k.participants ∙ h.participants;
  messages = k.messages ∙ h.messages;
  next_user = k.next_user ∙ h.next_user;
  next_conversation = k.next_conversation ∙ h.next_conversation;
  next_message = k.next_message ∙ h.next_message;
}

SameButAccess-undo : (a b : Db) → SameButAccess a b → SameButAccess a (rollback a b)
SameButAccess-undo a b h = record {
  users = refl;
  conversations = refl;
  participants = refl;
  messages = refl;
  next_user = h.next_user;
  next_conversation = h.next_conversation;
  next_message = h.next_message;
}

insert_group_access-SameButAccess :
    (m c g : ℕ) (db : Db) → SameButAccess db (insert_group_access m c g db).1
unfolding insert_group_access
insert_group_access-SameButAccess m c g db =
    insert_accesses-SameButAccess m g (participant_ids c db.participants) db

grant_all-SameButAccess : (ms : List MessageRow) (db : Db) → SameButAccess db (grant_all ms db).1
unfolding grant_all
grant_all-SameButAccess [] db = ground arith
grant_all-SameButAccess (m ∷ ms) db =
    bind-keeps SameButAccess SameButAccess-then
      (insert_group_access m.id m.conversation_id m.sender_id) (λ _. grant_all ms)
      (insert_group_access-SameButAccess m.id m.conversation_id m.sender_id)
      (λ _. grant_all-SameButAccess ms) db

init_schema-SameButAccess : (db : Db) → SameButAccess db (init_schema db).1
unfolding init_schema
init_schema-SameButAccess db =
    transaction-keeps SameButAccess SameButAccess-undo (grant_all db.messages)
      (grant_all-SameButAccess db.messages) db

-- What a start says of the rows of access: it throws and leaves them, or it returns and gives access
-- to the participants without a row.
abbrev pub IsStarted : ℕ → ℕ → Db → Result (Unit {0}) × Db → Type 0
IsStarted i v db (r, db') =
    (IsErr r × (db'.access ≡ db.access))
    ⊎ ((r ≡ ok tt)
        × (has_access i v db'
            ≡ (has_access i v db || (not (has_row i v db) && any (is_reached i v db) db.messages))))

started : (i v : ℕ) (db : Db) (r : Result (Unit {0}) × Db) → init_schema db ≡ r → IsStarted i v db r
unfolding init_schema
started i v db (ok tt, db') h = inr (
  refl,
  grant_all-access i v db.messages db db' (transaction-ok (grant_all db.messages) db db' h),
)
started i v db (err e, db') h =
    inl ((e, refl), ap (λ (d : Db). d.access) (transaction-err (grant_all db.messages) db db' h))

-- A start of the server changes no user, conversation, participant, message or sequence, whether it
-- throws or not. If it throws, it changes no row of access either. If not, it gives access to a
-- message to each participant of its conversation that has no row for it, and changes no access
-- where a row is there, revoked or not.
pub init_schema-access :
    (i v : ℕ) (db : Db) → SameButAccess db (init_schema db).1 × IsStarted i v db (init_schema db)
init_schema-access i v db = (init_schema-SameButAccess db, started i v db (init_schema db) refl)
