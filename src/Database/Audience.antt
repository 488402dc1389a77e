-- ===== src/Database/Audience.antt =====
-- The audience of a new message: who has access once `createMessage` has committed.
use kingdom.Base.{
  ℕ, Bytes, ◌≡◌, refl, subst, ◌<◌, inl, inr, Bool, Bool-cases, false, not, ◌&&◌, ◌||◌, Option, none,
  some, List, [], ◌∷◌, arith, any, ◌==◌, if◌then◌else◌, All,
}
use kingdom.Outcome.{ok}
use kingdom.Platform.{Platform}
use kingdom.Database.{Db, AccessRow, Txn, pure, ◌>>=◌}
use kingdom.Database.Transactions.{bind-ok, transaction-ok}
use kingdom.Database.Conversations.{is_participant}
use kingdom.Database.Messages.{
  insert_message, insert_access, insert_group_access, insert_direct_access, grant_access,
  participant_ids, has_key, has_access, consume_prekey, create_message, insert_and_grant,
  grant_and_return,
}
use kingdom.Database.PreKeys.{consume_one_time_pre_key, update_public_key}
use kingdom.Database.Access.{
  has_row, has_row-insert_access, has_access-insert_access, has_access-insert_accesses,
  is_member-participant_ids,
}

-- The tables that a change of the users leaves alone.
pub record SameMessages (db db' : Db) : Type 0 where
  pub participants : db'.participants ≡ db.participants
  pub messages : db'.messages ≡ db.messages
  pub access : db'.access ≡ db.access
  pub next_message : db'.next_message ≡ db.next_message

pub consume_one_time_pre_key-SameMessages :
    (lib : Platform) (u k : ℕ) (db : Db) → SameMessages db (consume_one_time_pre_key lib u k db).1
unfolding consume_one_time_pre_key update_public_key
consume_one_time_pre_key-SameMessages lib u k db = ground arith

module _ (lib : Platform) (sender : ℕ) where
  pub consume_prekey-SameMessages :
      (recipient pre_key : Option ℕ) (db : Db)
      → SameMessages db
          (consume_prekey (consume_one_time_pre_key lib) sender recipient pre_key db).1
  unfolding consume_prekey
  consume_prekey-SameMessages none pre_key db = ground arith
  consume_prekey-SameMessages (some r) none db = ground arith
  consume_prekey-SameMessages (some r) (some k) db =
      ground (arith, consume_one_time_pre_key-SameMessages lib r k db)

-- Who a message is for: the sender and the recipient, or the participants of the conversation.
unfoldable pub is_audience : ℕ → ℕ → Option ℕ → Db → ℕ → Bool
is_audience conv_id sender none db v = is_participant conv_id v db
is_audience conv_id sender (some r) db v = v == sender || v == r

-- No row for a message that is not there yet.
abbrev pub AccessBelow : Db → Type 0
AccessBelow db = All (λ (a : AccessRow). a.message_id < db.next_message) db.access

fresh_rows :
    (n v : ℕ) (rows : List AccessRow)
    → All (λ (a : AccessRow). a.message_id < n) rows
    → any (has_key n v) rows ≡ false
unfolding any
fresh_rows n v [] h = refl
fresh_rows n v (a ∷ rows) h = ground (arith, fresh_rows n v rows h.1)

fresh_message : (v : ℕ) (db : Db) → AccessBelow db → has_row db.next_message v db ≡ false
unfolding has_row
fresh_message v db below = fresh_rows db.next_message v db.access below

second_insert : ℕ → ℕ → ℕ → Txn (Unit {0})
second_insert m sender r = if r == sender then pure tt else insert_access m r sender

has_access-second_insert :
    (m sender r i v : ℕ) (db db' : Db)
    → second_insert m sender r db ≡ (ok tt, db')
    → has_access i v db'
      ≡ (has_access i v db || (not (r == sender) && (not (has_row m r db) && (m == i && r == v))))
unfolding second_insert
has_access-second_insert m sender r i v db db' h = elim (Bool-cases (r == sender)) [
  | inl e ↦ ground arith
  | inr e ↦ rw e (has_access-insert_access m r sender db db' (rw e at h) i v)
]

-- A granted pair is one that had access, or a member of the audience and the new message.
module _ (m c sender i v : ℕ) (db db' : Db) (fresh : (u : ℕ) → has_row m u db ≡ false) where
  group-access :
      insert_group_access m c sender db ≡ (ok tt, db')
      → has_access i v db' ≡ (has_access i v db || (m == i && is_participant c v db))
  unfolding insert_group_access is_participant
  group-access h = ground (
    arith,
    has_access-insert_accesses m sender i v (participant_ids c db.participants) db db' h,
    is_member-participant_ids c v db.participants,
    fresh v,
  )

  direct-access :
      (r : ℕ)
      → insert_direct_access m sender r db ≡ (ok tt, db')
      → has_access i v db' ≡ (has_access i v db || (m == i && (v == sender || v == r)))
  unfolding insert_direct_access second_insert
  direct-access r h =
      let (_, mid, first, rest) =
        bind-ok (insert_access m sender sender) (λ _. second_insert m sender r) db db' h in
      ground (
        arith,
        has_access-insert_access m sender sender db mid first i v,
        has_row-insert_access m sender sender db mid first m r,
        has_access-second_insert m sender r i v mid db' rest,
        fresh sender,
        fresh r,
      )

  grant-access :
      (recipient : Option ℕ)
      → grant_access m c sender recipient db ≡ (ok tt, db')
      → has_access i v db' ≡ (has_access i v db || (m == i && is_audience c sender recipient db v))
  unfolding grant_access is_audience
  grant-access none h = group-access h
  grant-access (some r) h = direct-access r h

insert_message-ok :
    (c sender : ℕ) (payload : Bytes) (time id : ℕ) (db db' : Db)
    → insert_message c sender payload time db ≡ (ok id, db')
    → (id ≡ db.next_message) × (db'.access ≡ db.access) × (db'.participants ≡ db.participants)
unfolding insert_message
insert_message-ok c sender payload time id db db' h = ground arith

-- What depends on the rows of `message_access` or on the participants alone.
has_row-eq : (i v : ℕ) (db db' : Db) → db'.access ≡ db.access → has_row i v db' ≡ has_row i v db
unfolding has_row
has_row-eq i v db db' e = rw e

pub has_access-eq :
    (i v : ℕ) (db db' : Db) → db'.access ≡ db.access → has_access i v db' ≡ has_access i v db
unfolding has_access
has_access-eq i v db db' e = rw e

is_audience-eq :
    (c sender : ℕ) (recipient : Option ℕ) (v : ℕ) (db db' : Db)
    → db'.participants ≡ db.participants
    → is_audience c sender recipient db' v ≡ is_audience c sender recipient db v
unfolding is_audience is_participant
is_audience-eq c sender none v db db' e = rw e
is_audience-eq c sender (some r) v db db' e = refl

module _ (c sender : ℕ) (payload : Bytes) (time : ℕ) (recipient : Option ℕ) where
  insert_and_grant-access :
      (db db' : Db) (id i v : ℕ)
      → AccessBelow db
      → insert_and_grant c sender payload time recipient db ≡ (ok id, db')
      → has_access i v db' ≡ (has_access i v db || (id == i && is_audience c sender recipient db v))
  unfolding insert_and_grant grant_and_return
  insert_and_grant-access db db' id i v below h =
      let (m, mid, inserted, rest) =
        bind-ok (insert_message c sender payload time) (grant_and_return c sender recipient) db db'
          h in
      let (_, mid', granted, last) =
        bind-ok (grant_access m c sender recipient) (λ _. pure m) mid db' rest in
      let (drawn, access, participants) =
        insert_message-ok c sender payload time m db mid inserted in
      let fresh : (u : ℕ) → has_row m u mid ≡ false =
        λ u. rw (has_row-eq m u db mid access, drawn) (fresh_message u db below) in
      ground (
        arith,
        grant-access m c sender i v mid mid' fresh recipient granted,
        has_access-eq i v db mid access,
        is_audience-eq c sender recipient v db mid participants,
      )

module _ (lib : Platform) (c sender : ℕ) (payload : Bytes) (time : ℕ)
    (recipient pre_key : Option ℕ) where
  -- If the rows of `message_access` name no message beyond the sequence and the call succeeds, then
  -- access to the new message is held by its audience (the sender and the recipient, or without a
  -- recipient the participants) and by no one else, and all other access is as before.
  pub create_message-access :
      (db db' : Db) (id i v : ℕ)
      → AccessBelow db
      → create_message (consume_one_time_pre_key lib) c sender payload time recipient pre_key db
        ≡ (ok id, db')
      → has_access i v db' ≡ (has_access i v db || (id == i && is_audience c sender recipient db v))
  unfolding create_message
  create_message-access db db' id i v below h =
      let consume = consume_prekey (consume_one_time_pre_key lib) sender recipient pre_key in
      let insert = insert_and_grant c sender payload time recipient in
      let (_, mid, consumed, rest) =
        bind-ok consume (λ _. insert) db db' (transaction-ok (consume >>= λ _. insert) db db' h) in
      let same : SameMessages db mid =
        subst (λ r. SameMessages db r) (λ k. (consumed k).1)
          (consume_prekey-SameMessages lib sender recipient pre_key db) in
      let below' : AccessBelow mid = rw (same.access, same.next_message) below in
      ground (
        arith,
        insert_and_grant-access c sender payload time recipient mid db' id i v below' rest,
        has_access-eq i v db mid same.access,
        is_audience-eq c sender recipient v db mid same.participants,
      )

  -- The id is the next of the sequence.
  pub create_message-id :
      (db db' : Db) (id : ℕ)
      → create_message (consume_one_time_pre_key lib) c sender payload time recipient pre_key db
        ≡ (ok id, db')
      → id ≡ db.next_message
  unfolding create_message insert_and_grant grant_and_return
  create_message-id db db' id h =
      let consume = consume_prekey (consume_one_time_pre_key lib) sender recipient pre_key in
      let insert = insert_and_grant c sender payload time recipient in
      let (_, mid, consumed, rest) =
        bind-ok consume (λ _. insert) db db' (transaction-ok (consume >>= λ _. insert) db db' h) in
      let (m, mid', inserted, rest') =
        bind-ok (insert_message c sender payload time) (grant_and_return c sender recipient) mid db'
          rest in
      let (_, mid'', granted, last) =
        bind-ok (grant_access m c sender recipient) (λ _. pure m) mid' db' rest' in
      let same : SameMessages db mid =
        subst (λ r. SameMessages db r) (λ k. (consumed k).1)
          (consume_prekey-SameMessages lib sender recipient pre_key db) in
      ground (arith, insert_message-ok c sender payload time m mid mid' inserted, same.next_message)
