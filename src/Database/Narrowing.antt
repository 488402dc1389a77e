-- ===== src/Database/Narrowing.antt =====
-- While the server runs, nobody gains access to a message that is already stored.
use kingdom.Base.{
  ℕ, ◌≡◌, ◌<◌, true, Bytes, List, [], ◌∷◌, All, All-imp, any, arith, Option, refl, sym, ◌∙◌, ap,
}
use kingdom.Outcome.{Exn, Result, ok, err}
use kingdom.Platform.{Platform}
use kingdom.Server.Keeps.{IsOrder}
use kingdom.Controller.Keeps.{Operations}
use kingdom.Database.{Db, AccessRow, MessageRow, rollback, pure, ◌>>=◌}
use kingdom.Database.Transactions.{bind-keeps, transaction-keeps, transaction-err}
use kingdom.Database.Users.{insert_user, create_user}
use kingdom.Database.Conversations.{
  insert_conversation, insert_participant, insert_participants, create_conversation,
}
use kingdom.Database.Messages.{
  consume_prekey, insert_and_grant, has_access, create_message, delete_message,
  revoke_message_access, update_message_blockchain_digest,
}
use kingdom.Database.PreKeys.{consume_one_time_pre_key}
use kingdom.Database.Audience.{AccessBelow, create_message-access, create_message-id, has_access-eq}
use kingdom.Database.Revocation.{revoke_message_access-access, delete_message-access}
use kingdom.Database.Validity.{IsValid, Advanced, Advances, names_message}
use kingdom.Database.Validity.Order.{unchanged, then-Advances}
use kingdom.Database.Validity.Operations.{
  create_user-Advances, create_conversation-Advances, create_message-Advances,
}
use kingdom.Database.Validity.Changes.{
  delete_message-Advances, revoke-Advances, update_digest-Advances,
}

-- From a valid state: the next one is valid, and who has access to a message that was stored had
-- it before.
pub record Narrowed (db db' : Db) : Type 0 where
  pub advanced : Advanced db db'
  pub access :
      (i v : ℕ) → i < db.next_message → has_access i v db' ≡ true → has_access i v db ≡ true

abbrev pub Narrows : Db → Db → Type 0
Narrows db db' = IsValid db → Narrowed db db'

Narrows-order : IsOrder Narrows
Narrows-order = record {
  same = λ db v. record { advanced = unchanged db v; access = λ i v below h. h };
  then_next = λ a b c h k v.
      let first = h v in
      let second = k first.advanced.valid in
      record {
        advanced = then-Advances a b c (λ _. first.advanced) (λ _. second.advanced) v;
        access = λ i u below x.
            first.access i u below (second.access i u (omega (arith, first.advanced.messages)) x);
      };
}

-- The rows of `message_access` stay as they are.
same_access : (db db' : Db) → Advances db db' → db'.access ≡ db.access → Narrows db db'
same_access db db' adv e v = record {
  advanced = adv v;
  access = λ i u below h. sym (has_access-eq i u db db' e) ∙ h;
}

create_user-access : (n h k : Bytes) (db : Db) → (create_user n h k db).1.access ≡ db.access
unfolding create_user insert_user
create_user-access n h k db = ground arith

-- A row names a message below the sequence.
named_below :
    (n : ℕ) (a : AccessRow) (ms : List MessageRow)
    → All (λ (m : MessageRow). m.id < n) ms
    → names_message ms a ≡ true
    → a.message_id < n
unfolding any
named_below n a [] h named = cc
named_below n a (m ∷ ms) h named = ground (arith, named_below n a ms h.1)

pub IsValid-AccessBelow : (db : Db) → IsValid db → AccessBelow db
IsValid-AccessBelow db v =
    All-imp db.access (λ a h. named_below db.next_message a db.messages v.messages_below h)
      v.access_refers

SameRows : Db → Db → Type 0
SameRows db db' = db.access ≡ db'.access

SameRows-then : (a b c : Db) → SameRows a b → SameRows b c → SameRows a c
unfolding SameRows
SameRows-then a b c h k = h ∙ k

SameRows-undo : (a b : Db) → SameRows a b → SameRows a (rollback a b)
unfolding SameRows
SameRows-undo a b h = refl

insert_participant-SameRows : (c u : ℕ) (db : Db) → SameRows db (insert_participant c u db).1
unfolding SameRows insert_participant
insert_participant-SameRows c u db = ground arith

insert_participants-SameRows :
    (c : ℕ) (us : List ℕ) (db : Db) → SameRows db (insert_participants c us db).1
unfolding SameRows insert_participants
insert_participants-SameRows c [] db = refl
insert_participants-SameRows c (u ∷ us) db =
    bind-keeps SameRows SameRows-then (insert_participant c u) (λ _. insert_participants c us)
      (insert_participant-SameRows c u) (λ _. insert_participants-SameRows c us) db

insert_conversation-SameRows :
    (name : Bytes) (now : ℕ) (db : Db) → SameRows db (insert_conversation name now db).1
unfolding SameRows insert_conversation
insert_conversation-SameRows name now db = refl

create_conversation-SameRows :
    (name : Bytes) (ids : List ℕ) (now : ℕ) (db : Db)
    → SameRows db (create_conversation name ids now db).1
unfolding SameRows create_conversation
create_conversation-SameRows name ids now = transaction-keeps SameRows SameRows-undo _ (
    bind-keeps SameRows SameRows-then (insert_conversation name now) _
      (insert_conversation-SameRows name now)
      (λ c.
        bind-keeps SameRows SameRows-then (insert_participants c ids) (λ _. pure c)
          (insert_participants-SameRows c ids) (λ _ db. refl)))

module _ (lib : Platform) (c s : ℕ) (payload : Bytes) (time : ℕ)
    (recipient pre_key : Option ℕ) where
  -- A call of `createMessage` that throws leaves every table as it was; only the sequences may have
  -- moved on.
  create_message-err :
      (db db' : Db) {e : Exn}
      → create_message (consume_one_time_pre_key lib) c s payload time recipient pre_key db
        ≡ (err e, db')
      → db' ≡ rollback db db'
  unfolding create_message
  create_message-err db db' h =
      transaction-err
        (consume_prekey (consume_one_time_pre_key lib) s recipient pre_key >>= λ _.
          insert_and_grant c s payload time recipient)
        db db' h

  create_message-keeps_out :
      (db db' : Db) (r : Result ℕ)
      → create_message (consume_one_time_pre_key lib) c s payload time recipient pre_key db
        ≡ (r, db')
      → AccessBelow db
      → (i v : ℕ) → i < db.next_message
      → has_access i v db' ≡ true
      → has_access i v db ≡ true
  create_message-keeps_out db db' (ok id) h rows i v below has = ground (
    arith,
    create_message-access lib c s payload time recipient pre_key db db' id i v rows h,
    create_message-id lib c s payload time recipient pre_key db db' id h,
  )
  create_message-keeps_out db db' (err e) h rows i v below has =
      sym (has_access-eq i v db db' (ap (λ (d : Db). d.access) (create_message-err db db' h))) ∙ has

  create_message-Narrows :
      (db : Db)
      → Narrows db
          (create_message (consume_one_time_pre_key lib) c s payload time recipient pre_key db).1
  create_message-Narrows db v = record {
    advanced = create_message-Advances lib c s payload time recipient pre_key db v;
    access = create_message-keeps_out db _ _ refl (IsValid-AccessBelow db v);
  }

delete_message-Narrows : (c m s : ℕ) (db : Db) → Narrows db (delete_message c m s db).1
delete_message-Narrows c m s db v = record {
  advanced = delete_message-Advances c m s db v;
  access = λ i u below h. ground (arith, delete_message-access c m s db i u);
}

revoke-Narrows : (c m s t at : ℕ) (db : Db) → Narrows db (revoke_message_access c m s t at db).1
revoke-Narrows c m s t at db v = record {
  advanced = revoke-Advances c m s t at db v;
  access = λ i u below h. ground (arith, revoke_message_access-access c m s t at db i u);
}

update_digest-Narrows :
    (m : ℕ) (digest : Bytes) (db : Db) → Narrows db (update_message_blockchain_digest m digest db)
unfolding update_message_blockchain_digest
update_digest-Narrows m digest db =
    same_access db (update_message_blockchain_digest m digest db)
      (update_digest-Advances m digest db) refl

pub operations : (lib : Platform) → Operations lib Narrows
unfolding SameRows
operations lib = record {
  order = Narrows-order;
  create_user_keeps = λ n h k db.
      same_access db (create_user n h k db).1 (create_user-Advances n h k db)
        (create_user-access n h k db);
  create_conversation_keeps = λ n ids now db.
      same_access db (create_conversation n ids now db).1
        (create_conversation-Advances n ids now db)
        (sym (create_conversation-SameRows n ids now db));
  create_message_keeps = create_message-Narrows lib;
  delete_message_keeps = delete_message-Narrows;
  revoke_keeps = revoke-Narrows;
  update_digest_keeps = update_digest-Narrows;
}
