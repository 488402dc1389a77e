-- ===== src/Database/Validity/Order.antt =====
-- The order in which the sequences and the validity of the tables go on, and rollbacks in it.
use kingdom.Base.{◌≤◌, All-imp, arith}
use kingdom.Database.{Db, rollback}
use kingdom.Database.Validity.{IsValid, Advanced, Advances}

-- Sequences that went ahead leave the rows below them.
pub raised :
    (a b : Db)
    → IsValid a
    → a.next_user ≤ b.next_user
    → a.next_conversation ≤ b.next_conversation
    → a.next_message ≤ b.next_message
    → Advanced a (rollback a b)
raised a b v hu hc hm = record {
  valid = record {
    users_below = All-imp a.users (λ u h. omega arith) v.users_below;
    conversations_below = All-imp a.conversations (λ c h. omega arith) v.conversations_below;
    messages_below = All-imp a.messages (λ m h. omega arith) v.messages_below;
    names_distinct = v.names_distinct;
    keys_distinct = v.keys_distinct;
    access_refers = v.access_refers;
  };
  users = hu;
  conversations = hc;
  messages = hm;
}

pub unchanged : (a : Db) → Advances a a
unchanged a v = record {
  valid = v;
  users = omega arith;
  conversations = omega arith;
  messages = omega arith;
}

pub then-Advances : (a b c : Db) → Advances a b → Advances b c → Advances a c
then-Advances a b c h k v =
    let first = h v in
    let second = k first.valid in
    record {
      valid = second.valid;
      users = omega (arith, first.users, second.users);
      conversations = omega (arith, first.conversations, second.conversations);
      messages = omega (arith, first.messages, second.messages);
    }

pub undo-Advances : (a b : Db) → Advances a b → Advances a (rollback a b)
undo-Advances a b h v = let r = h v in raised a b v r.users r.conversations r.messages
