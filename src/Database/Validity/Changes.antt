-- ===== src/Database/Validity/Changes.antt =====
-- Deleting a message, revoking access and recording a digest.
use kingdom.Base.{
  ℕ, ◌≡◌, ◌<◌, Bool, true, ◌&&◌, not, Bytes, List, [], ◌∷◌, ◌==◌, All, All-imp, All-map,
  All-keep_if, All-keep_if_passing, Distinct-map, Distinct-keep_if, any, arith, keep_if, map, refl,
  ◌∙◌, Bool-cases, inl, inr,
}
use kingdom.Database.{Db, MessageRow, AccessRow}
use kingdom.Database.Messages.{
  delete_message, revoke_message_access, revoke_row, set_digest, update_message_blockchain_digest,
  is_sent, is_revocable,
}
use kingdom.Database.Validity.{Advances, names_message, same_key}

-- A row that the cascade leaves names a message that the deletion leaves.
still_named :
    (c m s : ℕ) (a : AccessRow) (ms : List MessageRow)
    → names_message ms a ≡ true
    → not (any (λ (r : MessageRow). is_sent c m s r && r.id == a.message_id) ms) ≡ true
    → names_message (keep_if (λ (r : MessageRow). not (is_sent c m s r)) ms) a ≡ true
unfolding any keep_if
still_named c m s a [] h k = h
still_named c m s a (r ∷ ms) h k = ground (arith, still_named c m s a ms)

pub delete_message-Advances : (c m s : ℕ) (db : Db) → Advances db (delete_message c m s db).1
unfolding delete_message
delete_message-Advances c m s db v = record {
  valid = record {
    users_below = v.users_below;
    conversations_below = v.conversations_below;
    messages_below = All-keep_if _ _ db.messages v.messages_below;
    names_distinct = v.names_distinct;
    keys_distinct = Distinct-keep_if same_key _ db.access v.keys_distinct;
    access_refers =
        All-imp (keep_if _ db.access) (λ a h. still_named c m s a db.messages h.0 h.1)
          (All-keep_if_passing (λ (a : AccessRow). names_message db.messages a ≡ true) _ db.access
            v.access_refers);
  };
  users = omega arith;
  conversations = omega arith;
  messages = omega arith;
}

revoke_row-key :
    (hit : AccessRow → Bool) (at : ℕ) (a b : AccessRow)
    → same_key (revoke_row hit at a) (revoke_row hit at b) ≡ same_key a b
unfolding revoke_row
revoke_row-key hit at a b = ground arith

revoke_row-named :
    (hit : AccessRow → Bool) (at : ℕ) (ms : List MessageRow) (a : AccessRow)
    → names_message ms a ≡ true
    → names_message ms (revoke_row hit at a) ≡ true
unfolding revoke_row
revoke_row-named hit at ms a h = elim (Bool-cases (hit a)) [ inl e ↦ rw e h | inr e ↦ rw e h ]

pub revoke-Advances :
    (c m s t at : ℕ) (db : Db) → Advances db (revoke_message_access c m s t at db).1
unfolding revoke_message_access
revoke-Advances c m s t at db v =
    let hit = is_revocable c m s t db in
    record {
      valid = record {
        users_below = v.users_below;
        conversations_below = v.conversations_below;
        messages_below = v.messages_below;
        names_distinct = v.names_distinct;
        keys_distinct =
            Distinct-map same_key (revoke_row hit at) db.access (revoke_row-key hit at)
              v.keys_distinct;
        access_refers =
            All-map (λ (a : AccessRow). names_message db.messages a ≡ true) (revoke_row hit at)
              db.access
              (All-imp db.access (λ a h. revoke_row-named hit at db.messages a h) v.access_refers);
      };
      users = omega arith;
      conversations = omega arith;
      messages = omega arith;
    }

set_digest-rows :
    (id n : ℕ) (digest : Bytes) (ms : List MessageRow)
    → All (λ (m : MessageRow). m.id < n) ms
    → All (λ (m : MessageRow). m.id < n) (map (set_digest id digest) ms)
unfolding set_digest
set_digest-rows id n digest [] h = tt
set_digest-rows id n digest (m ∷ ms) h = (ground arith, set_digest-rows id n digest ms h.1)

set_digest-names :
    (id : ℕ) (digest : Bytes) (a : AccessRow) (ms : List MessageRow)
    → names_message (map (set_digest id digest) ms) a ≡ names_message ms a
unfolding set_digest any
set_digest-names id digest a [] = refl
set_digest-names id digest a (m ∷ ms) = ground (arith, set_digest-names id digest a ms)

pub update_digest-Advances :
    (m : ℕ) (digest : Bytes) (db : Db) → Advances db (update_message_blockchain_digest m digest db)
unfolding update_message_blockchain_digest
update_digest-Advances m digest db v = record {
  valid = record {
    users_below = v.users_below;
    conversations_below = v.conversations_below;
    messages_below = set_digest-rows m db.next_message digest db.messages v.messages_below;
    names_distinct = v.names_distinct;
    keys_distinct = v.keys_distinct;
    access_refers =
        All-imp db.access (λ a h. set_digest-names m digest a db.messages ∙ h) v.access_refers;
  };
  users = omega arith;
  conversations = omega arith;
  messages = omega arith;
}
