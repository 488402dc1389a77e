-- ===== src/Database/Validity/Grants.antt =====
-- The statements on `message_access` and on the prekeys of a user.
use kingdom.Base.{
  ℕ, ◌≡◌, ◌<◌, true, false, Bytes, List, [], ◌∷◌, ◌++◌, ◌==◌, All, All-append, Distinct-append,
  Distinct-map, any, arith, Option, none, some, map, length, find_if, Option-cases, ◌⊎◌, Bool-cases,
  inl, inr,
}
use kingdom.Outcome.{Result, ok, err}
use kingdom.Platform.{Platform}
use kingdom.Database.{Db, UserRow, AccessRow}
use kingdom.Database.Messages.{message_exists, has_key, insert_access}
use kingdom.Database.PreKeys.{
  store_keys, consume_from, has_pre_keys, consume_one_time_pre_key, set_public_key,
  update_public_key,
}
use kingdom.Database.Validity.{Advances, names_message, same_key, same_name}
use kingdom.Database.Validity.Order.{unchanged}

abbrev granted_row : ℕ → ℕ → ℕ → AccessRow
granted_row m u g = record { message_id = m; user_id = u; granted_by = g; revoked_at = none }

with_access :
    (m u g : ℕ) (db : Db)
    → any (has_key m u) db.access ≡ false
    → message_exists m db ≡ true
    → Advances db (record db { access = db.access ++ granted_row m u g ∷ [] })
unfolding message_exists
with_access m u g db new known v = record {
  valid = record {
    users_below = v.users_below;
    conversations_below = v.conversations_below;
    messages_below = v.messages_below;
    names_distinct = v.names_distinct;
    keys_distinct = Distinct-append same_key (granted_row m u g) db.access v.keys_distinct new;
    access_refers =
        All-append (λ (a : AccessRow). names_message db.messages a ≡ true) db.access _
          v.access_refers (known, tt);
  };
  users = omega arith;
  conversations = omega arith;
  messages = omega arith;
}

insert_access-result :
    (m u g : ℕ) (db : Db)
    → ((insert_access m u g db).1 ≡ db)
      ⊎ ((any (has_key m u) db.access ≡ false)
          × (message_exists m db ≡ true)
          × ((insert_access m u g db).1
              ≡ record db { access = db.access ++ granted_row m u g ∷ [] }))
unfolding insert_access
insert_access-result m u g db = ground arith

pub insert_access-Advances : (m u g : ℕ) (db : Db) → Advances db (insert_access m u g db).1
insert_access-Advances m u g db = elim (insert_access-result m u g db) [
  | inl e ↦ rw e (unchanged db)
  | inr (new, known, e) ↦ rw e (with_access m u g db new known)
]

set_public_key-rows :
    (user_id n : ℕ) (key : Bytes) (us : List UserRow)
    → All (λ (u : UserRow). u.id < n) us
    → All (λ (u : UserRow). u.id < n) (map (set_public_key user_id key) us)
unfolding set_public_key
set_public_key-rows user_id n key [] h = tt
set_public_key-rows user_id n key (u ∷ us) h =
    (ground arith, set_public_key-rows user_id n key us h.1)

set_public_key-name :
    (user_id : ℕ) (key : Bytes) (u w : UserRow)
    → same_name (set_public_key user_id key u) (set_public_key user_id key w) ≡ same_name u w
unfolding set_public_key
set_public_key-name user_id key u w = ground arith

pub update_public_key-Advances :
    (user_id : ℕ) (key : Bytes) (db : Db) → Advances db (update_public_key user_id key db)
unfolding update_public_key
update_public_key-Advances user_id key db v = record {
  valid = record {
    users_below = set_public_key-rows user_id db.next_user key db.users v.users_below;
    conversations_below = v.conversations_below;
    messages_below = v.messages_below;
    names_distinct =
        Distinct-map same_name (set_public_key user_id key) db.users
          (set_public_key-name user_id key) v.names_distinct;
    keys_distinct = v.keys_distinct;
    access_refers = v.access_refers;
  };
  users = omega arith;
  conversations = omega arith;
  messages = omega arith;
}

module _ (lib : Platform) (u : ℕ) where
  pub store_keys-Advances :
      (bundle : lib.Json) (kept : Result (List lib.Json)) (db : Db)
      → Advances db (store_keys lib u bundle kept db).1
  unfolding store_keys
  store_keys-Advances bundle (err e) db = unchanged db
  store_keys-Advances bundle (ok keys) db =
      elim (Bool-cases (length keys == length (lib.elements (lib.index bundle "oneTimePreKeys")))) [
        | inl e ↦ rw e (unchanged db)
        | inr e ↦ rw e (update_public_key-Advances u _ db)
      ]

  pub consume_from-Advances :
      (k : ℕ) (parsed : Option lib.Json) (db : Db) → Advances db (consume_from lib u k parsed db).1
  unfolding consume_from
  consume_from-Advances k none db = unchanged db
  consume_from-Advances k (some bundle) db = elim (Bool-cases (has_pre_keys lib bundle)) [
    | inl e ↦ rw e (store_keys-Advances bundle _ db)
    | inr e ↦ rw e (unchanged db)
  ]

  pub consume-Advances : (k : ℕ) (db : Db) → Advances db (consume_one_time_pre_key lib u k db).1
  unfolding consume_one_time_pre_key
  consume-Advances k db = elim (Option-cases (find_if (λ (w : UserRow). w.id == u) db.users)) [
    | inl e ↦ rw (consume_one_time_pre_key, e) (unchanged db)
    | inr (w, e) ↦ rw (consume_one_time_pre_key, e) (consume_from-Advances k _ db)
  ]
