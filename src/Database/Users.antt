-- ===== src/Database/Users.antt =====
-- The `users` table: Database.cc lines 76-149.
use kingdom.Base.{
  ℕ, suc, Bytes, bytes_eq, Bool, true, false, Option, none, some, List, [], ◌∷◌, ◌++◌, map, any,
  find_if, ◌==◌, leb, if◌then◌else◌, value_or,
}
use kingdom.Outcome.{ok, err, runtime_error}
use kingdom.Database.{UserRow, Db, Txn, transaction}

-- `User` of libkd: id, username, password hash and public key.
pub record User : Type 0 where
  pub id : ℕ
  pub username : Bytes
  pub password_hash : Bytes
  pub public_key : Bytes

-- INSERT INTO users ... RETURNING id, under UNIQUE (username).
unfoldable pub insert_user : Bytes → Bytes → Bytes → Txn ℕ
insert_user name hash key db =
    let drawn : Db = record db { next_user = suc db.next_user } in
    let row : UserRow = record {
      id = db.next_user;
      username = name;
      password_hash = hash;
      public_key = some key;
    } in
    if any (λ (u : UserRow). bytes_eq u.username name) db.users
    then (err (runtime_error "Username already taken"), drawn)
    else (ok db.next_user, record drawn { users = db.users ++ row ∷ [] })

unfoldable pub create_user : Bytes → Bytes → Bytes → Txn ℕ
create_user name hash key = transaction (insert_user name hash key)

abbrev from_row : UserRow → User
from_row u = record {
  id = u.id;
  username = u.username;
  password_hash = u.password_hash;
  public_key = value_or u.public_key [];
}

unfoldable pub get_user_by_username : Bytes → Db → Option User
get_user_by_username name db = elim (find_if (λ (u : UserRow). bytes_eq u.username name) db.users) [
  | none ↦ none
  | some u ↦ some (from_row u)
]

-- ORDER BY id ASC
insert_by_id : UserRow → List UserRow → List UserRow
insert_by_id u [] = u ∷ []
insert_by_id u (v ∷ vs) = if leb u.id v.id then u ∷ v ∷ vs else v ∷ insert_by_id u vs

sort_by_id : List UserRow → List UserRow
sort_by_id [] = []
sort_by_id (u ∷ us) = insert_by_id u (sort_by_id us)

-- SELECT id, username: the other members of `User` keep their defaults.
unfoldable pub get_all_users : Db → List User
unfolding sort_by_id insert_by_id
get_all_users db =
    map
      (λ (u : UserRow). record {
        id = u.id;
        username = u.username;
        password_hash = [];
        public_key = [];
      })
      (sort_by_id db.users)

unfoldable pub get_user_public_key : ℕ → Db → Option Bytes
get_user_public_key user_id db = elim (find_if (λ (u : UserRow). u.id == user_id) db.users) [
  | none ↦ none
  | some u ↦ some (value_or u.public_key [])
]

unfoldable pub user_exists : ℕ → Db → Bool
user_exists user_id db = any (λ (u : UserRow). u.id == user_id) db.users

unfoldable pub users_exist : List ℕ → Db → Bool
users_exist [] db = true
users_exist (u ∷ us) db = if user_exists u db then users_exist us db else false
