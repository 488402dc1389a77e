-- ===== src/Database/Accounts.antt =====
-- Creating a user and finding it again.
use kingdom.Base.{
  ℕ, ◌≡◌, Bytes, bytes_eq, bytes_eq_refl, Bool, true, false, some, List, [], ◌∷◌, ◌++◌, any,
  find_if, arith,
}
use kingdom.Outcome.{ok, err, runtime_error}
use kingdom.Database.{Db, UserRow}
use kingdom.Database.Users.{insert_user, create_user, get_user_by_username}

abbrev named : Bytes → UserRow → Bool
named name u = bytes_eq u.username name

find-append :
    (name : Bytes) (u : UserRow) (us : List UserRow)
    → any (named name) us ≡ false
    → bytes_eq u.username name ≡ true
    → find_if (named name) (us ++ u ∷ []) ≡ some u
unfolding any find_if
find-append name u [] h e = ground arith
find-append name u (w ∷ us) h e = ground (arith, find-append name u us)

taken_after :
    (name : Bytes) (u : UserRow) (us : List UserRow)
    → bytes_eq u.username name ≡ true
    → any (named name) (us ++ u ∷ []) ≡ true
unfolding any
taken_after name u [] e = ground arith
taken_after name u (w ∷ us) e = ground (arith, taken_after name u us)

module _ (name hash key : Bytes) (db db' : Db) (id : ℕ)
    (made : create_user name hash key db ≡ (ok id, db')) where
  row : UserRow
  row = record { id = id; username = name; password_hash = hash; public_key = some key }

  created : (any (named name) db.users ≡ false) × (db'.users ≡ db.users ++ row ∷ [])
  unfolding create_user insert_user row
  created = ground (arith, made)

  -- A user that was created is found by its name, with the id that was returned, the hash and the
  -- key.
  pub get_user_by_username-create_user :
      get_user_by_username name db'
      ≡ some (record { id = id; username = name; password_hash = hash; public_key = key })
  unfolding get_user_by_username row
  get_user_by_username-create_user =
      ground (arith, created, find-append name row db.users, bytes_eq_refl name)

  -- The name of a user that was created is taken: a second user with it is refused, and no user is
  -- added.
  pub create_user-create_user :
      (hash' key' : Bytes)
      → ((create_user name hash' key' db').0 ≡ err (runtime_error "Username already taken"))
        × ((create_user name hash' key' db').1.users ≡ db'.users)
  unfolding create_user insert_user row
  create_user-create_user hash' key' =
      ground (arith, created, taken_after name row db.users, bytes_eq_refl name)
