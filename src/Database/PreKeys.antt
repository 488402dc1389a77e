-- ===== src/Database/PreKeys.antt =====
-- consumeOneTimePreKeyInTransaction: Database.cc lines 156-184.
use kingdom.Base.{
  ℕ, Bytes, Bool, true, false, ◌&&◌, Option, none, some, List, [], ◌∷◌, map, find_if, length, ◌==◌,
  if◌then◌else◌, value_or,
}
use kingdom.Outcome.{Result, ok, err, other_error}
use kingdom.Platform.{Platform}
use kingdom.Database.{UserRow, Db, Txn}

unfoldable pub set_public_key : ℕ → Bytes → UserRow → UserRow
set_public_key user_id key u = if u.id == user_id then record u { public_key = some key } else u

-- UPDATE users SET public_key = $1 WHERE id = $2
unfoldable pub update_public_key : ℕ → Bytes → Db → Db
update_public_key user_id key db = record db { users = map (set_public_key user_id key) db.users }

module _ (lib : Platform) where
  open lib use {
    Json, parse, dump, is_object, is_array, contains, index, set_index, elements, array, get_uint64,
  }

  -- The test of `remove_if`; an id that is no number throws.
  unfoldable pub is_pre_key : ℕ → Json → Result Bool
  is_pre_key pre_key_id key =
      if is_object key && contains key "id"
      then elim (get_uint64 (index key "id")) [
        | none ↦ err other_error
        | some n ↦ ok (n == pre_key_id)
      ]
      else ok false

  keep_key : Json → Result Bool → Result (List Json) → Result (List Json)
  keep_key key (err e) rest = err e
  keep_key key (ok hit) (err e) = err e
  keep_key key (ok hit) (ok keys) = ok (if hit then keys else key ∷ keys)

  -- `remove_if` and `erase`.
  unfoldable pub remove_pre_key : ℕ → List Json → Result (List Json)
  unfolding keep_key
  remove_pre_key pre_key_id [] = ok []
  remove_pre_key pre_key_id (key ∷ keys) =
      keep_key key (is_pre_key pre_key_id key) (remove_pre_key pre_key_id keys)

  -- The bundle holds an array of one-time prekeys.
  unfoldable pub has_pre_keys : Json → Bool
  has_pre_keys bundle =
      is_object bundle
      && contains bundle "oneTimePreKeys"
      && is_array (index bundle "oneTimePreKeys")

  unfoldable pub store_keys : ℕ → Json → Result (List Json) → Txn Bool
  store_keys user_id bundle (err e) db = (err e, db)
  store_keys user_id bundle (ok keys) db =
      if length keys == length (elements (index bundle "oneTimePreKeys")) then (ok false, db) else (
        ok true,
        update_public_key user_id (dump (set_index bundle "oneTimePreKeys" (array keys))) db,
      )

  unfoldable pub consume_from : ℕ → ℕ → Option Json → Txn Bool
  unfolding store_keys
  consume_from user_id pre_key_id none db = (ok false, db)
  consume_from user_id pre_key_id (some bundle) db =
      if has_pre_keys bundle
      then store_keys user_id bundle
          (remove_pre_key pre_key_id (elements (index bundle "oneTimePreKeys"))) db
      else (ok false, db)

  unfoldable pub consume_one_time_pre_key : ℕ → ℕ → Txn Bool
  unfolding consume_from
  consume_one_time_pre_key user_id pre_key_id db =
      elim (find_if (λ (u : UserRow). u.id == user_id) db.users) [
        | none ↦ (ok false, db)
        | some u ↦ consume_from user_id pre_key_id (parse (value_or u.public_key [])) db
      ]
