-- ===== src/Database/Revocation.antt =====
-- What taking access back, deleting a message and starting the server again do to the access that
-- the users have.
use kingdom.Base.{
  ℕ, ◌≡◌, refl, ◌∙◌, Bool, not, ◌&&◌, List, [], ◌∷◌, arith, any, any-map, any-keep_if, ◌==◌,
}
use kingdom.Database.{Db, AccessRow, MessageRow}
use kingdom.Database.Messages.{
  has_key, has_access, is_live, is_sent, is_message_sender, is_revocable, revoke_row,
  revoke_message_access, delete_message,
}
use kingdom.Database.Access.{has_row}

module _ (c m s : ℕ) where
  -- The join with `messages` asks for the message's id and for a message of the sender.
  joined-eq :
      (x : ℕ) (ms : List MessageRow)
      → any (λ (r : MessageRow). x == r.id && is_sent c m s r) ms
        ≡ (x == m && any (is_sent c m s) ms)
  unfolding any
  joined-eq x [] = ground arith
  joined-eq x (r ∷ ms) = ground (arith, joined-eq x ms)

module _ (c m s t at : ℕ) (db : Db) where
  abbrev hit : AccessRow → Bool
  hit = is_revocable c m s t db

  -- The sender takes back somebody else's access.
  abbrev pub may_revoke : Bool
  may_revoke = is_message_sender c m s db && not (t == s)

  revoke_rows :
      (i v : ℕ) (rows : List AccessRow)
      → any
          (λ (a : AccessRow). has_key i v (revoke_row hit at a) && is_live (revoke_row hit at a))
          rows
        ≡ (any (λ (a : AccessRow). has_key i v a && is_live a) rows
            && not (may_revoke && (m == i && t == v)))
  unfolding any revoke_row is_message_sender
  revoke_rows i v [] = refl
  revoke_rows i v (a ∷ rows) =
      ground (arith, revoke_rows i v rows, joined-eq c m s a.message_id db.messages)

  -- Revoking takes the access of one user to one message, if the message is the caller's and the
  -- user another; all other access is as before.
  pub revoke_message_access-access :
      (i v : ℕ)
      → has_access i v (revoke_message_access c m s t at db).1
        ≡ (has_access i v db && not (may_revoke && (m == i && t == v)))
  unfolding has_access revoke_message_access
  revoke_message_access-access i v =
      any-map (λ (a : AccessRow). has_key i v a && is_live a) (revoke_row hit at) db.access
      ∙ revoke_rows i v db.access

module _ (c m s t at : ℕ) (db : Db) where
  revoke_rows_keep :
      (i v : ℕ) (rows : List AccessRow)
      → any (λ (a : AccessRow). has_key i v (revoke_row (hit c m s t at db) at a)) rows
        ≡ any (has_key i v) rows
  unfolding any revoke_row
  revoke_rows_keep i v [] = refl
  revoke_rows_keep i v (a ∷ rows) = ground (arith, revoke_rows_keep i v rows)

  -- The row of a revoked pair stays, marked.
  pub revoke_message_access-row :
      (i v : ℕ) → has_row i v (revoke_message_access c m s t at db).1 ≡ has_row i v db
  unfolding has_row revoke_message_access
  revoke_message_access-row i v =
      any-map (has_key i v) (revoke_row (hit c m s t at db) at) db.access
      ∙ revoke_rows_keep i v db.access

module _ (c m s : ℕ) (db : Db) where
  deleted_rows :
      (x : ℕ) (ms : List MessageRow)
      → any (λ (r : MessageRow). is_sent c m s r && r.id == x) ms
        ≡ (m == x && any (is_sent c m s) ms)
  unfolding any
  deleted_rows x [] = ground arith
  deleted_rows x (r ∷ ms) = ground (arith, deleted_rows x ms)

  cascade_rows :
      (i v : ℕ) (rows : List AccessRow)
      → any
          (λ (a : AccessRow).
            not (any (λ (r : MessageRow). is_sent c m s r && r.id == a.message_id) db.messages)
            && (has_key i v a && is_live a))
          rows
        ≡ (any (λ (a : AccessRow). has_key i v a && is_live a) rows
            && not (is_message_sender c m s db && m == i))
  unfolding any is_message_sender
  cascade_rows i v [] = refl
  cascade_rows i v (a ∷ rows) =
      ground (arith, cascade_rows i v rows, deleted_rows a.message_id db.messages)

  -- Deleting takes everybody's access to the message, if it is the caller's; all other access is
  -- as before.
  pub delete_message-access :
      (i v : ℕ)
      → has_access i v (delete_message c m s db).1
        ≡ (has_access i v db && not (is_message_sender c m s db && m == i))
  unfolding has_access delete_message
  delete_message-access i v =
      any-keep_if (λ (a : AccessRow). has_key i v a && is_live a)
        (λ (a : AccessRow).
          not (any (λ (r : MessageRow). is_sent c m s r && r.id == a.message_id) db.messages))
        db.access
      ∙ cascade_rows i v db.access
