-- ===== src/Database/Access.antt =====
-- Who may read a message: `message_access` under the statements that write it.
use kingdom.Base.{
  ℕ, ◌≡◌, ◌∙◌, ◌⊎◌, inl, inr, Bool, true, false, not, ◌&&◌, ◌||◌, none, List, [], ◌∷◌, ◌++◌, arith,
  any, any-append, any-map, any-keep_if, keep_if, ◌==◌,
}
use kingdom.Outcome.{ok}
use kingdom.Database.{Db, AccessRow, ParticipantRow}
use kingdom.Database.Transactions.{bind-ok}
use kingdom.Database.Messages.{
  insert_access, insert_accesses, participant_ids, has_key, has_access, is_live,
}

-- A row for the pair, revoked or not.
unfoldable pub has_row : ℕ → ℕ → Db → Bool
has_row msg_id user_id db = any (has_key msg_id user_id) db.access

-- What a statement that succeeds has done, with its three tests.
abbrev new_row : ℕ → ℕ → ℕ → AccessRow
new_row m u g = record { message_id = m; user_id = u; granted_by = g; revoked_at = none }

insert_access_cases :
    (m u g : ℕ) (db db' : Db)
    → insert_access m u g db ≡ (ok tt, db')
    → ((has_row m u db ≡ true) × (db' ≡ db))
      ⊎ ((has_row m u db ≡ false) × (db' ≡ record db { access = db.access ++ new_row m u g ∷ [] }))
unfolding has_row insert_access
insert_access_cases m u g db db' inserted = ground arith

module _ (m u g i v : ℕ) (db : Db) where
  abbrev with_row : Db
  with_row = record db { access = db.access ++ new_row m u g ∷ [] }

  has_row-with_row : has_row i v with_row ≡ (has_row i v db || (m == i && u == v))
  unfolding has_row any
  has_row-with_row = ground (arith, any-append (has_key i v) db.access (new_row m u g ∷ []))

  has_access-with_row : has_access i v with_row ≡ (has_access i v db || (m == i && u == v))
  unfolding has_access any
  has_access-with_row = ground (
    arith,
    any-append (λ (a : AccessRow). has_key i v a && is_live a) db.access (new_row m u g ∷ []),
  )

-- A row for the same pair is a row for the pair.
pub same_row :
    (m u i v : ℕ) (db : Db) → has_row m u db ≡ true → m ≡ i → u ≡ v → has_row i v db ≡ true
same_row m u i v db h p q = rw (← p, ← q) h

module _ (m u g : ℕ) (db db' : Db) (inserted : insert_access m u g db ≡ (ok tt, db')) where
  pub has_row-insert_access : (i v : ℕ) → has_row i v db' ≡ (has_row i v db || (m == i && u == v))
  has_row-insert_access i v = elim (insert_access_cases m u g db db' inserted) [
    | inl (old, e) ↦ rw e (ground (arith, same_row m u i v db))
    | inr (new, e) ↦ rw e (has_row-with_row m u g i v db)
  ]

  pub has_access-insert_access :
      (i v : ℕ)
      → has_access i v db' ≡ (has_access i v db || (not (has_row m u db) && (m == i && u == v)))
  has_access-insert_access i v = elim (insert_access_cases m u g db db' inserted) [
    | inl (old, e) ↦ rw e (ground arith)
    | inr (new, e) ↦ rw e (ground (arith, has_access-with_row m u g i v db))
  ]

unfoldable pub is_member : ℕ → List ℕ → Bool
is_member v us = any (λ (u : ℕ). u == v) us

-- After the rows of a list of users, the pairs with a row and the pairs with access.
module _ (m g i v : ℕ) where
  pub has_row-insert_accesses :
      (us : List ℕ) (db db' : Db)
      → insert_accesses m us g db ≡ (ok tt, db')
      → has_row i v db' ≡ (has_row i v db || (m == i && is_member v us))
  unfolding insert_accesses is_member any
  has_row-insert_accesses [] db db' h = ground arith
  has_row-insert_accesses (u ∷ us) db db' h =
      let (_, mid, first, rest) =
        bind-ok (insert_access m u g) (λ _. insert_accesses m us g) db db' h in
      ground (
        arith,
        has_row-insert_access m u g db mid first i v,
        has_row-insert_accesses us mid db' rest,
      )

  pub has_access-insert_accesses :
      (us : List ℕ) (db db' : Db)
      → insert_accesses m us g db ≡ (ok tt, db')
      → has_access i v db'
        ≡ (has_access i v db || (m == i && is_member v us && not (has_row m v db)))
  unfolding insert_accesses is_member any
  has_access-insert_accesses [] db db' h = ground arith
  has_access-insert_accesses (u ∷ us) db db' h =
      let (_, mid, first, rest) =
        bind-ok (insert_access m u g) (λ _. insert_accesses m us g) db db' h in
      ground (
        arith,
        has_access-insert_access m u g db mid first i v,
        has_row-insert_access m u g db mid first m v,
        has_access-insert_accesses us mid db' rest,
        same_row m u m v db,
        same_row m v m u db,
      )

pub is_member-participant_ids :
    (c v : ℕ) (rows : List ParticipantRow)
    → is_member v (participant_ids c rows)
      ≡ any (λ (p : ParticipantRow). p.conversation_id == c && p.user_id == v) rows
unfolding is_member
is_member-participant_ids c v rows =
    any-map (λ (u : ℕ). u == v) (λ (p : ParticipantRow). p.user_id)
      (keep_if (λ (p : ParticipantRow). p.conversation_id == c) rows)
    ∙ any-keep_if _ _ rows
