-- ===== src/Database/Listing.antt =====
-- What a member of a conversation is shown, and in which order.
use kingdom.Base.{
  ℕ, ◌≡◌, ◌⊎◌, ◌↔◌, ◌≤◌, Bool, true, ◌&&◌, List, [], ◌∷◌, All, All-imp, Member, mem-keep_if,
  keep_if, leb, ◌==◌, arith, inl, inr, Bool-cases,
}
use kingdom.Database.{Db, MessageRow}
use kingdom.Database.Messages.{
  insert_by_time, sort_by_time, has_access, get_messages_by_conversation_id_for_user,
}

-- No message stands before an earlier one.
abbrev pub InOrder : List MessageRow → Type 0
InOrder [] = Unit
InOrder (m ∷ ms) = All (λ (n : MessageRow). m.timestamp ≤ n.timestamp) ms × InOrder ms

Member-insert_by_time :
    (x m : MessageRow) (ms : List MessageRow)
    → Member x (insert_by_time m ms) ↔ ((m ≡ x) ⊎ Member x ms)
unfolding insert_by_time
Member-insert_by_time x m [] = ground arith
Member-insert_by_time x m (n ∷ ns) = ground (arith, Member-insert_by_time x m ns)

Member-sort_by_time :
    (x : MessageRow) (ms : List MessageRow) → Member x (sort_by_time ms) ↔ Member x ms
unfolding sort_by_time
Member-sort_by_time x [] = ground arith
Member-sort_by_time x (m ∷ ms) =
    ground (arith, Member-insert_by_time x m (sort_by_time ms), Member-sort_by_time x ms)

All-insert_by_time :
    (t : ℕ) (m : MessageRow) (ms : List MessageRow)
    → t ≤ m.timestamp
    → All (λ (n : MessageRow). t ≤ n.timestamp) ms
    → All (λ (n : MessageRow). t ≤ n.timestamp) (insert_by_time m ms)
unfolding insert_by_time
All-insert_by_time t m [] h hs = (h, tt)
All-insert_by_time t m (n ∷ ns) h hs = elim (Bool-cases (leb m.timestamp n.timestamp)) [
  | inl e ↦ rw e (h, hs)
  | inr e ↦ rw e (hs.0, All-insert_by_time t m ns h hs.1)
]

insert_by_time-InOrder :
    (m : MessageRow) (ms : List MessageRow) → InOrder ms → InOrder (insert_by_time m ms)
unfolding insert_by_time
insert_by_time-InOrder m [] h = (tt, tt)
insert_by_time-InOrder m (n ∷ ns) h = elim (Bool-cases (leb m.timestamp n.timestamp)) [
  | inl e ↦
      let first : m.timestamp ≤ n.timestamp = ground (arith, e) in
      rw e ((first, All-imp ns (λ k below. omega (arith, first, below)) h.0), h)
  | inr e ↦
      rw e (
        All-insert_by_time n.timestamp m ns (ground (arith, e)) h.0,
        insert_by_time-InOrder m ns h.1,
      )
]

sort_by_time-InOrder : (ms : List MessageRow) → InOrder (sort_by_time ms)
unfolding sort_by_time
sort_by_time-InOrder [] = tt
sort_by_time-InOrder (m ∷ ms) = insert_by_time-InOrder m (sort_by_time ms) (sort_by_time-InOrder ms)

-- A user is shown exactly the messages of the conversation that the user has access to, the older
-- ones first.
pub get_messages_by_conversation_id_for_user-Member :
    (c u : ℕ) (db : Db)
    → InOrder (get_messages_by_conversation_id_for_user c u db)
      × ((m : MessageRow)
          → Member m (get_messages_by_conversation_id_for_user c u db)
            ↔ (Member m db.messages × (m.conversation_id ≡ c) × (has_access m.id u db ≡ true)))
unfolding get_messages_by_conversation_id_for_user
get_messages_by_conversation_id_for_user-Member c u db =
    let shown : MessageRow → Bool =
      λ (m : MessageRow). m.conversation_id == c && has_access m.id u db in
    (
      sort_by_time-InOrder (keep_if shown db.messages),
      λ m. ground (
        arith,
        Member-sort_by_time m (keep_if shown db.messages),
        mem-keep_if shown m db.messages,
      ),
    )
