-- ===== src/Controller/Messages/Authority.antt =====
-- Whose requests change the messages and who may see them.
use kingdom.Base.{ℕ, ◌≡◌, ◌⊎◌, inl, inr, refl, true, false, not, Option, none, some, arith}
use kingdom.Outcome.{Result, ok, err}
use kingdom.Numerals.{parse_id}
use kingdom.Platform.{Platform}
use kingdom.Database.Conversations.{is_participant}
use kingdom.Database.Messages.{delete_message, revoke_message_access, is_message_sender}
use kingdom.Jwt.{Request, group}
use kingdom.Server.{
  Config, World, Server, Flow, error_response, from_result, or_answer, answer, state, ◌>>=◌,
}
use kingdom.Server.Ends.{or_answer-ends, answer_if-ends, query-ends, update_db-ends}
use kingdom.Controller.Session.{authenticated_user_id}
use kingdom.Controller.Conversations.{require_user}
use kingdom.Controller.Messages.{handle_delete_message, handle_revoke_message_access}

module _ (lib : Platform) (config : Config) (world : World) (req : Request) (s : Server) where
  -- The caller of a session, in a conversation that it takes part in.
  pub record IsMember (user_id conv_id : ℕ) : Type 0 where
    pub caller : authenticated_user_id lib config world.epoch_seconds req ≡ ok (some user_id)
    pub conversation : parse_id (group req 1) ≡ some conv_id
    pub member : is_participant conv_id user_id s.db ≡ true

  pub is_member :
      (u c : ℕ)
      → authenticated_user_id lib config world.epoch_seconds req ≡ ok (some u)
      → parse_id (group req 1) ≡ some c
      → not (is_participant c u s.db) ≡ false
      → IsMember u c
  is_member u c caller conversation member = record {
    caller = caller;
    conversation = conversation;
    member = ground (arith, member);
  }

  found_user-ends :
      (P : Server → Type 0) {B : Type 0} (r : Result (Option ℕ)) (f : ℕ → Server → Flow B)
      → P s
      → ((u : ℕ) → r ≡ ok (some u) → P (state (f u s)))
      → P (
          state (
            ((from_result r >>= λ user. or_answer (error_response lib 401 "login required") user)
                >>= f)
              s))
  unfolding ◌>>=◌ from_result or_answer
  found_user-ends P (err e) f holds k = holds
  found_user-ends P (ok none) f holds k = holds
  found_user-ends P (ok (some u)) f holds k = k u refl

  pub require_user-ends :
      (P : Server → Type 0) {B : Type 0} (f : ℕ → Server → Flow B)
      → P s
      → ((u : ℕ)
          → authenticated_user_id lib config world.epoch_seconds req ≡ ok (some u)
          → P (state (f u s)))
      → P (state ((require_user lib config world req >>= f) s))
  unfolding require_user
  require_user-ends P f holds k =
      found_user-ends P (authenticated_user_id lib config world.epoch_seconds req) f holds k

  -- Nothing, or the delete by the caller.
  abbrev pub IsDeleted : Server → Type 0
  IsDeleted after =
      (after.db ≡ s.db)
      ⊎ ((user_id conv_id msg_id : ℕ) × IsMember user_id conv_id
          × (parse_id (group req 2) ≡ some msg_id)
          × (after.db ≡ (delete_message conv_id msg_id user_id s.db).1))

  -- A request to delete changes the database only for the user of its session, in a conversation
  -- that the user takes part in, and then it is `deleteMessage` on the ids of the path and the user.
  pub handle_delete_message-IsDeleted :
      IsDeleted (state (handle_delete_message lib config world req s))
  unfolding handle_delete_message answer
  handle_delete_message-IsDeleted = require_user-ends IsDeleted _ (inl refl) (λ u caller.
      or_answer-ends IsDeleted s (inl refl) _ (parse_id (group req 1)) _ (λ c conversation.
        or_answer-ends IsDeleted s (inl refl) _ (parse_id (group req 2)) _ (λ m message.
          query-ends IsDeleted s (is_participant c u) _ (
            answer_if-ends IsDeleted s (inl refl) _ _ _ (λ member.
              update_db-ends IsDeleted s (delete_message c m u) _ (
                let after : Server = record s { db = (delete_message c m u s.db).1 } in
                let deleted : IsDeleted after =
                  inr (u, c, m, is_member u c caller conversation member, message, refl) in
                answer_if-ends IsDeleted after deleted _ _ _ (λ _. deleted)))))))

  -- Nothing, or the revocation by the sender.
  abbrev pub IsRevoked : Server → Type 0
  IsRevoked after =
      (after.db ≡ s.db)
      ⊎ ((user_id conv_id msg_id target_id : ℕ) × IsMember user_id conv_id
          × (parse_id (group req 2) ≡ some msg_id)
          × (parse_id (group req 3) ≡ some target_id)
          × (is_participant conv_id target_id s.db ≡ true)
          × (is_message_sender conv_id msg_id user_id s.db ≡ true)
          × (after.db
              ≡ (revoke_message_access conv_id msg_id user_id target_id world.now_millis s.db).1))

  -- A request to revoke changes the database only for the user of its session, if that user and the
  -- target take part in the conversation and the user sent the message; then it is
  -- `revokeMessageAccess` on the ids of the path and the user.
  pub handle_revoke_message_access-IsRevoked :
      IsRevoked (state (handle_revoke_message_access lib config world req s))
  unfolding handle_revoke_message_access answer
  handle_revoke_message_access-IsRevoked = require_user-ends IsRevoked _ (inl refl) (λ u caller.
      or_answer-ends IsRevoked s (inl refl) _ (parse_id (group req 1)) _ (λ c conversation.
        or_answer-ends IsRevoked s (inl refl) _ (parse_id (group req 2)) _ (λ m message.
          or_answer-ends IsRevoked s (inl refl) _ (parse_id (group req 3)) _ (λ t target.
            query-ends IsRevoked s (is_participant c u) _ (
              query-ends IsRevoked s (is_participant c t) _ (
                answer_if-ends IsRevoked s (inl refl) _ _ _ (λ members.
                  query-ends IsRevoked s (is_message_sender c m u) _ (
                    answer_if-ends IsRevoked s (inl refl) _ _ _ (λ sender.
                      update_db-ends IsRevoked s (revoke_message_access c m u t world.now_millis) _
                        (let after : Server = record s {
                          db = (revoke_message_access c m u t world.now_millis s.db).1;
                        } in
                          let revoked : IsRevoked after = inr (
                            u,
                            c,
                            m,
                            t,
                            is_member u c caller conversation (ground (arith, members)),
                            message,
                            target,
                            ground (arith, members),
                            ground (arith, sender),
                            refl,
                          ) in
                          answer_if-ends IsRevoked after revoked _ _ _ (λ _. revoked)))))))))))
