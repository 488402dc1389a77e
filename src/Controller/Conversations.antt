-- ===== src/Controller/Conversations.antt =====
-- userController_, publicKeyController_, handleCreateConversation_ and
-- handleListUserConversations_: Controller.cc lines 438-584, 825-841.
use kingdom.Base.{
  ℕ, Bytes, Bool, false, not, ◌||◌, none, some, List, [], ◌∷◌, map, any, if◌then◌else◌, is_empty,
  length, ltb, ◌==◌,
}
use kingdom.Outcome.{other_error}
use kingdom.Numerals.{parse_id}
use kingdom.Platform.{Platform}
use kingdom.Database.Users.{User, get_all_users, get_user_public_key, users_exist}
use kingdom.Database.Conversations.{Conversation, create_conversation, get_conversations_by_user_id}
use kingdom.Jwt.{Request, group}
use kingdom.Server.{
  Config, World, Action, Handler, ◌>>=◌, ◌>>◌, or_throw, or_answer, answer_if, answer, from_result,
  query, run_txn, error_response,
}
use kingdom.Controller.Validation.{
  is_bad_length, max_conversation_name_len, max_conversation_participants,
}
use kingdom.Controller.Session.{authenticated_user_id}
use kingdom.Controller.Auth.{parse_with, text_field}

-- A `std::set` built from a list has fewer elements than it exactly if one occurs twice.
unfoldable pub has_duplicates : List ℕ → Bool
has_duplicates [] = false
has_duplicates (x ∷ xs) = any (λ (y : ℕ). y == x) xs || has_duplicates xs

-- `seen.contains(id)`
unfoldable pub contains_id : ℕ → List ℕ → Bool
contains_id user_id ids = any (λ (y : ℕ). y == user_id) ids

module _ (lib : Platform) where
  open lib use {
    Json, dump, index, get_uint64s, object, array, string, unsigned, literal, array_text,
  }

  -- The user of the session, or the answer 401.
  unfoldable pub require_user : Config → World → Request → Action ℕ
  require_user config world req = do
    user ← from_result (authenticated_user_id lib config world.epoch_seconds req)
    or_answer (error_response lib 401 "login required") user

  abbrev pub answer_json : Json → Handler
  answer_json json = answer (record { status = none; content = dump json })

  unfoldable pub list_users : Handler
  list_users = do
    users ← query get_all_users
    answer_json (
        array (
          map (λ (u : User). object (("id", unsigned u.id) ∷ ("username", string u.username) ∷ []))
            users))

  unfoldable pub public_key : Request → Handler
  public_key req = do
    user_id ← or_answer (error_response lib 400 "invalid user id") (parse_id (group req 1))
    found ← query (get_user_public_key user_id)
    key ← or_answer (error_response lib 404 "user not found") found
    answer_json (object (("userId", unsigned user_id) ∷ ("publicKey", string key) ∷ []))

  unfoldable pub handle_create_conversation : Config → World → Request → Handler
  handle_create_conversation config world req = do
    user_id ← require_user config world req
    body ←
        or_answer (error_response lib 400 "name and participantIds required")
          (parse_with lib ("name" ∷ "participantIds" ∷ []) req.body)
    name ← text_field lib body "name"
    answer_if (is_bad_length max_conversation_name_len name)
        (error_response lib 400 "name must be 1–128 characters")
    ids ← or_throw other_error (get_uint64s (index body "participantIds"))
    answer_if (is_empty ids || ltb max_conversation_participants (length ids))
        (error_response lib 400 "participantIds must contain 1–50 users")
    answer_if (has_duplicates ids)
        (error_response lib 400 "participantIds must not contain duplicates")
    answer_if (not (contains_id user_id ids))
        (error_response lib 400 "conversation creator must be a participant")
    known ← query (users_exist ids)
    answer_if (not known) (error_response lib 400 "participantIds must reference existing users")
    conv_id ← run_txn (create_conversation name ids world.now_millis)
    answer (record {
      status = some 201;
      content = dump (object (("id", unsigned conv_id) ∷ ("name", string name) ∷ []));
    })

  abbrev pub conversation_json : Conversation → Json
  conversation_json c = object (
      ("id", unsigned c.id)
      ∷ ("name", string c.name)
      ∷ ("participantIds", array (map unsigned c.participant_ids))
      ∷ ("createdAt", unsigned c.created_at)
      ∷ [])

  unfoldable pub handle_list_user_conversations : Config → World → Request → Handler
  handle_list_user_conversations config world req = do
    session_user ← require_user config world req
    user_id ← or_answer (error_response lib 400 "invalid user id") (parse_id (group req 1))
    answer_if (not (session_user == user_id)) (error_response lib 403 "forbidden")
    conversations ← query (get_conversations_by_user_id array_text user_id)
    answer_json (array (map conversation_json conversations))

  unfoldable pub health : Handler
  health = answer_json (object (("status", string (literal "ok")) ∷ []))

  -- `version` is kVersion of the generated version.h.
  unfoldable pub api_info : Bytes → Handler
  api_info version =
      answer_json
        (object (("name", string (literal "Kingdom Server")) ∷ ("version", string version) ∷ []))

  -- The handler for errors writes a body of its own only for 404.
  unfoldable pub error_handler : ℕ → Bytes → Bytes
  error_handler status content =
      if status == 404
      then dump (object (("error", string (literal "Not Found")) ∷ ("status", unsigned 404) ∷ []))
      else content
