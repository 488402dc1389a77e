-- ===== src/Controller/Messages.antt =====
-- The handlers of messages: Controller.cc lines 608-823, and oneTimePreKeyIdFromPayload.
use kingdom.Base.{
  ℕ, String, Bytes, codes, Bool, true, false, not, ◌||◌, ◌&&◌, Option, none, some, List, [], ◌∷◌,
  ◌++◌, map, if◌then◌else◌, ◌==◌, is_some,
}
pub mod Authority
pub mod Creation
use kingdom.Outcome.{Exn, Result, ok, err, other_error}
use kingdom.Numerals.{parse_id}
use kingdom.Platform.{Platform}
use kingdom.Database.{Db, MessageRow}
use kingdom.Database.Conversations.{is_participant}
use kingdom.Database.Messages.{
  create_message, delete_message, revoke_message_access, is_message_sender,
  update_message_blockchain_digest, get_messages_by_conversation_id_for_user, pending_prefix,
}
use kingdom.Database.PreKeys.{consume_one_time_pre_key}
use kingdom.Jwt.{Request, group}
use kingdom.Server.{
  Config, World, Server, Response, Flow, next, done, threw, Action, Handler, ◌>>=◌, ◌>>◌, or_throw,
  or_answer, answer_if, answer, query, run_txn, update_db, error_response, conflict_or_throw,
}
use kingdom.Controller.Validation.{is_bad_length, max_payload_len}
use kingdom.Controller.Auth.{parse_with, text_field}
use kingdom.Controller.Conversations.{require_user, answer_json}

module _ (lib : Platform) where
  open lib use {
    Json, parse, dump, is_object, is_null, is_number_unsigned, contains, index, get_string,
    get_uint64, object, array, string, unsigned, literal,
  }

  pre_key_id_of : Json → Option ℕ
  pre_key_id_of payload =
      if not (is_object payload)
        || not (contains payload "oneTimePreKeyId")
        || is_null (index payload "oneTimePreKeyId")
      then none
      else if is_number_unsigned (index payload "oneTimePreKeyId")
      then get_uint64 (index payload "oneTimePreKeyId")
      else none

  unfoldable pub one_time_pre_key_id_from_payload : Bytes → Option ℕ
  unfolding pre_key_id_of
  one_time_pre_key_id_from_payload payload = elim (parse payload) [
    | none ↦ none
    | some json ↦ pre_key_id_of json
  ]

  unfoldable pub found_recipient : Option ℕ → Action (Option ℕ)
  found_recipient none s = threw other_error s
  found_recipient (some recipient) s = next (some recipient) s

  -- `recipientId`, absent where the field is absent or null.
  unfoldable pub recipient_of : Json → Action (Option ℕ)
  unfolding found_recipient
  recipient_of body s =
      if contains body "recipientId" && not (is_null (index body "recipientId"))
      then found_recipient (get_uint64 (index body "recipientId")) s
      else next none s

  -- `recipientId.has_value() && !db_.isParticipant(*convId, *recipientId)`
  unfoldable pub is_stranger : ℕ → Option ℕ → Db → Bool
  is_stranger conv_id none db = false
  is_stranger conv_id (some recipient) db = not (is_participant conv_id recipient db)

  pending_id_of : Option Json → Option Bytes
  pending_id_of none = none
  pending_id_of (some reply) = get_string (index reply "pendingId")

  -- What the sidecar's answer says: the pending id, or nothing on any other answer or throw.
  unfoldable pub queued_id : Option (ℕ × Bytes) → Option Bytes
  unfolding pending_id_of
  queued_id none = none
  queued_id (some (status, text)) = if status == 200 then pending_id_of (parse text) else none

  unfoldable pub record_digest : ℕ → Option Bytes → Action Bytes
  record_digest msg_id none s = next [] s
  record_digest msg_id (some pending_id) s =
      let digest : Bytes = pending_prefix ++ pending_id in
      next digest (record s { db = update_message_blockchain_digest msg_id digest s.db })

  abbrev pub sidecar_body : ℕ → ℕ → Bytes → Bytes
  sidecar_body conv_id msg_id payload = dump (
      object (
        ("conversationId", unsigned conv_id)
        ∷ ("msgId", unsigned msg_id)
        ∷ ("ciphertext", string payload)
        ∷ []))

  -- The second `try` block of handleCreateMessage_.
  unfoldable pub queue_for_blockchain : World → ℕ → ℕ → Bytes → Action Bytes
  queue_for_blockchain world conv_id msg_id payload =
      record_digest msg_id (queued_id (world.sidecar (sidecar_body conv_id msg_id payload)))

  abbrev pub message_json : MessageRow → Json
  message_json m = object (
      ("id", unsigned m.id)
      ∷ ("senderId", unsigned m.sender_id)
      ∷ ("conversationId", unsigned m.conversation_id)
      ∷ ("payload", string m.payload)
      ∷ ("timestamp", unsigned m.timestamp)
      ∷ ("blockchainDigest", string m.blockchain_digest)
      ∷ [])

  -- The first `try` block.
  unfoldable pub store_message : World → ℕ → ℕ → Bytes → Option ℕ → Action ℕ
  store_message world conv_id sender_id payload recipient = conflict_or_throw lib (
      run_txn (
        create_message (consume_one_time_pre_key lib) conv_id sender_id payload world.now_millis
          recipient (one_time_pre_key_id_from_payload payload)))

  unfoldable pub handle_create_message : Config → World → Request → Handler
  handle_create_message config world req = do
    conv_id ← or_answer (error_response lib 400 "invalid conversation id") (parse_id (group req 1))
    body ←
        or_answer (error_response lib 400 "senderId and payload required")
          (parse_with lib ("senderId" ∷ "payload" ∷ []) req.body)
    sender_id ← or_throw other_error (get_uint64 (index body "senderId"))
    payload ← text_field lib body "payload"
    recipient ← recipient_of body
    answer_if (is_bad_length max_payload_len payload)
        (error_response lib 400 "payload must be 1–65536 characters")
    user_id ← require_user lib config world req
    answer_if (not (user_id == sender_id))
        (error_response lib 403 "session user cannot send as another user")
    member ← query (is_participant conv_id user_id)
    answer_if (not member) (error_response lib 403 "forbidden")
    stranger ← query (is_stranger conv_id recipient)
    answer_if stranger (error_response lib 400 "recipient must be a conversation participant")
    msg_id ← store_message world conv_id sender_id payload recipient
    digest ← queue_for_blockchain world conv_id msg_id payload
    answer (record {
      status = some 201;
      content = dump (
          message_json (record {
            id = msg_id;
            conversation_id = conv_id;
            sender_id = sender_id;
            payload = payload;
            timestamp = world.now_millis;
            blockchain_digest = digest;
          }));
    })

  unfoldable pub handle_delete_message : Config → World → Request → Handler
  handle_delete_message config world req = do
    user_id ← require_user lib config world req
    conv_id ← or_answer (error_response lib 400 "invalid id") (parse_id (group req 1))
    msg_id ← or_answer (error_response lib 400 "invalid id") (parse_id (group req 2))
    member ← query (is_participant conv_id user_id)
    answer_if (not member) (error_response lib 403 "forbidden")
    deleted ← update_db (delete_message conv_id msg_id user_id)
    answer_if (not deleted) (error_response lib 404 "message not found")
    answer_json lib
        (object (("status", string (literal "deleted")) ∷ ("messageId", unsigned msg_id) ∷ []))

  unfoldable pub handle_revoke_message_access : Config → World → Request → Handler
  handle_revoke_message_access config world req = do
    user_id ← require_user lib config world req
    conv_id ← or_answer (error_response lib 400 "invalid id") (parse_id (group req 1))
    msg_id ← or_answer (error_response lib 400 "invalid id") (parse_id (group req 2))
    target_id ← or_answer (error_response lib 400 "invalid id") (parse_id (group req 3))
    member ← query (is_participant conv_id user_id)
    target_member ← query (is_participant conv_id target_id)
    answer_if (not member || not target_member) (error_response lib 403 "forbidden")
    sender ← query (is_message_sender conv_id msg_id user_id)
    answer_if (not sender) (error_response lib 403 "only the sender can revoke access")
    revoked ← update_db (revoke_message_access conv_id msg_id user_id target_id world.now_millis)
    answer_if (not revoked) (error_response lib 404 "message access not found")
    answer_json lib (
        object (
          ("status", string (literal "revoked"))
          ∷ ("messageId", unsigned msg_id)
          ∷ ("userId", unsigned target_id)
          ∷ []))

  unfoldable pub handle_list_conversation_messages : Config → World → Request → Handler
  handle_list_conversation_messages config world req = do
    user_id ← require_user lib config world req
    conv_id ← or_answer (error_response lib 400 "invalid conversation id") (parse_id (group req 1))
    member ← query (is_participant conv_id user_id)
    answer_if (not member) (error_response lib 403 "forbidden")
    messages ← query (get_messages_by_conversation_id_for_user conv_id user_id)
    answer_json lib (array (map message_json messages))
