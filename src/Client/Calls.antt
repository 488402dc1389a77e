-- ===== src/Client/Calls.antt =====
-- The requests that a client makes, and what it takes for an answer: Client.cc lines 18-41 and the
-- paths, headers and bodies of its operations.
use kingdom.Base.{
  ℕ, String, Bytes, codes, Bool, true, ◌||◌, ◌&&◌, Option, none, some, List, [], ◌∷◌, ◌++◌, map,
  is_empty, is_some, strip_prefix, ◌==◌, if◌then◌else◌,
}
use kingdom.Outcome.{Result, err, runtime_error, other_error, or_err}
use kingdom.Numerals.{to_string}
use kingdom.Toolkit.{Toolkit}

pub record Client : Type 0 where
  pub base_url : Bytes
  pub ca_cert_path : Bytes
  pub auth_token : Bytes

-- An httplib::Client as the code sets it up.
pub record HttpClient : Type 0 where
  pub base_url : Bytes
  pub verifies_certificate : Bool
  pub ca_cert_path : Option Bytes
  pub read_timeout_sec : Option ℕ

pub record HttpCall : Type 0 where
  pub http : HttpClient
  pub method : Bytes
  pub path : Bytes
  pub authorization : Option Bytes
  pub body : Option Bytes

-- What httplib does with a request: nothing where no answer arrives, else its status and body.
abbrev pub Transport : Type 0
Transport = HttpCall → Option (ℕ × Bytes)

unfoldable pub make_client : Bytes → Bytes → HttpClient
make_client base_url ca_cert_path = record {
  base_url = base_url;
  verifies_certificate = true;
  ca_cert_path = if is_empty ca_cert_path then none else some ca_cert_path;
  read_timeout_sec = none;
}

unfoldable pub connect_error : Bytes → Bytes → String
connect_error base_url ca_cert_path =
    if is_empty ca_cert_path && is_some (strip_prefix (codes "https://") base_url)
    then "TLS certificate verification failed"
    else "Failed to connect to server at"

unfoldable pub auth_headers : Bytes → Option Bytes
auth_headers auth_token = if is_empty auth_token then none else some (codes "Bearer " ++ auth_token)

module _ (client : Client) where
  -- A request without headers of the client's own: health, info, signup, login.
  unfoldable pub plain_call : Bytes → Bytes → Option Bytes → HttpCall
  unfolding make_client
  plain_call method path body = record {
    http = make_client client.base_url client.ca_cert_path;
    method = method;
    path = path;
    authorization = none;
    body = body;
  }

  -- A request with the session's token.
  unfoldable pub auth_call : Bytes → Bytes → Option Bytes → HttpCall
  unfolding plain_call auth_headers
  auth_call method path body = record (plain_call method path body) {
    authorization = auth_headers client.auth_token;
  }

abbrev pub message_read_timeout_sec : ℕ
message_read_timeout_sec = 120

unfoldable pub conversation_path : ℕ → Bytes
conversation_path conversation_id =
    codes "/conversations/" ++ (to_string conversation_id ++ codes "/messages")

unfoldable pub message_path : ℕ → ℕ → Bytes
unfolding conversation_path
message_path conversation_id message_id =
    codes "/conversations/"
    ++ (to_string conversation_id ++ (codes "/messages/" ++ to_string message_id))

unfoldable pub access_path : ℕ → ℕ → ℕ → Bytes
access_path conversation_id message_id target_user_id =
    codes "/conversations/"
    ++ (to_string conversation_id
        ++ (codes "/messages/"
            ++ (to_string message_id ++ (codes "/access/" ++ to_string target_user_id))))

unfoldable pub user_path : ℕ → Bytes → Bytes
user_path user_id what = codes "/users/" ++ (to_string user_id ++ what)

module _ (client : Client) where
  unfoldable pub conversations_call : ℕ → HttpCall
  unfolding auth_call user_path
  conversations_call user_id =
      auth_call client (codes "GET") (user_path user_id (codes "/conversations")) none

  unfoldable pub public_key_call : ℕ → HttpCall
  unfolding auth_call user_path
  public_key_call user_id =
      auth_call client (codes "GET") (user_path user_id (codes "/public-key")) none

  unfoldable pub messages_call : ℕ → HttpCall
  unfolding auth_call conversation_path
  messages_call conversation_id =
      auth_call client (codes "GET") (conversation_path conversation_id) none

  -- The read timeout is set on the httplib::Client of this call.
  unfoldable pub send_call : ℕ → Bytes → HttpCall
  unfolding auth_call conversation_path
  send_call conversation_id text =
      record (auth_call client (codes "POST") (conversation_path conversation_id) (some text)) {
        http = record (make_client client.base_url client.ca_cert_path) {
          read_timeout_sec = some message_read_timeout_sec;
        };
      }

  unfoldable pub delete_call : ℕ → ℕ → HttpCall
  unfolding auth_call message_path
  delete_call conversation_id message_id =
      auth_call client (codes "DELETE") (message_path conversation_id message_id) none

  unfoldable pub revoke_call : ℕ → ℕ → ℕ → HttpCall
  unfolding auth_call access_path
  revoke_call conversation_id message_id target_user_id =
      auth_call client (codes "DELETE") (access_path conversation_id message_id target_user_id) none

-- `OK_200`, and `OK_200 || Created_201`
abbrev pub is_ok : ℕ → Bool
is_ok status = status == 200

abbrev pub is_created : ℕ → Bool
is_created status = status == 200 || status == 201

-- What follows the request in each operation: the body of an accepted answer.
unfoldable pub accepted_body : Client → (ℕ → Bool) → Option (ℕ × Bytes) → Result Bytes
unfolding connect_error
accepted_body client accepts none =
    err (runtime_error (connect_error client.base_url client.ca_cert_path))
accepted_body client accepts (some (status, body)) =
    if accepts status then Result.ok body else err (runtime_error "Server returned status")

module _ (tk : Toolkit) where
  open tk use {Json, parse, print, string, unsigned, array, object}

  -- `json::parse(res->body)`, which throws
  unfoldable pub parse_body : Bytes → Result Json
  parse_body body = or_err other_error (parse body)

  unfoldable pub login_body : Bytes → Bytes → Json
  login_body username password =
      object ((codes "username", string username) ∷ (codes "password", string password) ∷ [])

  unfoldable pub signup_body : Bytes → Bytes → Bytes → Json
  signup_body username password public_key = object (
      (codes "username", string username)
      ∷ (codes "password", string password)
      ∷ (codes "publicKey", string public_key)
      ∷ [])

  unfoldable pub conversation_body : Bytes → List ℕ → Json
  conversation_body name participant_ids = object (
      (codes "name", string name)
      ∷ (codes "participantIds", array (map unsigned participant_ids))
      ∷ [])

  unfoldable pub group_body : ℕ → Bytes → Json
  group_body sender_id payload =
      object ((codes "senderId", unsigned sender_id) ∷ (codes "payload", string payload) ∷ [])

  unfoldable pub direct_body : ℕ → ℕ → Bytes → Json
  direct_body sender_id recipient_id payload = object (
      (codes "senderId", unsigned sender_id)
      ∷ (codes "recipientId", unsigned recipient_id)
      ∷ (codes "payload", string payload)
      ∷ [])
