-- ===== src/Client/Session.antt =====
-- The operations of kd::Client: Client.cc lines 127-364.
use kingdom.Base.{ℕ, Bytes, codes, Bool, ◌||◌, ◌&&◌, Option, none, some, List, [], if◌then◌else◌}
use kingdom.Outcome.{◌>>=◌, Result, ok, err, runtime_error, other_error, or_err, guard}
use kingdom.Toolkit.{Toolkit, Crypto}
use kingdom.Drive.{Drive, Io, continue, lift, try_remove}
use kingdom.KeyStore.Identity.{RegistrationKeyMaterial}
use kingdom.KeyStore.Signup.{create_for_signup}
use kingdom.Client.Calls.{
  Client, HttpCall, Transport, plain_call, auth_call, conversations_call, public_key_call,
  messages_call, send_call, delete_call, revoke_call, is_ok, is_created, accepted_body, parse_body,
  login_body, signup_body, conversation_body, group_body, direct_body,
}
use kingdom.Client.Pinning.{pin_public_key}

abbrev pub new_client : Bytes → Bytes → Client
new_client base_url ca_cert_path = record {
  base_url = base_url;
  ca_cert_path = ca_cert_path;
  auth_token = [];
}

unfoldable pub set_auth_token : Bytes → Client → Client
set_auth_token auth_token client = record client { auth_token = auth_token }

unfoldable pub clear_auth_token : Client → Client
clear_auth_token client = record client { auth_token = [] }

unfoldable pub set_session_token : Bytes → Client → Client
unfolding set_auth_token
set_session_token session_token client = set_auth_token session_token client

unfoldable pub clear_session_token : Client → Client
unfolding clear_auth_token
clear_session_token client = clear_auth_token client

module _ (tk : Toolkit) (send : Transport) where
  open tk use {
    Json, parse, print, is_object, is_null, is_string, contains, index, get_string, set, string,
  }

  unfoldable pub fetch : Client → (ℕ → Bool) → HttpCall → Result Json
  unfolding accepted_body parse_body
  fetch client accepts call = accepted_body client accepts (send call) >>= parse_body tk

  unfoldable pub get_health : Client → Result Json
  unfolding fetch plain_call
  get_health client = fetch client is_ok (plain_call client (codes "GET") (codes "/health") none)

  unfoldable pub get_info : Client → Result Json
  unfolding fetch plain_call
  get_info client = fetch client is_ok (plain_call client (codes "GET") (codes "/") none)

  unfoldable pub get_conversations : Client → ℕ → Result Json
  unfolding fetch conversations_call
  get_conversations client user_id = fetch client is_ok (conversations_call client user_id)

  unfoldable pub get_users : Client → Result Json
  unfolding fetch auth_call
  get_users client = fetch client is_ok (auth_call client (codes "GET") (codes "/users") none)

  unfoldable pub get_messages : Client → ℕ → Result Json
  unfolding fetch messages_call
  get_messages client conversation_id = fetch client is_ok (messages_call client conversation_id)

  unfoldable pub create_conversation : Client → Bytes → List ℕ → Result Json
  unfolding fetch auth_call conversation_body
  create_conversation client name participant_ids = do
    text ← or_err other_error (print (conversation_body tk name participant_ids))
    fetch client is_created (auth_call client (codes "POST") (codes "/conversations") (some text))

  -- The overload without a recipient.
  unfoldable pub send_to_group : Client → ℕ → ℕ → Bytes → Result Json
  unfolding fetch send_call group_body
  send_to_group client conversation_id sender_id payload = do
    text ← or_err other_error (print (group_body tk sender_id payload))
    fetch client is_created (send_call client conversation_id text)

  unfoldable pub send_message : Client → ℕ → ℕ → ℕ → Bytes → Result Json
  unfolding fetch send_call direct_body
  send_message client conversation_id sender_id recipient_id payload = do
    text ← or_err other_error (print (direct_body tk sender_id recipient_id payload))
    fetch client is_created (send_call client conversation_id text)

  unfoldable pub delete_message : Client → ℕ → ℕ → Result Json
  unfolding fetch delete_call
  delete_message client conversation_id message_id =
      fetch client is_ok (delete_call client conversation_id message_id)

  unfoldable pub revoke_message_access : Client → ℕ → ℕ → ℕ → Result Json
  unfolding fetch revoke_call
  revoke_message_access client conversation_id message_id target_user_id =
      fetch client is_ok (revoke_call client conversation_id message_id target_user_id)

  -- The token of an answer: nothing where the answer has none.
  session_token : Json → Result (Option Bytes)
  session_token response =
      if contains response (codes "token")
      then or_err other_error (get_string (index response (codes "token"))) >>= (λ t. ok (some t))
      else if contains response (codes "sessionToken")
      then or_err other_error (get_string (index response (codes "sessionToken")))
        >>= (λ t. ok (some t))
      else ok none

  with_token : Client → Option Bytes → Client
  unfolding set_auth_token
  with_token client none = client
  with_token client (some token) = set_auth_token token client

  -- A client that has taken the token of an answer over, with the answer.
  unfoldable pub logged_in : Client → Json → Result (Json × Client)
  unfolding session_token with_token
  logged_in client response = do
    token ← session_token response
    ok (response, with_token client token)

  -- A call that throws leaves the client as it is.
  or_same : {A : Type 0} → Client → Result (A × Client) → Result A × Client
  or_same client (ok (a, changed)) = (ok a, changed)
  or_same client (err e) = (err e, client)

  unfoldable pub login : Client → Bytes → Bytes → Result Json × Client
  unfolding or_same fetch plain_call login_body
  login client username password = or_same client (
      or_err other_error (print (login_body tk username password))
      >>= (λ text.
          fetch client is_ok (plain_call client (codes "POST") (codes "/login") (some text)))
      >>= logged_in client)

  -- The token is cleared before the answer is parsed.
  unfoldable pub logged_out : Client → Result Bytes → Result Json × Client
  unfolding clear_auth_token parse_body
  logged_out client (err e) = (err e, client)
  logged_out client (ok body) = (parse_body tk body, clear_auth_token client)

  unfoldable pub logout : Client → Result Json × Client
  unfolding logged_out accepted_body auth_call
  logout client = logged_out client (
      accepted_body client is_ok
        (send (auth_call client (codes "POST") (codes "/logout") (some (codes "{}")))))

  unfoldable pub get_public_key : Option Bytes → Client → ℕ → Io Bytes
  unfolding fetch public_key_call
  get_public_key home client user_id d =
      continue
        (lift
          (fetch client is_ok (public_key_call client user_id) >>= λ body.
            guard (contains body (codes "publicKey") && is_string (index body (codes "publicKey")))
              (runtime_error "Server public-key response is missing publicKey")
            >>= λ u. or_err other_error (get_string (index body (codes "publicKey"))))
          d)
        (pin_public_key tk home user_id)

  -- `response["localKeyFile"] = keyMaterial.keyFilePath`, which throws on what is no object.
  with_key_file : Bytes → Json × Client → Result Json × Client
  with_key_file path (response, client) =
      if is_object response || is_null response
      then (ok (set response (codes "localKeyFile") (string path)), client)
      else (err other_error, client)

  unfoldable pub signed_up : Client → Bytes → Result (Json × Client) → Result Json × Client
  unfolding with_key_file
  signed_up client path (err e) = (err e, client)
  signed_up client path (ok answer) = with_key_file path answer

  -- What follows the request: without an accepted answer, the key file is removed again.
  unfoldable pub after_signup :
      Client → Bytes → Result Bytes → Drive → (Result Json × Client) × Drive
  unfolding signed_up logged_in parse_body
  after_signup client path (err e) d = ((err e, client), try_remove path d)
  after_signup client path (ok body) d =
      (signed_up client path (parse_body tk body >>= logged_in client), d)

  -- The part of signup behind createForSignup; a text that is not UTF-8 throws before the request.
  unfoldable pub register_account :
      Client → Bytes → Bytes → RegistrationKeyMaterial → Drive → (Result Json × Client) × Drive
  unfolding after_signup accepted_body plain_call signup_body
  register_account client username password material d =
      elim (print (signup_body tk username password material.public_key_bundle)) [
        | none ↦ ((err other_error, client), d)
        | some text ↦
            after_signup client material.key_file_path
              (accepted_body client is_created
                (send (plain_call client (codes "POST") (codes "/signup") (some text))))
              d
      ]

  unfoldable pub register_created :
      Client
      → Bytes
      → Bytes
      → Result RegistrationKeyMaterial × Drive
      → (Result Json × Client) × Drive
  unfolding register_account
  register_created client username password (err e, d) = ((err e, client), d)
  register_created client username password (ok material, d) =
      register_account client username password material d

  unfoldable pub signup :
      Crypto → Option Bytes → Client → Bytes → Bytes → Drive → (Result Json × Client) × Drive
  unfolding register_created
  signup c home client username password d =
      register_created client username password (create_for_signup tk c home username password d)
