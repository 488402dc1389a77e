-- ===== src/Controller/Routes.antt =====
-- setupRoutes and the registered routes: Controller.cc lines 129-167, 223-235, 438-490, 586-606.
use kingdom.Base.{
  ℕ, String, Bytes, codes, bytes_eq, Bool, true, not, ◌&&◌, ◌||◌, Option, none, some, List, [], ◌∷◌,
  ◌++◌, if◌then◌else◌, ◌==◌, is_empty,
}
use kingdom.Outcome.{ok, err}
use kingdom.Numerals.{is_digit}
use kingdom.Platform.{Platform}
use kingdom.Jwt.{Request}
use kingdom.Security.Predicates.{Verdict}
use kingdom.Security.Chain.{Predicate, execute}
use kingdom.Server.{Config, World, Response, Flow, next, done, threw, Handler, error_response}
use kingdom.Controller.Auth.{handle_signup, handle_login, handle_logout}
use kingdom.Controller.Conversations.{
  list_users, public_key, handle_create_conversation, handle_list_user_conversations, health,
  api_info, error_handler,
}
use kingdom.Controller.Messages.{
  handle_create_message, handle_delete_message, handle_revoke_message_access,
  handle_list_conversation_messages,
}

-- The pieces of a path between its slashes.
unfoldable pub split_path : Bytes → Bytes → List Bytes
split_path piece [] = piece ∷ []
split_path piece (c ∷ s) =
    let rest = split_path (if c == b'/' then [] else piece ++ c ∷ []) s in
    if c == b'/' then piece ∷ rest else rest

pub data Route : Type 0 where
  signup login logout health_check users key_of_user info : Route
  new_conversation conversations_of_user : Route
  new_message messages_of_conversation one_message message_access : Route

unfoldable pub is_word : String → Bytes → Bool
is_word word piece = bytes_eq piece (codes word)

unfoldable pub all_digits : Bytes → Bool
all_digits [] = true
all_digits (c ∷ s) = is_digit c && all_digits s

-- (\d+)
unfoldable pub is_number : Bytes → Bool
unfolding all_digits
is_number piece = not (is_empty piece) && all_digits piece

-- A route with the groups of its pattern.
abbrev pub Match : Type 0
Match = Option (Route × List Bytes)

unfoldable pub post_route : List Bytes → Match
unfolding is_word is_number
post_route ([] ∷ a ∷ []) =
    if is_word "signup" a
    then some (signup, [])
    else if is_word "login" a
    then some (login, [])
    else if is_word "logout" a
    then some (logout, [])
    else if is_word "conversations" a
    then some (new_conversation, [])
    else none
post_route ([] ∷ a ∷ b ∷ c ∷ []) =
    if is_word "conversations" a && is_number b && is_word "messages" c
    then some (new_message, b ∷ [])
    else none
post_route _ = none

unfoldable pub get_route : List Bytes → Match
unfolding is_word is_number
get_route ([] ∷ a ∷ []) =
    if is_word "health" a
    then some (health_check, [])
    else if is_word "users" a
    then some (users, [])
    else if is_word "api" a
    then some (info, [])
    else none
get_route ([] ∷ a ∷ b ∷ c ∷ []) =
    if is_word "users" a && is_number b && is_word "public-key" c
    then some (key_of_user, b ∷ [])
    else if is_word "users" a && is_number b && is_word "conversations" c
    then some (conversations_of_user, b ∷ [])
    else if is_word "conversations" a && is_number b && is_word "messages" c
    then some (messages_of_conversation, b ∷ [])
    else none
get_route _ = none

unfoldable pub delete_route : List Bytes → Match
unfolding is_word is_number
delete_route ([] ∷ a ∷ b ∷ c ∷ d ∷ []) =
    if is_word "conversations" a && is_number b && is_word "messages" c && is_number d
    then some (one_message, b ∷ d ∷ [])
    else none
delete_route ([] ∷ a ∷ b ∷ c ∷ d ∷ e ∷ f ∷ []) =
    if is_word "conversations" a
      && is_number b
      && is_word "messages" c
      && is_number d
      && is_word "access" e
      && is_number f
    then some (message_access, b ∷ d ∷ f ∷ [])
    else none
delete_route _ = none

-- The server answers HEAD by the routes of GET.
unfoldable pub find_route : Bytes → Bytes → Match
unfolding post_route get_route delete_route split_path
find_route method path =
    if bytes_eq method (codes "POST")
    then post_route (split_path [] path)
    else if bytes_eq method (codes "GET") || bytes_eq method (codes "HEAD")
    then get_route (split_path [] path)
    else if bytes_eq method (codes "DELETE")
    then delete_route (split_path [] path)
    else none

-- What the handler before routing sees of a request: its body has not been read yet.
abbrev pub before_body : Request → Request
before_body req = record req { body = [] }

module _ (lib : Platform) (version : Bytes) (config : Config) (world : World) where
  unfoldable pub handle_route : Route → Request → Handler
  handle_route signup req = handle_signup lib config world req
  handle_route login req = handle_login lib config world req
  handle_route logout req = handle_logout lib world req
  handle_route health_check req = health lib
  handle_route users req = list_users lib
  handle_route key_of_user req = public_key lib req
  handle_route info req = api_info lib version
  handle_route new_conversation req = handle_create_conversation lib config world req
  handle_route conversations_of_user req = handle_list_user_conversations lib config world req
  handle_route new_message req = handle_create_message lib config world req
  handle_route messages_of_conversation req = handle_list_conversation_messages lib config world req
  handle_route one_message req = handle_delete_message lib config world req
  handle_route message_access req = handle_revoke_message_access lib config world req

  -- No route: the server's 404.
  unfoldable pub dispatch : Match → Request → Handler
  dispatch none req s = done (record { status = some 404; content = [] }) s
  dispatch (some (route, groups)) req s =
      handle_route route (record req { matches = req.path ∷ groups }) s

  -- The handler before routing: an error of the chain answers the request.
  unfoldable pub after_chain : Request → Verdict → Handler
  after_chain req (err e, tokens) s = threw e (record s { blacklist = tokens })
  after_chain req (ok (some error), tokens) s =
      done (error_response lib error.http_status_code error.message)
        (record s { blacklist = tokens })
  after_chain req (ok none, tokens) s =
      dispatch (find_route req.method req.path) req (record s { blacklist = tokens })

  content_of : Option ℕ → Bytes → Bytes
  content_of none content = content
  content_of (some code) content = error_handler lib code content

  error_page : Response → Response
  unfolding content_of
  error_page res = record res { content = content_of res.status res.content }

  -- The error handler sees every answer, those of the chain and of the handlers too.
  unfoldable pub with_error_page : Flow Response → Flow Response
  unfolding error_page
  with_error_page (next res s) = next (error_page res) s
  with_error_page (done res s) = done (error_page res) s
  with_error_page (threw e s) = threw e s

  -- One request. KD_JWT_SECRET is the configured secret: `configure` reads the same variable.
  unfoldable pub serve : List Predicate → Request → Handler
  unfolding after_chain with_error_page
  serve predicates req s = with_error_page (
      after_chain req
        (execute lib (some config.jwt_secret) world.epoch_seconds predicates (before_body req)
          s.blacklist)
        s)
