-- ===== src/Client/Routed.antt =====
-- The requests of the client and the routes of the server.
use kingdom.Base.{
  ℕ, ◌<◌, ◌≡◌, refl, sym, ap, ◌∙◌, Bytes, codes, bytes_eq, true, false, some, List, [], ◌∷◌, ◌++◌,
  map, All, arith, ◌==◌,
}
use mathlib.Core.List.{append-nil, append_assoc}
use kingdom.Numerals.{to_string, is_digit, parse_id, u64_limit}
use kingdom.Numerals.RoundTrip.{to_string_digits, is_empty-to_string, parse_id-to_string}
use kingdom.Controller.Routes.{
  Route, find_route, split_path, is_word, is_number, all_digits, post_route, get_route,
  delete_route,
}
use kingdom.Client.Calls.{
  Client, HttpCall, conversation_path, message_path, access_path, user_path, conversations_call,
  public_key_call, messages_call, send_call, delete_call, revoke_call, plain_call, auth_call,
}

-- A text of digits has no slash: it goes to the piece that is read.
split_path-digits :
    (piece s rest : Bytes)
    → All (λ c. is_digit c ≡ true) s
    → split_path piece (s ++ rest) ≡ split_path (piece ++ s) rest
unfolding split_path is_digit
split_path-digits piece [] rest h = ap (λ p. split_path p rest) (sym (append-nil piece))
split_path-digits piece (c ∷ s) rest h =
    let plain : (c == 47) ≡ false = ground (arith, h.0) in
    rw plain (
      split_path-digits (piece ++ c ∷ []) s rest h.1
      ∙ ap (λ p. split_path p rest) (append_assoc piece (c ∷ []) s))

-- A number in a path is a piece of it.
split_path-number :
    (n : ℕ) (rest : Bytes)
    → split_path [] (to_string n ++ 47 ∷ rest) ≡ to_string n ∷ split_path [] rest
unfolding split_path
split_path-number n rest = split_path-digits [] (to_string n) (47 ∷ rest) (to_string_digits n)

split_path-last : (n : ℕ) → split_path [] (to_string n) ≡ to_string n ∷ []
unfolding split_path
split_path-last n =
    ap (split_path []) (sym (append-nil (to_string n)))
    ∙ split_path-digits [] (to_string n) [] (to_string_digits n)

all_digits-All : (s : Bytes) → All (λ c. is_digit c ≡ true) s → all_digits s ≡ true
unfolding all_digits
all_digits-All [] h = refl
all_digits-All (c ∷ s) h = rw (h.0, all_digits-All s h.1) refl

is_number-to_string : (n : ℕ) → is_number (to_string n) ≡ true
unfolding is_number
is_number-to_string n =
    rw
      (
        rw append-nil at (is_empty-to_string n []),
        all_digits-All (to_string n) (to_string_digits n),
      )
      refl

-- A request is answered by a route, which reads these numbers from the path.
abbrev pub RoutesTo : HttpCall → Route → List ℕ → Type 0
RoutesTo call route ids =
    (find_route call.method call.path ≡ some (route, map to_string ids))
    × All (λ n. parse_id (to_string n) ≡ some n) ids

-- Every request of the client that names users, conversations or messages by `uint64_t` numbers is
-- answered by the server's route of that operation, and the server reads the numbers back.
pub client_routes :
    (client : Client) (text : Bytes) (n m k : ℕ)
    → n < u64_limit
    → m < u64_limit
    → k < u64_limit
    → RoutesTo (conversations_call client n) Route.conversations_of_user (n ∷ [])
      × RoutesTo (public_key_call client n) Route.key_of_user (n ∷ [])
      × RoutesTo (messages_call client n) Route.messages_of_conversation (n ∷ [])
      × RoutesTo (send_call client n text) Route.new_message (n ∷ [])
      × RoutesTo (delete_call client n m) Route.one_message (n ∷ m ∷ [])
      × RoutesTo (revoke_call client n m k) Route.message_access (n ∷ m ∷ k ∷ [])
unfolding find_route post_route get_route delete_route split_path is_word bytes_eq
    conversations_call public_key_call messages_call send_call delete_call revoke_call plain_call
    auth_call conversation_path message_path access_path user_path
client_routes client text n m k hn hm hk =
    let pn = parse_id-to_string n hn in
    let pm = parse_id-to_string m hm in
    let pk = parse_id-to_string k hk in
    (
      (rw (split_path-number n (codes "conversations"), is_number-to_string n) refl, (pn, tt)),
      (rw (split_path-number n (codes "public-key"), is_number-to_string n) refl, (pn, tt)),
      (rw (split_path-number n (codes "messages"), is_number-to_string n) refl, (pn, tt)),
      (rw (split_path-number n (codes "messages"), is_number-to_string n) refl, (pn, tt)),
      (
        rw
            (
              split_path-number n (codes "messages/" ++ to_string m),
              split_path-last m,
              is_number-to_string n,
              is_number-to_string m,
            )
            refl,
        (pn, (pm, tt)),
      ),
      (
        rw
            (
              split_path-number n
                  (codes "messages/" ++ (to_string m ++ (codes "/access/" ++ to_string k))),
              split_path-number m (codes "access/" ++ to_string k),
              split_path-last k,
              is_number-to_string n,
              is_number-to_string m,
              is_number-to_string k,
            )
            refl,
        (pn, (pm, (pk, tt))),
      ),
    )
