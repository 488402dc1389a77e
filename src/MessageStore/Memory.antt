-- ===== src/MessageStore/Memory.antt =====
-- kd::Message and kd::Conversation, the members of MessageStore, and its operations in memory.
use kingdom.Base.{
  ℕ, Bytes, codes, Bool, Option, none, some, List, [], ◌∷◌, ◌++◌, keep_if, any, ◌==◌, if◌then◌else◌,
}
use kingdom.Numerals.{to_string}

pub record Message : Type 0 where
  pub id : ℕ
  pub sender_id : ℕ
  pub conversation_id : ℕ
  pub payload : Bytes
  pub timestamp : ℕ
  pub blockchain_digest : Bytes

unfoldable pub formatted : Message → Bytes
formatted m =
    codes "["
    ++ (to_string m.timestamp
        ++ (codes "] User " ++ (to_string m.sender_id ++ (codes ": " ++ m.payload))))

-- Conversation::hasParticipant on the list of ids.
unfoldable pub has_participant : List ℕ → ℕ → Bool
has_participant participant_ids user_id = any (λ (n : ℕ). n == user_id) participant_ids

pub record MessageStore : Type 0 where
  pub messages : List Message
  pub public_key_cache : List (ℕ × Bytes)
  pub store_path : Bytes
  pub username : Bytes
  pub encryption_key : Bytes
  pub salt : Bytes
  pub ops_limit : ℕ
  pub mem_limit : ℕ
  pub encrypted_at_rest : Bool

unfoldable pub add : Message → MessageStore → MessageStore
add message store = record store { messages = store.messages ++ message ∷ [] }

unfoldable pub get_all : MessageStore → List Message
get_all store = store.messages

unfoldable pub find_by_sender : ℕ → MessageStore → List Message
find_by_sender sender_id store = keep_if (λ (m : Message). m.sender_id == sender_id) store.messages

unfoldable pub clear : MessageStore → MessageStore
clear store = record store { messages = [] }

-- `std::map` with numbers for keys.
unfoldable pub put_key : ℕ → Bytes → List (ℕ × Bytes) → List (ℕ × Bytes)
put_key user_id public_key [] = (user_id, public_key) ∷ []
put_key user_id public_key ((n, key) ∷ rest) =
    if n == user_id
    then (user_id, public_key) ∷ rest
    else (n, key) ∷ put_key user_id public_key rest

unfoldable pub find_key : ℕ → List (ℕ × Bytes) → Option Bytes
find_key user_id [] = none
find_key user_id ((n, key) ∷ rest) = if n == user_id then some key else find_key user_id rest

unfoldable pub cache_public_key : ℕ → Bytes → MessageStore → MessageStore
unfolding put_key
cache_public_key user_id public_key store = record store {
  public_key_cache = put_key user_id public_key store.public_key_cache;
}

unfoldable pub get_cached_public_key : ℕ → MessageStore → Option Bytes
unfolding find_key
get_cached_public_key user_id store = find_key user_id store.public_key_cache
