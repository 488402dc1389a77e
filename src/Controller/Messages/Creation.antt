-- ===== src/Controller/Messages/Creation.antt =====
-- Whose requests store a message, and what they write.
use kingdom.Base.{
  ℕ, ◌≡◌, ◌⊎◌, inl, inr, refl, ◌&&◌, Bytes, true, false, not, Option, Option-cases, none, some, [],
  ◌∷◌, ◌++◌, arith, Bool-cases, subst, sym, ap,
}
use kingdom.Outcome.{Exn, Result, ok, err}
use kingdom.Numerals.{parse_id}
use kingdom.Platform.{Platform}
use kingdom.Database.{Db}
use kingdom.Database.Conversations.{is_participant}
use kingdom.Database.Messages.{create_message, update_message_blockchain_digest, pending_prefix}
use kingdom.Database.PreKeys.{consume_one_time_pre_key}
use kingdom.Jwt.{Request, group}
use kingdom.Server.{
  Config, World, Server, Response, Action, bind, state, ◌>>=◌, answer, run_txn, conflict_or_throw,
  finish_txn, catch_runtime,
}
use kingdom.Server.Ends.{or_answer-ends, or_throw-ends, answer_if-ends, query-ends}
use kingdom.Controller.Auth.{parse_with}
use kingdom.Controller.Validation.{is_bad_length, max_payload_len}
use kingdom.Controller.Messages.{
  found_recipient, recipient_of, is_stranger, one_time_pre_key_id_from_payload, store_message,
  queue_for_blockchain, queued_id, record_digest, sidecar_body, handle_create_message,
}
use kingdom.Controller.Messages.Authority.{IsMember, is_member, require_user-ends}

module _ (lib : Platform) where
  -- The recipient that the body names: nobody where the field is absent or null.
  abbrev pub Names : lib.Json → Option ℕ → Type 0
  Names body none =
      (lib.contains body "recipientId" && not (lib.is_null (lib.index body "recipientId"))) ≡ false
  Names body (some recipient) =
      (lib.contains body "recipientId" ≡ true)
      × (lib.is_null (lib.index body "recipientId") ≡ false)
      × (lib.get_uint64 (lib.index body "recipientId") ≡ some recipient)

  -- A request whose body says who sends which payload to whom.
  pub record Asks (req : Request) (sender : ℕ) (payload : Bytes) (recipient : Option ℕ)
      : Type 0 where
    pub body : lib.Json
    pub parsed : parse_with lib ("senderId" ∷ "payload" ∷ []) req.body ≡ some body
    pub sender_id : lib.get_uint64 (lib.index body "senderId") ≡ some sender
    pub text : lib.get_string (lib.index body "payload") ≡ some payload
    pub names : Names body recipient
    pub short : is_bad_length max_payload_len payload ≡ false

module _ (lib : Platform) (config : Config) (world : World) (req : Request) (s : Server) where
  found_recipient-ends :
      (P : Server → Type 0) {B : Type 0} (o : Option ℕ) (f : Option ℕ → Action B)
      → P s
      → ((r : ℕ) → o ≡ some r → P (state (f (some r) s)))
      → P (state (bind (found_recipient lib o s) f))
  unfolding found_recipient
  found_recipient-ends P none f holds k = holds
  found_recipient-ends P (some r) f holds k = k r refl

  recipient_of-ends :
      (P : Server → Type 0) {B : Type 0} (body : lib.Json) (f : Option ℕ → Action B)
      → P s
      → ((r : Option ℕ) → Names lib body r → P (state (f r s)))
      → P (state ((recipient_of lib body >>= f) s))
  unfolding recipient_of ◌>>=◌
  recipient_of-ends P body f holds k =
      elim (Bool-cases
        (lib.contains body "recipientId" && not (lib.is_null (lib.index body "recipientId")))) [
          | inl e ↦ rw e (
              found_recipient-ends P (lib.get_uint64 (lib.index body "recipientId")) f holds
                (λ r found. k (some r) (ground (arith, e), ground (arith, e), found)))
          | inr e ↦ rw e (k none e)
        ]

  -- What `createMessage` does for the user, with the tables after it.
  abbrev pub creation : ℕ → ℕ → Bytes → Option ℕ → Result ℕ × Db
  creation conv_id user_id payload recipient =
      create_message (consume_one_time_pre_key lib) conv_id user_id payload world.now_millis
        recipient (one_time_pre_key_id_from_payload lib payload) s.db

  -- Nothing more, or the digest of the sidecar's answer at the message.
  abbrev pub IsQueued : ℕ → ℕ → Bytes → Db → Server → Type 0
  IsQueued conv_id msg_id payload db after =
      ((queued_id lib (world.sidecar (sidecar_body lib conv_id msg_id payload)) ≡ none)
        × (after.db ≡ db))
      ⊎ ((pending_id : Bytes) × (queued_id lib
              (world.sidecar (sidecar_body lib conv_id msg_id payload))
            ≡ some pending_id)
          × (after.db ≡ update_message_blockchain_digest msg_id (pending_prefix ++ pending_id) db))

  -- Nothing, or the call of `createMessage` for what the request asks, and the digest after it.
  abbrev pub IsCreated : Server → Type 0
  IsCreated after =
      (after.db ≡ s.db)
      ⊎ ((user_id conv_id : ℕ) × (payload : Bytes) × (recipient : Option ℕ) × IsMember lib config
            world req s user_id conv_id
          × Asks lib req user_id payload recipient
          × (is_stranger lib conv_id recipient s.db ≡ false)
          × (((e : Exn) × ((creation conv_id user_id payload recipient).0 ≡ err e)
                × (after.db ≡ (creation conv_id user_id payload recipient).1))
              ⊎ ((msg_id : ℕ) × ((creation conv_id user_id payload recipient).0 ≡ ok msg_id)
                  × IsQueued conv_id msg_id payload (creation conv_id user_id payload recipient).1
                      after)))

  queue-ends :
      (c m : ℕ) (payload : Bytes) (t : Server) (reply : Bytes → Response)
      → IsQueued c m payload t.db
          (state ((queue_for_blockchain lib world c m payload >>= λ d. answer (reply d)) t))
  unfolding queue_for_blockchain record_digest answer ◌>>=◌
  queue-ends c m payload t reply =
      elim (Option-cases (queued_id lib (world.sidecar (sidecar_body lib c m payload)))) [
        | inl e ↦ rw e (inl (refl, refl))
        | inr (p, e) ↦ rw e (inr (p, refl, refl))
      ]

  module _ (u c : ℕ) (payload : Bytes) (recipient : Option ℕ)
      (member : IsMember lib config world req s u c) (asks : Asks lib req u payload recipient)
      (known : is_stranger lib c recipient s.db ≡ false) where
    threw_out :
        (e : Exn) (db : Db)
        → creation c u payload recipient ≡ (err e, db)
        → IsCreated (record s { db = db })
    threw_out e db h = inr (
      u,
      c,
      payload,
      recipient,
      member,
      asks,
      known,
      inl (e, ap (λ (x : Result ℕ × Db). x.0) h, ap (λ (x : Result ℕ × Db). x.1) (sym h)),
    )

    finish-IsCreated :
        (r : Result ℕ × Db) (reply : ℕ → Bytes → Response)
        → creation c u payload recipient ≡ r
        → IsCreated (
            state (
              bind
                (catch_runtime lib (finish_txn s r))
                (λ m. queue_for_blockchain lib world c m payload >>= λ d. answer (reply m d))))
    finish-IsCreated (ok m, db) reply h = inr (
      u,
      c,
      payload,
      recipient,
      member,
      asks,
      known,
      inr (
        m,
        ap (λ (x : Result ℕ × Db). x.0) h,
        subst
            (λ (x : Result ℕ × Db). IsQueued c m payload x.1 (
              state (
                (queue_for_blockchain lib world c m payload >>= λ d. answer (reply m d))
                  (record s { db = db }))))
            (sym h) (queue-ends c m payload (record s { db = db }) (reply m)),
      ),
    )
    finish-IsCreated (err (Exn.runtime_error what), db) reply h =
        threw_out (Exn.runtime_error what) db h
    finish-IsCreated (err Exn.sql_error, db) reply h = threw_out (Exn.sql_error) db h
    finish-IsCreated (err Exn.other_error, db) reply h = threw_out (Exn.other_error) db h

    store-IsCreated :
        (reply : ℕ → Bytes → Response)
        → IsCreated (
            state (
              (store_message lib world c u payload recipient >>= λ m.
              queue_for_blockchain lib world c m payload >>= λ d. answer (reply m d))
                s))
    unfolding store_message conflict_or_throw run_txn ◌>>=◌
    store-IsCreated reply = finish-IsCreated (creation c u payload recipient) reply refl

  -- A request to send leaves the database as it is, or does what follows, for the user of its session,
  -- the conversation of its path, and the payload and the recipient of its body. The user is the sender
  -- that the body names and takes part in the conversation, and so does the recipient, if any. The
  -- request calls `createMessage` with these. Where that throws, nothing follows; where it returns an
  -- id, the digest of that message is set to `pending:` and the sidecar's answer, if there is one.
  pub handle_create_message-IsCreated :
      IsCreated (state (handle_create_message lib config world req s))
  unfolding handle_create_message
  handle_create_message-IsCreated =
      or_answer-ends IsCreated s (inl refl) _ (parse_id (group req 1)) _ (λ c conversation.
        or_answer-ends IsCreated s (inl refl) _ _ _ (λ body parsed.
          or_throw-ends IsCreated s (inl refl) _ _ _ (λ sender named.
            or_throw-ends IsCreated s (inl refl) _ _ _ (λ payload text.
              recipient_of-ends IsCreated body _ (inl refl) (λ recipient names.
                answer_if-ends IsCreated s (inl refl) _ _ _ (λ short.
                  require_user-ends lib config world req s IsCreated _ (inl refl) (λ u caller.
                    answer_if-ends IsCreated s (inl refl) _ _ _ (λ own.
                      query-ends IsCreated s (is_participant c u) _ (
                        answer_if-ends IsCreated s (inl refl) _ _ _ (λ member.
                          query-ends IsCreated s (is_stranger lib c recipient) _ (
                            answer_if-ends IsCreated s (inl refl) _ _ _ (λ known.
                              let same : u ≡ sender = ground (arith, own) in
                              store-IsCreated sender c payload recipient
                                (subst (λ x. IsMember lib config world req s x c) same
                                  (is_member lib config world req s u c caller conversation member))
                                (record {
                                  body = body;
                                  parsed = parsed;
                                  sender_id = named;
                                  text = text;
                                  names = names;
                                  short = short;
                                })
                                known _))))))))))))
