-- ===== src/Controller/Resolver.antt =====
-- One round of the blockchain resolver: Controller.cc lines 387-418.
use kingdom.Base.{
  ℕ, Bytes, codes, bytes_eq, Option, none, some, List, [], ◌∷◌, ◌++◌, if◌then◌else◌, ◌==◌,
}
use kingdom.Platform.{Platform}
use kingdom.Database.{Db}
use kingdom.Database.Messages.{update_message_blockchain_digest, get_pending_blockchain_messages}

-- What a pending message turns out to be: its transaction, a failure, or nothing yet. A throw in
-- the `try` block counts as nothing.
pub data Resolution : Type 0 where
  confirmed : Bytes → Resolution
  failed unresolved : Resolution

module _ (lib : Platform) where
  open lib use {Json, parse, index, get_string}

  confirmed_by : Option Bytes → Resolution
  confirmed_by none = unresolved
  confirmed_by (some tx_hash) = confirmed tx_hash

  resolution_of : Option Json → Resolution
  unfolding confirmed_by
  resolution_of none = unresolved
  resolution_of (some json) = elim (get_string (index json "status")) [
    | none ↦ unresolved
    | some status ↦
        if bytes_eq status (codes "confirmed")
        then confirmed_by (get_string (index json "txHash"))
        else if bytes_eq status (codes "failed")
        then failed
        else unresolved
  ]

  unfoldable pub resolution : Option (ℕ × Bytes) → Resolution
  unfolding resolution_of
  resolution none = unresolved
  resolution (some (status, text)) =
      if status == 200 then resolution_of (parse text) else unresolved

  unfoldable pub apply_resolution : ℕ → Resolution → Db → Db
  apply_resolution msg_id (confirmed tx_hash) db =
      update_message_blockchain_digest msg_id tx_hash db
  apply_resolution msg_id failed db = update_message_blockchain_digest msg_id [] db
  apply_resolution msg_id unresolved db = db

  -- `get` is the sidecar's answer to a path.
  unfoldable pub resolve_each : (Bytes → Option (ℕ × Bytes)) → List (ℕ × Bytes) → Db → Db
  unfolding apply_resolution
  resolve_each get [] db = db
  resolve_each get ((msg_id, pending_id) ∷ rest) db =
      resolve_each get rest
        (apply_resolution msg_id (resolution (get (codes "/pending/" ++ pending_id))) db)

  unfoldable pub resolve_pending : (Bytes → Option (ℕ × Bytes)) → Db → Db
  unfolding resolve_each
  resolve_pending get db = resolve_each get (get_pending_blockchain_messages db) db
