-- ===== src/KeyStore/Outputs.antt =====
-- The key agreements of a message: dh, deriveX3dhKey, and the outputs on either side.
use kingdom.Base.{Bytes, codes, Option, none, some, List, [], ◌∷◌, ◌++◌}
use kingdom.Outcome.{Result, ok, runtime_error, or_err, ◌>>=◌}
use kingdom.Toolkit.{Crypto, box_key_bytes}
use kingdom.KeyStore.Encoding.{base64_decode_array, derive_key}
use kingdom.KeyStore.Identity.{LocalPreKey, LocalIdentityKey}

abbrev pub x3dh_hkdf_info : Bytes
x3dh_hkdf_info = codes "kd-x3dh-message-key-v1"

abbrev pub x3dh_hkdf_salt : Bytes
x3dh_hkdf_salt = codes "kd-x3dh-session-salt-v1"

module _ (c : Crypto) where
  unfoldable pub dh : Bytes → Bytes → Result Bytes
  dh private_key public_text = do
    public_key ← base64_decode_array c box_key_bytes public_text
    or_err (runtime_error "X25519 DH failed") (c.scalarmult private_key public_key)

  unfoldable pub concat_outputs : List Bytes → Bytes
  concat_outputs [] = []
  concat_outputs (output ∷ outputs) = output ++ concat_outputs outputs

  unfoldable pub derive_x3dh_key : List Bytes → Result Bytes
  unfolding concat_outputs
  derive_x3dh_key outputs = derive_key c (concat_outputs outputs) x3dh_hkdf_info x3dh_hkdf_salt

  -- The fourth agreement, with a one-time prekey where there is one.
  unfoldable pub one_time_dh : Bytes → Option Bytes → Result (List Bytes)
  one_time_dh private_key none = ok []
  one_time_dh private_key (some public_text) = do
    output ← dh private_key public_text
    ok (output ∷ [])

  -- The agreements of the sender, with the recipient's public keys.
  unfoldable pub sender_outputs : Bytes → Bytes → Bytes → Bytes → Option Bytes → Result (List Bytes)
  sender_outputs private_key ephemeral_private identity_key signed_pre_key one_time_key = do
    first ← dh private_key signed_pre_key
    second ← dh ephemeral_private identity_key
    third ← dh ephemeral_private signed_pre_key
    fourth ← one_time_dh ephemeral_private one_time_key
    ok (first ∷ second ∷ third ∷ fourth)

  unfoldable pub recipient_one_time_dh : Option LocalPreKey → Bytes → Result (List Bytes)
  recipient_one_time_dh none ephemeral_key = ok []
  recipient_one_time_dh (some key) ephemeral_key = do
    output ← dh key.private_key ephemeral_key
    ok (output ∷ [])

  -- The agreements of the recipient, with the sender's public keys.
  unfoldable pub recipient_outputs :
      LocalIdentityKey → Bytes → Bytes → Option LocalPreKey → Result (List Bytes)
  unfolding recipient_one_time_dh
  recipient_outputs recipient identity_key ephemeral_key one_time_key = do
    first ← dh recipient.signed_pre_key.private_key identity_key
    second ← dh recipient.private_key ephemeral_key
    third ← dh recipient.signed_pre_key.private_key ephemeral_key
    fourth ← recipient_one_time_dh one_time_key ephemeral_key
    ok (first ∷ second ∷ third ∷ fourth)
