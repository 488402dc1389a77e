-- ===== src/KeyStore/Agreements.antt =====
-- The Diffie-Hellman agreements of a sender and a recipient.
use kingdom.Base.{ℕ, ◌≡◌, Bytes, Option, none, some}
use kingdom.Toolkit.{Crypto, box_key_bytes}
use kingdom.Toolkit.Laws.{CryptoLaws}
use kingdom.KeyStore.Identity.{LocalPreKey, LocalIdentityKey}
use kingdom.KeyStore.Messages.{key_part}
use kingdom.KeyStore.Outputs.{
  dh, one_time_dh, sender_outputs, recipient_one_time_dh, recipient_outputs,
}
use kingdom.KeyStore.Fields.{base64_decode_array-base64}

-- A private key and the text of its public key, drawn together.
abbrev pub KeyPair : Crypto → Bytes → Bytes → Type 0
KeyPair c private_key public_text =
    (seed : Bytes) × (private_key ≡ (c.box_keypair seed).1)
    × (public_text ≡ c.base64 (c.box_keypair seed).0)

-- What a bundle has of a one-time prekey.
abbrev pub bundle_part : Option LocalPreKey → Option (ℕ × Bytes)
bundle_part none = none
bundle_part (some key) = some (key.id, key.public_key)

module _ (c : Crypto) (laws : CryptoLaws c) where
  dh-seeds :
      (a b : Bytes)
      → dh c (c.box_keypair a).1 (c.base64 (c.box_keypair b).0)
        ≡ dh c (c.box_keypair b).1 (c.base64 (c.box_keypair a).0)
  unfolding dh
  dh-seeds a b = rw (
    base64_decode_array-base64 c laws box_key_bytes (c.box_keypair b).0 (laws.length-box_keypair b),
    base64_decode_array-base64 c laws box_key_bytes (c.box_keypair a).0 (laws.length-box_keypair a),
    laws.scalarmult-box_keypair a b,
  )

  -- Either side of two key pairs agrees on the same output.
  pub dh-KeyPair :
      {k k_text l l_text : Bytes}
      → KeyPair c k k_text
      → KeyPair c l l_text
      → dh c k l_text ≡ dh c l k_text
  dh-KeyPair (a, k, k_text) (b, l, l_text) = rw (k, k_text, l, l_text) (dh-seeds a b)

  -- The one-time prekey on either side.
  abbrev pub KeyPairs : LocalPreKey → Type 0
  KeyPairs key = KeyPair c key.private_key key.public_key

  abbrev pub OneTime : Option LocalPreKey → Type 0
  OneTime none = Unit {0}
  OneTime (some key) = KeyPairs key

  -- The sender's agreements are the recipient's.
  pub sender_outputs-recipient_outputs :
      (recipient : LocalIdentityKey) {s s_text e e_text : Bytes} (one : Option LocalPreKey)
      → KeyPair c s s_text
      → KeyPair c e e_text
      → KeyPair c recipient.private_key recipient.public_key
      → KeyPairs recipient.signed_pre_key
      → OneTime one
      → sender_outputs c s e recipient.public_key recipient.signed_pre_key.public_key
          (key_part (bundle_part one))
        ≡ recipient_outputs c recipient s_text e_text one
  unfolding sender_outputs recipient_outputs one_time_dh recipient_one_time_dh
  sender_outputs-recipient_outputs recipient none s e identity signed one =
      rw (dh-KeyPair s signed, dh-KeyPair e identity, dh-KeyPair e signed)
  sender_outputs-recipient_outputs recipient (some key) s e identity signed one =
      rw (dh-KeyPair s signed, dh-KeyPair e identity, dh-KeyPair e signed, dh-KeyPair e one)
