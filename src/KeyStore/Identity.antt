-- ===== src/KeyStore/Identity.antt =====
-- The structures of LocalKeyStore.hpp, and the making of keys.
use kingdom.Base.{ℕ, zero, suc, ◌+◌, Bytes, codes, List, [], ◌∷◌, map}
use kingdom.Toolkit.{Toolkit, Crypto}

pub record LocalPreKey : Type 0 where
  pub id : ℕ
  pub public_key : Bytes
  pub private_key : Bytes

pub record RegistrationKeyMaterial : Type 0 where
  pub public_key_bundle : Bytes
  pub key_file_path : Bytes

pub record LocalIdentityKey : Type 0 where
  pub public_key : Bytes
  pub private_key : Bytes
  pub signing_public_key : Bytes
  pub signing_secret_key : Bytes
  pub signed_pre_key : LocalPreKey
  pub one_time_pre_keys : List LocalPreKey
  pub key_file_path : Bytes

-- The keys come from the n-th drawn value.
unfoldable pub make_pre_key : Crypto → ℕ → ℕ → LocalPreKey
make_pre_key c draw pre_key_id = record {
  id = pre_key_id;
  public_key = c.base64 (c.box_keypair (c.random draw)).0;
  private_key = (c.box_keypair (c.random draw)).1;
}

-- The loop that makes the one-time prekeys, from the i-th on.
unfoldable pub make_pre_keys : Crypto → ℕ → ℕ → ℕ → List LocalPreKey
unfolding make_pre_key
make_pre_keys c zero draw i = []
make_pre_keys c (suc rounds) draw i =
    make_pre_key c draw (i + 1) ∷ make_pre_keys c rounds (draw + 1) (i + 1)

module _ (tk : Toolkit) (c : Crypto) where
  open tk use {Json, string, unsigned, array, object}

  unfoldable pub private_pre_key : LocalPreKey → Json
  private_pre_key key = object (
      (codes "id", unsigned key.id)
      ∷ (codes "publicKey", string key.public_key)
      ∷ (codes "privateKey", string (c.base64 key.private_key))
      ∷ [])

  unfoldable pub encrypted_private_material : LocalIdentityKey → Json
  unfolding private_pre_key
  encrypted_private_material identity = object (
      (codes "identityPrivateKey", string (c.base64 identity.private_key))
      ∷ (codes "signingSecretKey", string (c.base64 identity.signing_secret_key))
      ∷ (codes "signedPreKey", private_pre_key identity.signed_pre_key)
      ∷ (codes "oneTimePreKeys", array (map private_pre_key identity.one_time_pre_keys))
      ∷ [])
