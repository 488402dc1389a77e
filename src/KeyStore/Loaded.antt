-- ===== src/KeyStore/Loaded.antt =====
-- The identity that loadForLogin makes has no prekey that the key file lists as used.
use kingdom.Base.{
  ℕ, ◌≡◌, sym, ap, ◌∙◌, subst, Bytes, codes, false, Option, List, [], ◌∷◌, All, Bool-cases, inl,
  inr,
}
use kingdom.Outcome.{Result, ok, ok-injective, >>=-parts, guard, runtime_error}
use kingdom.Toolkit.{Toolkit, Crypto, box_key_bytes, sign_secret_bytes}
use kingdom.Drive.{Drive}
use kingdom.KeyStore.Encoding.{ensure_sodium_initialized, base64_decode_array, default_key_path}
use kingdom.KeyStore.Identity.{LocalPreKey, LocalIdentityKey}
use kingdom.KeyStore.Bundle.{field, string_field, number_field, validate_bundle}
use kingdom.KeyStore.Files.{read_json_file}
use kingdom.KeyStore.Login.{
  is_used, used_ids, load_pre_key, load_unless, load_pre_keys, load_one_time_pre_keys,
  load_identity, load_file, load_for_login, is_supported_file, has_crypto_parameters,
  private_material,
}

module _ (tk : Toolkit) (c : Crypto) where
  open tk use {Json}

  -- What is loaded as a prekey has the id of its entry.
  load_pre_key-id :
      (json : Json) {key : LocalPreKey} {n : ℕ}
      → load_pre_key tk c json ≡ ok key
      → number_field tk json (codes "id") ≡ ok n
      → key.id ≡ n
  unfolding load_pre_key
  load_pre_key-id json h named = >>=-parts (number_field tk json (codes "id")) _ h λ n e h1.
      >>=-parts (string_field tk json (codes "publicKey")) _ h1 λ public_key e1 h2.
        >>=-parts (string_field tk json (codes "privateKey")) _ h2 λ text e2 h3.
          >>=-parts (base64_decode_array c box_key_bytes text) _ h3 λ private_key e3 h4.
            ap (λ (k : LocalPreKey). k.id) (sym (ok-injective h4)) ∙ ok-injective (sym e ∙ named)

  abbrev pub Unused : List ℕ → List LocalPreKey → Type 0
  Unused used keys = All (λ (k : LocalPreKey). is_used used k.id ≡ false) keys

  load_unless-Unused :
      (used : List ℕ) (json : Json) (n : ℕ) (rest : Result (List LocalPreKey))
      {keys : List LocalPreKey}
      → number_field tk json (codes "id") ≡ ok n
      → ((others : List LocalPreKey) → rest ≡ ok others → Unused used others)
      → load_unless tk c (is_used used n) json rest ≡ ok keys
      → Unused used keys
  unfolding load_unless
  load_unless-Unused used json n rest {keys} named others h = elim (Bool-cases (is_used used n)) [
    | inl hit ↦ others keys (rw hit at h)
    | inr fresh ↦ >>=-parts (load_pre_key tk c json) _ (rw fresh at h) λ key e h1.
        >>=-parts rest _ h1 λ more e1 h2.
          subst (Unused used) (ok-injective h2)
            (ap (is_used used) (load_pre_key-id json e named) ∙ fresh, others more e1)
  ]

  load_pre_keys-Unused :
      (used : List ℕ) (entries : List Json) {keys : List LocalPreKey}
      → load_pre_keys tk c used entries ≡ ok keys
      → Unused used keys
  unfolding load_pre_keys
  load_pre_keys-Unused used [] h = subst (Unused used) (ok-injective h) tt
  load_pre_keys-Unused used (json ∷ rest) h =
      >>=-parts (number_field tk json (codes "id")) _ h λ n e h1.
        load_unless-Unused used json n (load_pre_keys tk c used rest) e
          (λ others k. load_pre_keys-Unused used rest k) h1

  load_identity-Unused :
      (path : Bytes) (file bundle material : Json) {identity : LocalIdentityKey}
      → load_identity tk c path file bundle material ≡ ok identity
      → (used : List ℕ) × (used_ids tk file ≡ ok used) × Unused used identity.one_time_pre_keys
  unfolding load_identity load_one_time_pre_keys
  load_identity-Unused path file bundle material h =
      >>=-parts (string_field tk bundle (codes "identityKey")) _ h λ public_key e h1.
        >>=-parts (string_field tk material (codes "identityPrivateKey")) _ h1 λ text e1 h2.
          >>=-parts (base64_decode_array c box_key_bytes text) _ h2 λ private_key e2 h3.
            >>=-parts (string_field tk bundle (codes "signingKey")) _ h3 λ signing_key e3 h4.
              >>=-parts (string_field tk material (codes "signingSecretKey")) _ h4 λ secret e4 h5.
                >>=-parts (base64_decode_array c sign_secret_bytes secret) _ h5 λ secret_key e5 h6.
                  >>=-parts (field tk material (codes "signedPreKey")) _ h6 λ signed_json e6 h7.
                    >>=-parts (load_pre_key tk c signed_json) _ h7 λ signed e7 h8.
                      >>=-parts (load_one_time_pre_keys tk c file material) _ h8 λ keys e8 h9.
                        >>=-parts (used_ids tk file) _ e8 λ found e9 h10.
                          >>=-parts (field tk material (codes "oneTimePreKeys")) _ h10
                            λ json e10 h11. (
                              found,
                              e9,
                              subst (Unused found)
                                  (ap (λ (i : LocalIdentityKey). i.one_time_pre_keys)
                                    (ok-injective h9))
                                  (load_pre_keys-Unused found (tk.elements json) h11),
                            )

  load_file-Unused :
      (path username password : Bytes) (file : Json) {identity : LocalIdentityKey}
      → load_file tk c path username password file ≡ ok identity
      → (used : List ℕ) × (used_ids tk file ≡ ok used) × Unused used identity.one_time_pre_keys
  unfolding load_file
  load_file-Unused path username password file h =
      >>=-parts (is_supported_file tk username file) _ h λ supported e h1.
        >>=-parts (guard supported (runtime_error "Unsupported local key file format")) _ h1
          λ u e1 h2. >>=-parts (field tk file (codes "publicKeyBundle")) _ h2 λ bundle e2 h3.
            >>=-parts (validate_bundle tk c bundle) _ h3 λ v e3 h4.
              >>=-parts (field tk file (codes "privateMaterial")) _ h4 λ private_json e4 h5.
                >>=-parts (field tk file (codes "kdf")) _ h5 λ kdf e5 h6.
                  >>=-parts (has_crypto_parameters tk private_json kdf) _ h6 λ parameters e6 h7.
                    >>=-parts
                      (guard parameters
                        (runtime_error "Unsupported local key file crypto parameters"))
                      _ h7
                      λ w e7 h8.
                        >>=-parts (private_material tk c username password private_json kdf) _ h8
                          λ material e8 h9. load_identity-Unused path file bundle material h9

  pub load_for_login-Unused :
      (home : Option Bytes) (username password path : Bytes) (d : Drive)
      {identity : LocalIdentityKey}
      → default_key_path home username ≡ ok path
      → load_for_login tk c home username password d ≡ ok identity
      → (file : Json) × (used : List ℕ) × ((read_json_file tk path d).0 ≡ ok file)
        × (used_ids tk file ≡ ok used)
        × Unused used identity.one_time_pre_keys
  unfolding load_for_login
  load_for_login-Unused home username password path d at_path h =
      >>=-parts (ensure_sodium_initialized c) _ h λ u e h1.
        >>=-parts (default_key_path home username) _ h1 λ found e1 h2.
          >>=-parts (read_json_file tk found d).0 _ h2 λ file e2 h3.
            let (used, listed, unused) = load_file-Unused found username password file h3 in
            (
              file,
              used,
              subst (λ p. (read_json_file tk p d).0 ≡ ok file) (ok-injective (sym e1 ∙ at_path)) e2,
              listed,
              unused,
            )
