-- ===== src/KeyStore/Reload.antt =====
-- A one-time prekey that was erased, and the identity that is loaded afterwards.
use kingdom.Base.{
  ℕ, ◌<◌, ◌≡◌, refl, sym, ap, ◌∙◌, Bytes, true, false, Option, List, [], ◌∷◌, any, All, Bool-cases,
  inl, inr, ◌==◌, ==_iff, is_empty,
}
use kingdom.Outcome.{true-false, Result, ok, err-ok}
use kingdom.Numerals.{u64_limit}
use kingdom.Toolkit.{Toolkit, Crypto}
use kingdom.Toolkit.Laws.{JsonLaws}
use kingdom.Drive.{Drive}
use kingdom.KeyStore.Encoding.{default_key_path}
use kingdom.KeyStore.Identity.{LocalPreKey, LocalIdentityKey}
use kingdom.KeyStore.Files.{record_used, erase_one_time_pre_key, erased, has_id}
use kingdom.KeyStore.Login.{is_used, load_for_login}
use kingdom.KeyStore.Loaded.{load_for_login-Unused}
use kingdom.KeyStore.Recorded.{record_used-is_used}

not_used-any :
    (used : List ℕ) (n : ℕ) (keys : List LocalPreKey)
    → is_used used n ≡ true
    → All (λ (k : LocalPreKey). is_used used k.id ≡ false) keys
    → any (has_id n) keys ≡ false
unfolding any
not_used-any used n [] h a = refl
not_used-any used n (k ∷ keys) h a = elim (Bool-cases (k.id == n)) [
  | inl e ↦ absurd (true-false (sym h ∙ ap (is_used used) (sym ((==_iff k.id n).0 e)) ∙ a.0))
  | inr e ↦ rw e (not_used-any used n keys h a.1)
]

module _ (tk : Toolkit) (c : Crypto) (laws : JsonLaws tk) where
  erased-parts :
      (identity after : LocalIdentityKey) (x : Result (Unit {0}) × Drive) {u : Unit {0}} {d : Drive}
      → erased identity x ≡ ((ok u, after), d)
      → x ≡ (ok u, d)
  erased-parts identity after (r, d) h = ap (λ p. (p.0.0, p.1)) h

  -- Where the JSON library behaves as documented, and for an id below 2^64:
  -- Once a one-time prekey of an identity with a key file was erased without an error, an identity
  -- that is loaded from that file, as the call has left it, has no prekey with its id.
  pub erase_one_time_pre_key-load_for_login :
      (home : Option Bytes) (username password : Bytes) (identity after loaded : LocalIdentityKey)
      (n : ℕ) (d left : Drive) {u : Unit {0}}
      → n < u64_limit
      → is_empty identity.key_file_path ≡ false
      → default_key_path home username ≡ ok identity.key_file_path
      → erase_one_time_pre_key tk identity n d ≡ ((ok u, after), left)
      → load_for_login tk c home username password left ≡ ok loaded
      → any (has_id n) loaded.one_time_pre_keys ≡ false
  unfolding erase_one_time_pre_key
  erase_one_time_pre_key-load_for_login home username password identity after loaded n d left small
        named at_path h load =
      elim (Bool-cases (any (has_id n) identity.one_time_pre_keys)) [
        | inl there ↦
            let (file, used, reads, listed, unused) =
              load_for_login-Unused tk c home username password identity.key_file_path left at_path
                load in
            not_used-any used n loaded.one_time_pre_keys
              (record_used-is_used tk laws identity.key_file_path n small d left file
                (erased-parts _ after (record_used tk identity.key_file_path n d)
                  (rw (there, named) at h))
                reads listed)
              unused
        | inr gone ↦ absurd (err-ok (ap (λ p. p.0.0) (rw gone at h)))
      ]
