-- ===== src/KeyStore/OneTime.antt =====
-- One-time prekeys: a key that has decrypted a message is out of use.
use kingdom.Base.{
  ℕ, ◌≡◌, refl, sym, subst, ap, ◌∙◌, Bytes, codes, Bool, true, false, Option, none, some, List, [],
  ◌∷◌, any, find_if, Distinct, Bool-cases, inl, inr, is_empty, arith, ◌==◌,
}
use kingdom.Outcome.{
  some-injective, guard, Result, ok, err, IsErr, IsErr->>=, ok-injective, runtime_error, >>=-IsErr,
  >>=-parts, err-ok, Exn,
}
use kingdom.Toolkit.{Toolkit, Crypto}
use kingdom.Drive.{Drive}
use kingdom.KeyStore.Identity.{LocalPreKey, LocalIdentityKey}
use kingdom.KeyStore.Bundle.{parse_json, string_field, number_field}
use kingdom.KeyStore.Encoding.{ensure_sodium_initialized}
use kingdom.KeyStore.Files.{has_id, remove_first, without_key, erase_one_time_pre_key, erased}
use kingdom.KeyStore.Messages.{
  Context, optional_id_field, find_pre_key, open_message, checked_sender, decrypt_text,
  finish_message, returning, decrypt_message, one_time_pre_key_id_of,
}

abbrev wrong_signed_pre_key : Exn
wrong_signed_pre_key = runtime_error "Recipient signed prekey is missing"

-- No two prekeys with one id.
abbrev pub same_id : LocalPreKey → LocalPreKey → Bool
same_id k l = l.id == k.id

no_other :
    (n : ℕ) (key : LocalPreKey) (keys : List LocalPreKey)
    → (key.id == n) ≡ true
    → any (same_id key) keys ≡ false
    → find_if (has_id n) keys ≡ none
unfolding any find_if
no_other n key [] e h = refl
no_other n key (k ∷ keys) e h = ground (arith, no_other n key keys e)

-- The list of distinct keys has none with the id that was taken out.
find_if-remove_first :
    (n : ℕ) (keys : List LocalPreKey)
    → Distinct same_id keys
    → find_if (has_id n) (remove_first n keys) ≡ none
unfolding find_if remove_first
find_if-remove_first n [] d = refl
find_if-remove_first n (k ∷ keys) d = elim (Bool-cases (k.id == n)) [
  | inl e ↦ rw e (no_other n k keys e d.0)
  | inr e ↦ rw e (rw e (find_if-remove_first n keys d.1))
]

second :
    {A B : Type 0} {a b : A} {x y : B} → ◌≡◌ {A = Result (A × B)} (ok (a, x)) (ok (b, y)) → x ≡ y
second h = cc

none-some : {n : ℕ} → ◌≡◌ {A = Result (Option ℕ)} (ok none) (ok (some n)) → ⊥
none-some h = cc

module _ (tk : Toolkit) (c : Crypto) where
  open tk use {Json}

  -- What an opened message says of the prekey that it names.
  abbrev Names : Bytes → Option ℕ → Type 0
  Names payload named =
      (json : Json) × (parse_json tk payload ≡ ok json) × (optional_id_field tk json ≡ ok named)

  missing :
      (recipient : LocalIdentityKey) (id : Option ℕ) {n : ℕ}
      → id ≡ some n
      → find_if (has_id n) recipient.one_time_pre_keys ≡ none
      → IsErr (find_pre_key tk c recipient id)
  unfolding find_pre_key
  missing recipient none h gone = cc
  missing recipient (some m) h gone =
      rw (ap (λ k. find_if (has_id k) recipient.one_time_pre_keys) (some-injective h) ∙ gone)
        (runtime_error "One-time prekey is missing or already used", refl)

  same_field :
      (payload : Bytes) {found json : Json} {named : Option ℕ}
      → parse_json tk payload ≡ ok found
      → parse_json tk payload ≡ ok json
      → optional_id_field tk json ≡ ok named
      → optional_id_field tk found ≡ ok named
  same_field payload found parsed h =
      ap (optional_id_field tk) (ok-injective (sym found ∙ parsed)) ∙ h

  open_message-missing :
      (payload : Bytes) (recipient : LocalIdentityKey) (bundle : Bytes) (context : Context) {n : ℕ}
      → Names payload (some n)
      → find_if (has_id n) recipient.one_time_pre_keys ≡ none
      → IsErr (open_message tk c payload recipient bundle context)
  unfolding open_message
  open_message-missing payload recipient bundle context (json, parsed, named) gone =
      >>=-IsErr (ensure_sodium_initialized c) λ u e0. >>=-IsErr (parse_json tk payload) λ found e1.
        >>=-IsErr (checked_sender tk c found bundle) λ sender e2.
          >>=-IsErr (string_field tk found (codes "senderEphemeralPublicKey")) λ key e3.
            >>=-IsErr (number_field tk found (codes "signedPreKeyId")) λ signed_id e4.
              >>=-IsErr (guard (recipient.signed_pre_key.id == signed_id) wrong_signed_pre_key)
                λ v e5. >>=-IsErr (optional_id_field tk found) λ id e6.
                  IsErr->>= (find_pre_key tk c recipient id) _ (
                    missing recipient id
                      (ok-injective (sym e6 ∙ same_field payload e1 parsed named)) gone)

  open_message-Names :
      (payload : Bytes) (recipient : LocalIdentityKey) (bundle : Bytes) (context : Context)
      {text : Bytes} {named : Option ℕ}
      → open_message tk c payload recipient bundle context ≡ ok (text, named)
      → Names payload named
  unfolding open_message
  open_message-Names payload recipient bundle context h =
      >>=-parts (ensure_sodium_initialized c) _ h λ u e0 h1.
        >>=-parts (parse_json tk payload) _ h1 λ json e1 h2.
          >>=-parts (checked_sender tk c json bundle) _ h2 λ sender e2 h3.
            >>=-parts (string_field tk json (codes "senderEphemeralPublicKey")) _ h3 λ key e3 h4.
              >>=-parts (number_field tk json (codes "signedPreKeyId")) _ h4 λ signed_id e4 h5.
                >>=-parts (guard (recipient.signed_pre_key.id == signed_id) wrong_signed_pre_key) _
                  h5
                  λ v e5 h6. >>=-parts (optional_id_field tk json) _ h6 λ id e6 h7.
                    >>=-parts (find_pre_key tk c recipient id) _ h7 λ one e7 h8.
                      >>=-parts (decrypt_text tk c json recipient context _ one) _ h8
                        λ text e8 h9. (json, e1, e6 ∙ ap ok (second h9))

  id-Names :
      (payload : Bytes) {n : ℕ}
      → one_time_pre_key_id_of tk payload ≡ ok (some n)
      → Names payload (some n)
  unfolding one_time_pre_key_id_of
  id-Names payload h = >>=-parts (parse_json tk payload) _ h λ json e rest.
      elim (Bool-cases (tk.contains json (codes "oneTimePreKeyId"))) [
        | inl there ↦ (json, e, rw there at rest)
        | inr absent ↦ absurd (none-some (rw absent at rest))
      ]

  erased-after :
      (t : Bytes) (w : LocalIdentityKey) (x : Result (Unit {0}) × Drive) {text : Bytes}
      {after : LocalIdentityKey}
      → (returning tk c t (erased w x)).0 ≡ (ok text, after)
      → w ≡ after
  unfolding returning
  erased-after t w (ok u, d) h = ap (λ p. p.1) h
  erased-after t w (err e, d) h = ap (λ p. p.1) h

  returning-after :
      (t : Bytes) (recipient : LocalIdentityKey) (m : ℕ) (d : Drive) {text : Bytes}
      {after : LocalIdentityKey}
      → (returning tk c t (erase_one_time_pre_key tk recipient m d)).0 ≡ (ok text, after)
      → without_key m recipient ≡ after
  unfolding returning erase_one_time_pre_key
  returning-after t recipient m d h =
      elim (Bool-cases (any (has_id m) recipient.one_time_pre_keys)) [
        | inl there ↦ elim (Bool-cases (is_empty recipient.key_file_path)) [
          | inl no_file ↦ ap (λ p. p.1) (rw (there, no_file) at h)
          | inr file ↦ erased-after t (without_key m recipient) _ (rw (there, file) at h)
        ]
        | inr gone ↦ absurd (err-ok (ap (λ p. p.0) (rw gone at h)))
      ]

  finish-after :
      (recipient : LocalIdentityKey) (m : Result (Bytes × Option ℕ)) (d : Drive) {n : ℕ}
      {text : Bytes} {after : LocalIdentityKey}
      → ((t : Bytes) (id : Option ℕ) → m ≡ ok (t, id) → id ≡ some n)
      → (finish_message tk c recipient m d).0 ≡ (ok text, after)
      → without_key n recipient ≡ after
  unfolding finish_message
  finish-after recipient (err e) d named h = absurd (err-ok (ap (λ p. p.0) h))
  finish-after recipient (ok (t, none)) d named h = absurd (none-some (ap ok (named t none refl)))
  finish-after recipient (ok (t, some m)) d named h =
      ap (λ k. without_key k recipient) (sym (some-injective (named t (some m) refl)))
      ∙ returning-after t recipient m d h

  finish-IsErr :
      (recipient : LocalIdentityKey) (m : Result (Bytes × Option ℕ)) (d : Drive)
      → IsErr m
      → IsErr (finish_message tk c recipient m d).0.0
  unfolding finish_message
  finish-IsErr recipient (err e) d h = (e, refl)
  finish-IsErr recipient (ok (t, id)) d (e, h) = absurd (err-ok (sym h))

  named_alike :
      (payload : Bytes) {n : ℕ} {id : Option ℕ}
      → Names payload (some n)
      → Names payload id
      → id ≡ some n
  named_alike payload (json, parsed, named) (found, e, other) =
      ok-injective (sym other ∙ same_field payload e parsed named)

  -- Where a call has decrypted a message whose one-time prekey is named, and the recipient's
  -- prekeys have different ids, every later decryption of that payload with the identity as the
  -- call has left it throws, for whichever bundle, conversation and state of the disk.
  pub decrypt_message-decrypt_message :
      (payload : Bytes) (recipient after : LocalIdentityKey) (bundle other_bundle : Bytes)
      (context other_context : Context) (d later : Drive) {text : Bytes} {n : ℕ}
      → Distinct same_id recipient.one_time_pre_keys
      → one_time_pre_key_id_of tk payload ≡ ok (some n)
      → (decrypt_message tk c payload recipient bundle context d).0 ≡ (ok text, after)
      → IsErr (decrypt_message tk c payload after other_bundle other_context later).0.0
  unfolding decrypt_message without_key
  decrypt_message-decrypt_message payload recipient after bundle other_bundle context other_context
        d later {n = n} distinct named h =
      finish-IsErr after _ later (
        open_message-missing payload after other_bundle other_context (id-Names payload named) (
          subst (λ (r : LocalIdentityKey). find_if (has_id n) r.one_time_pre_keys ≡ none)
            (finish-after recipient _ d
              (λ t id e.
                named_alike payload (id-Names payload named)
                  (open_message-Names payload recipient bundle context e))
              h)
            (find_if-remove_first n recipient.one_time_pre_keys distinct)))
