-- ===== src/Client/Cleanup.antt =====
-- What a signup that the server does not accept leaves of its key file.
use kingdom.Base.{
  ℕ, ◌≡◌, ◌⊎◌, refl, sym, subst, ap, ◌∙◌, Bytes, codes, bytes_eq, true, false, not, Option, none,
  some, List, [], ◌∷◌, keep_if, lookup, Bool-cases, inl, inr,
}
use kingdom.Outcome.{Result, ok, err, IsErr}
use kingdom.Toolkit.{Toolkit, Crypto}
use kingdom.Drive.{Drive, exists, remove_file, try_remove}
use kingdom.KeyStore.Identity.{RegistrationKeyMaterial}
use kingdom.KeyStore.Signup.{create_for_signup}
use kingdom.Client.Calls.{Client, Transport, is_created, accepted_body, plain_call, signup_body}
use kingdom.Client.Session.{after_signup, register_account, register_created, signup}

lookup-removed :
    (path : Bytes) (files : List (Bytes × Bytes))
    → lookup path (keep_if (λ (e : Bytes × Bytes). not (bytes_eq e.0 path)) files) ≡ none
unfolding lookup keep_if
lookup-removed path [] = refl
lookup-removed path ((k, v) ∷ files) = elim (Bool-cases (bytes_eq k path)) [
  | inl same ↦ rw same (lookup-removed path files)
  | inr other ↦ rw other (rw other (lookup-removed path files))
]

exists-remove_file : (path : Bytes) (d : Drive) → exists path (remove_file path d) ≡ false
unfolding exists remove_file
exists-remove_file path d = rw (lookup-removed path d.files) refl

-- No answer arrives, or one whose status is neither 200 nor 201.
abbrev pub Refused : Option (ℕ × Bytes) → Type 0
Refused none = Unit {0}
Refused (some (status, body)) = is_created status ≡ false

-- The key file is gone, or it cannot be removed and the files are as they were.
abbrev pub IsCleaned : Bytes → Drive → Drive → Type 0
IsCleaned path d after =
    ((d.faults.no_remove path ≡ false) × (exists path after ≡ false))
    ⊎ ((d.faults.no_remove path ≡ true) × (after ≡ d))

try_remove-IsCleaned : (path : Bytes) (d : Drive) → IsCleaned path d (try_remove path d)
unfolding try_remove
try_remove-IsCleaned path d = elim (Bool-cases (d.faults.no_remove path)) [
  | inl stuck ↦ rw stuck (inr (refl, refl))
  | inr free ↦ rw free (inl (refl, exists-remove_file path d))
]

module _ (tk : Toolkit) (send : Transport) (c : Crypto) where
  accepted_body-Refused :
      (client : Client) (answer : Option (ℕ × Bytes))
      → Refused answer
      → IsErr (accepted_body client is_created answer)
  unfolding accepted_body
  accepted_body-Refused client none h = (_, refl)
  accepted_body-Refused client (some (status, body)) h = rw h (_, refl)

  after_signup-IsErr :
      (client : Client) (path : Bytes) (r : Result Bytes) (d : Drive)
      → IsErr r
      → IsErr (after_signup tk send client path r d).0.0
        × ((after_signup tk send client path r d).0.1 ≡ client)
        × IsCleaned path d (after_signup tk send client path r d).1
  unfolding after_signup
  after_signup-IsErr client path (ok body) d h = cc
  after_signup-IsErr client path (err e) d h = ((e, refl), refl, try_remove-IsCleaned path d)

  signup_sent :
      (home : Option Bytes) (client : Client) (username password : Bytes) (d made : Drive)
      (material : RegistrationKeyMaterial) (text : Bytes)
      → create_for_signup tk c home username password d ≡ (ok material, made)
      → tk.print (signup_body tk username password material.public_key_bundle) ≡ some text
      → signup tk send c home client username password d
        ≡ after_signup tk send client material.key_file_path
            (accepted_body client is_created
              (send (plain_call client (codes "POST") (codes "/signup") (some text))))
            made
  unfolding signup register_created register_account
  signup_sent home client username password d made material text created printed =
      ap (register_created tk send client username password) created
      ∙ rw (printed, register_created, register_account) refl

  -- Where the keys of a signup were made and the server refuses it, or no answer arrives, the call
  -- throws and takes no token. It leaves no file at the path of the keys, unless that file cannot be
  -- removed: then the files stay as the making of the keys left them.
  pub signup-Refused :
      (home : Option Bytes) (client : Client) (username password : Bytes) (d made : Drive)
      (material : RegistrationKeyMaterial) (text : Bytes)
      → create_for_signup tk c home username password d ≡ (ok material, made)
      → tk.print (signup_body tk username password material.public_key_bundle) ≡ some text
      → Refused (send (plain_call client (codes "POST") (codes "/signup") (some text)))
      → IsErr (signup tk send c home client username password d).0.0
        × ((signup tk send c home client username password d).0.1 ≡ client)
        × IsCleaned material.key_file_path made (signup tk send c home client username password d).1
  signup-Refused home client username password d made material text created printed refused =
      subst
        (λ (x : (Result tk.Json × Client) × Drive).
          IsErr x.0.0 × (x.0.1 ≡ client) × IsCleaned material.key_file_path made x.1)
        (sym (signup_sent home client username password d made material text created printed))
        (after_signup-IsErr client material.key_file_path _ made
          (accepted_body-Refused client _ refused))
