-- ===== src/KeyStore/Signed.antt =====
-- What a signature of a signed prekey binds, and a key file that is lost.
use mathlib.Core.List.{append_assoc}
use kingdom.Base.{
  ℕ, ◌<◌, ◌≡◌, refl, sym, subst, ap, ◌∙◌, Bytes, true, false, Option, none, some, [], ◌∷◌, ◌++◌,
  lookup, lookup-insert, bytes_eq_refl, Bool-cases, inl, inr,
}
use kingdom.Outcome.{
  Result, ok, err, IsErr, ok-injective, or_err-ok, runtime_error, >>=-parts, >>=-IsErr, IsErr->>=,
}
use kingdom.Numerals.{u64_limit}
use kingdom.Toolkit.{Toolkit, Crypto}
use kingdom.Drive.{Drive, create_directories, open_truncated, write_text, store_file, read_file}
use kingdom.KeyStore.Encoding.{
  append_uint64_le, base64_decode, ensure_sodium_initialized, default_key_path,
}
use kingdom.KeyStore.Names.{value_le, append_uint64_le-value_le, append_injective}
use kingdom.KeyStore.Bundle.{signature_info, signed_pre_key_signature_input}
use kingdom.KeyStore.Files.{read_json_file, write_json_file}
use kingdom.KeyStore.Login.{load_for_login}

module _ (c : Crypto) where
  input-ok :
      (n : ℕ) (key : Bytes) {input : Bytes}
      → signed_pre_key_signature_input c n key ≡ ok input
      → (public_key : Bytes) × (c.unbase64 key ≡ some public_key)
        × (input ≡ append_uint64_le signature_info n ++ public_key)
  unfolding signed_pre_key_signature_input base64_decode
  input-ok n key h =
      >>=-parts (base64_decode c key) _ h
        λ public_key e h1. (public_key, or_err-ok _ _ e, sym (ok-injective h1))

  -- The text that is signed for a prekey determines its id, below 2^64, and the bytes of its key:
  -- no two prekeys share a signature input.
  pub signed_pre_key_signature_input-injective :
      (n m : ℕ) (key other input : Bytes)
      → n < u64_limit
      → m < u64_limit
      → signed_pre_key_signature_input c n key ≡ ok input
      → signed_pre_key_signature_input c m other ≡ ok input
      → (n ≡ m) × (c.unbase64 key ≡ c.unbase64 other)
  signed_pre_key_signature_input-injective n m key other input hn hm h k =
      let (p, decoded, e) = input-ok n key h in
      let (q, decoded2, e2) = input-ok m other k in
      let (bytes, en, size, small, value) = append_uint64_le-value_le signature_info n hn in
      let (bytes2, em, size2, small2, value2) = append_uint64_le-value_le signature_info m hm in
      let (info, rest) =
        append_injective signature_info signature_info (bytes ++ p) (bytes2 ++ q) refl (
          sym (append_assoc signature_info bytes p)
          ∙ ap (λ s. s ++ p) (sym en)
          ∙ sym e
          ∙ e2
          ∙ ap (λ s. s ++ q) em
          ∙ append_assoc signature_info bytes2 q) in
      let (front, back) = append_injective bytes bytes2 p q (size ∙ sym size2) rest in
      (sym value ∙ ap value_le front ∙ value2, decoded ∙ ap some back ∙ sym decoded2)

module _ (tk : Toolkit) (c : Crypto) where
  lost :
      (path : Bytes) (body : tk.Json) (d : Drive) (text : Bytes)
      → d.faults.no_directory path ≡ false
      → d.faults.unwritable path ≡ false
      → d.faults.full path ≡ true
      → tk.print_indented body ≡ some text
      → write_json_file tk path body d ≡ (
        err (runtime_error "Failed to write local key file"),
        store_file path (d.faults.left path (text ++ 10 ∷ [])) (store_file path [] d),
      )
  unfolding write_json_file create_directories open_truncated write_text store_file
  lost path body d text made opened full printed = rw (made, opened, printed, full) refl

  read-broken :
      (path : Bytes) (d : Drive) (text : Bytes)
      → lookup path d.files ≡ some text
      → tk.parse text ≡ none
      → IsErr (read_json_file tk path d).0
  unfolding read_json_file read_file
  read-broken path d text there broken = elim (Bool-cases (d.faults.unreadable path)) [
    | inl bad ↦ rw bad (_, refl)
    | inr good ↦ rw (good, there, broken) (_, refl)
  ]

  lookup-left :
      (path text : Bytes) (d : Drive) → lookup path (store_file path text d).files ≡ some text
  unfolding store_file
  lookup-left path text d = lookup-insert path path text d.files ∙ rw (bytes_eq_refl path) refl

  login-broken :
      (home : Option Bytes) (username password path text : Bytes) (d : Drive)
      → default_key_path home username ≡ ok path
      → lookup path d.files ≡ some text
      → tk.parse text ≡ none
      → IsErr (load_for_login tk c home username password d)
  unfolding load_for_login
  login-broken home username password path text d at_path there broken =
      >>=-IsErr (ensure_sodium_initialized c) λ u e.
        >>=-IsErr (default_key_path home username) λ found e1.
          IsErr->>= (read_json_file tk found d).0 _ (
            subst (λ p. IsErr (read_json_file tk p d).0) (ok-injective (sym at_path ∙ e1))
              (read-broken path d text there broken))

  -- Where the disk is full while the key file is written, and what is left of the text is no JSON
  -- value, the write throws, and so does every later login with that key file: the keys that it
  -- held before are lost.
  pub write_json_file-full :
      (home : Option Bytes) (username password path text : Bytes) (body : tk.Json) (d : Drive)
      → default_key_path home username ≡ ok path
      → d.faults.no_directory path ≡ false
      → d.faults.unwritable path ≡ false
      → d.faults.full path ≡ true
      → tk.print_indented body ≡ some text
      → tk.parse (d.faults.left path (text ++ 10 ∷ [])) ≡ none
      → IsErr (write_json_file tk path body d).0
        × IsErr (load_for_login tk c home username password (write_json_file tk path body d).1)
  write_json_file-full home username password path text body d at_path made opened full printed
        broken =
      let e = lost path body d text made opened full printed in
      (
        (_, ap (λ p. p.0) e),
        login-broken home username password path _ _ at_path
            (ap (λ (p : Result (Unit {0}) × Drive). lookup path p.1.files) e
              ∙ lookup-left path _ (store_file path [] d))
            broken,
      )
