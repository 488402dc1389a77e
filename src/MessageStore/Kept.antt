-- ===== src/MessageStore/Kept.antt =====
-- A change of a store that throws leaves what the store reads.
use kingdom.Base.{
  ℕ, ◌⊎◌, ◌≡◌, refl, sym, subst, ap, ◌∙◌, Bytes, lookup, Bool-cases, inl, inr, is_empty,
  if◌then◌else◌,
}
use kingdom.Outcome.{Result, ok, err, Exn, err-ok}
use kingdom.Toolkit.{Toolkit, Crypto}
use kingdom.Drive.{Drive, continue, lift, ◌>>=◌, exists, read_file}
use kingdom.MessageStore.Memory.{MessageStore}
use kingdom.MessageStore.Files.{parse_json_file_lenient, parse_json_file_strict, write_store_file}
use kingdom.MessageStore.Crypt.{encrypt_store}
use kingdom.MessageStore.Store.{read_store, write_store, save_plaintext, delete_plaintext}
use kingdom.MessageStore.Replace.{Same, Outcomes, write_store_file-Outcomes}

module _ (tk : Toolkit) (c : Crypto) where
  -- What a store reads depends on its own file.
  read_store-Same :
      (store : MessageStore) (d after : Drive)
      → Same store.store_path d after
      → read_store tk c store after ≡ read_store tk c store d
  unfolding read_store exists parse_json_file_strict parse_json_file_lenient read_file
  read_store-Same store d after same = rw (same.0, same.1) refl

  threw :
      (path : Bytes) (body : tk.Json) (d after : Drive) {e : Exn}
      → Outcomes tk path body d (err e, after)
      → Same path d after
  threw path body d after (inl (text, printed, h, stored, kept)) = absurd (err-ok h)
  threw path body d after (inr (e, same)) = same

  write_store_file-Same :
      (path : Bytes) (body : tk.Json) (d after : Drive) {e : Exn}
      → write_store_file tk path body d ≡ (err e, after)
      → Same path d after
  unfolding write_store_file
  write_store_file-Same path body d after h = elim (Bool-cases (is_empty path)) [
    | inl nowhere ↦ absurd (err-ok (sym (ap (λ p. p.0) (rw nowhere at h))))
    | inr named ↦
        threw path body d after
          (subst (Outcomes tk path body d) h (write_store_file-Outcomes tk path body d named))
  ]

  lifted :
      (path : Bytes) (r : Result tk.Json) (d after : Drive) {e : Exn}
      → continue (r, d) (write_store_file tk path) ≡ (err e, after)
      → Same path d after
  lifted path (ok body) d after h = write_store_file-Same path body d after h
  lifted path (err e) d after h =
      (ap (λ p. lookup path p.1.files) (sym h), ap (λ p. p.1.faults) (sym h))

  write_store-Same :
      (store : MessageStore) (draw : ℕ) (body : tk.Json) (d after : Drive) {e : Exn}
      → write_store tk c store draw body d ≡ (err e, after)
      → Same store.store_path d after
  unfolding write_store
  write_store-Same store draw body d after h = elim (Bool-cases store.encrypted_at_rest) [
    | inl sealed ↦ lifted store.store_path (encrypt_store tk c store draw body) d after (
        sym (
          ap
            (λ b.
              (if b
                  then (lift (encrypt_store tk c store draw body)
                      >>= write_store_file tk store.store_path)
                  else write_store_file tk store.store_path body)
                d)
            sealed)
        ∙ h)
    | inr plain ↦ write_store_file-Same store.store_path body d after (
        sym (
          ap
            (λ b.
              (if b
                  then (lift (encrypt_store tk c store draw body)
                      >>= write_store_file tk store.store_path)
                  else write_store_file tk store.store_path body)
                d)
            plain)
        ∙ h)
  ]

  rewritten :
      (store : MessageStore) (change : tk.Json → tk.Json) (r : Result tk.Json) (d after : Drive)
      {e : Exn}
      → continue (r, d) (λ body. write_store tk c store 0 (change body)) ≡ (err e, after)
      → Same store.store_path d after
  rewritten store change (ok body) d after h = write_store-Same store 0 (change body) d after h
  rewritten store change (err e) d after h =
      (ap (λ p. lookup store.store_path p.1.files) (sym h), ap (λ p. p.1.faults) (sym h))

  -- A call that saves or deletes a plaintext and throws leaves what the store reads as it was.
  pub save_plaintext-err :
      (store : MessageStore) (message_id conversation_id sender_id timestamp : ℕ)
      (plaintext : Bytes) (d after : Drive) {e : Exn}
      → (save_plaintext tk c store message_id conversation_id sender_id timestamp plaintext d
          ≡ (err e, after))
        ⊎ (delete_plaintext tk c store message_id d ≡ (err e, after))
      → read_store tk c store after ≡ read_store tk c store d
  unfolding save_plaintext delete_plaintext
  save_plaintext-err store message_id conversation_id sender_id timestamp plaintext d after
        (inl h) =
      read_store-Same store d after (rewritten store _ (read_store tk c store d) d after h)
  save_plaintext-err store message_id conversation_id sender_id timestamp plaintext d after
        (inr h) =
      read_store-Same store d after (rewritten store _ (read_store tk c store d) d after h)
