-- ===== src/KeyStore/Recorded.antt =====
-- The key file after a one-time prekey was recorded as used.
use kingdom.Base.{
  ℕ, ◌<◌, ◌≡◌, refl, sym, ap, ◌∙◌, subst, Bytes, Bool, true, false, ◌||◌, some, List, [], ◌∷◌, ◌++◌,
  any, Bool-cases, inl, inr, arith, ◌==◌, lookup,
}
use kingdom.Outcome.{
  some-injective, ok, or_err, or_err-ok, other_error, err-ok, ok-injective, >>=-parts,
  runtime_error,
}
use kingdom.Numerals.{u64_limit}
use kingdom.Toolkit.{Toolkit}
use kingdom.Toolkit.Laws.{JsonLaws}
use kingdom.Drive.{
  Drive, continue-parts, lift, create_directories, open_truncated, write_text, write_text-stores,
  set_permissions, read_file,
}
use kingdom.KeyStore.Bundle.{field}
use kingdom.KeyStore.Files.{
  read_json_file, write_json_file, any_used, used_entries, record_if_new, record_used, used_ids_key,
}
use kingdom.KeyStore.Login.{is_used, id_list, used_ids}

or_true : (a : Bool) {b : Bool} → b ≡ true → (a || b) ≡ true
or_true true h = refl
or_true false h = h

false-true : ok false ≡ ok true → ⊥
false-true h = cc

same : (n m : ℕ) → n ≡ m → is_used (m ∷ []) n ≡ true
unfolding any
same n m h = ground arith

-- A file that was written has the text of the value, and an end of line.
module _ (tk : Toolkit) where
  open tk use {Json}

  write_json_file-stores :
      (path : Bytes) (body : Json) (d : Drive) {u : Unit {0}} {after : Drive}
      → write_json_file tk path body d ≡ (ok u, after)
      → (text : Bytes) × (tk.print_indented body ≡ some text)
        × (lookup path after.files ≡ some (text ++ 10 ∷ []))
  unfolding write_json_file set_permissions
  write_json_file-stores path body d h = continue-parts (create_directories path d) _ h λ u d1 e h1.
      continue-parts
        (open_truncated (runtime_error "Failed to open local key file for writing") path d1) _ h1
        λ v d2 e2 h2.
          continue-parts (lift (or_err other_error (tk.print_indented body)) d2) _ h2
            λ text d3 e3 h3.
              continue-parts
                (write_text (runtime_error "Failed to write local key file") path (text ++ 10 ∷ [])
                  d3)
                _ h3
                λ w d4 e4 h4. (
                  text,
                  or_err-ok other_error (tk.print_indented body) (ap (λ p. p.0) e3),
                  subst (λ (s : Drive). lookup path s.files ≡ some (text ++ 10 ∷ []))
                      (ap (λ p. p.1) h4) (write_text-stores _ path (text ++ 10 ∷ []) d3 e4),
                )

  read_json_file-parse :
      (path : Bytes) (d : Drive) {text : Bytes} {file : Json}
      → (read_json_file tk path d).0 ≡ ok file
      → lookup path d.files ≡ some text
      → tk.parse text ≡ some file
  unfolding read_json_file read_file
  read_json_file-parse path d h there = elim (Bool-cases (d.faults.unreadable path)) [
    | inl bad ↦ absurd (err-ok (rw bad at h))
    | inr good ↦ or_err-ok _ _ (rw (good, there) at h)
  ]

  used_ids-at :
      (file : Json) {v : Json}
      → (tk.at file used_ids_key ≡ some v) × (tk.contains file used_ids_key ≡ true)
      → tk.is_array v ≡ true
      → used_ids tk file ≡ id_list tk (tk.elements v)
  unfolding used_ids field
  used_ids-at file (at, there) array = rw (there, at, array)

  later_used :
      (n : ℕ) (entry : Json) (rest : List Json) {m : ℕ}
      → tk.get_uint64 entry ≡ some m
      → (m == n) ≡ false
      → any_used tk n (entry ∷ rest) ≡ ok true
      → any_used tk n rest ≡ ok true
  unfolding any_used
  later_used n entry rest e other h = rw other at (rw (e, any_used) at h)

  id_list-any :
      (n : ℕ) (entries : List Json) {ids : List ℕ}
      → any_used tk n entries ≡ ok true
      → id_list tk entries ≡ ok ids
      → is_used ids n ≡ true
  unfolding id_list any_used any
  id_list-any n [] h k = cc
  id_list-any n (entry ∷ rest) h k =
      >>=-parts (or_err other_error (tk.get_uint64 entry)) _ k λ m e k1.
        >>=-parts (id_list tk rest) _ k1 λ ms e1 k2.
          subst (λ ids. is_used ids n ≡ true) (ok-injective k2)
            (elim (Bool-cases (m == n)) [
              | inl e2 ↦ rw e2 refl
              | inr e2 ↦
                  rw e2 (id_list-any n rest (later_used n entry rest (or_err-ok _ _ e) e2 h) e1)
            ])

  id_list-append :
      (laws : JsonLaws tk) (n : ℕ) (entries : List Json) {ids : List ℕ}
      → n < u64_limit
      → id_list tk (entries ++ tk.unsigned n ∷ []) ≡ ok ids
      → is_used ids n ≡ true
  unfolding id_list any
  id_list-append laws n [] small h =
      >>=-parts (or_err other_error (tk.get_uint64 (tk.unsigned n))) _ h λ m e h1.
        subst (λ ids. is_used ids n ≡ true) (ok-injective h1)
          (same n m (some-injective (sym (laws.get_uint64-unsigned n small) ∙ or_err-ok _ _ e)))
  id_list-append laws n (entry ∷ rest) small h =
      >>=-parts (or_err other_error (tk.get_uint64 entry)) _ h λ m e h1.
        >>=-parts (id_list tk (rest ++ tk.unsigned n ∷ [])) _ h1 λ ms e1 h2.
          subst (λ ids. is_used ids n ≡ true) (ok-injective h2)
            (let later : is_used ms n ≡ true = id_list-append laws n rest small e1 in
              or_true (m == n) later)

  module _ (laws : JsonLaws tk) (path : Bytes) (n : ℕ) (small : n < u64_limit) where
    recorded_before :
        (found v file : Json) {used : List ℕ}
        → found ≡ file
        → tk.entry found used_ids_key ≡ some v
        → any_used tk n (used_entries tk v) ≡ ok true
        → used_ids tk file ≡ ok used
        → is_used used n ≡ true
    unfolding used_entries any_used
    recorded_before found v file same there hit listed = elim (Bool-cases (tk.is_array v)) [
      | inl array ↦ id_list-any n (tk.elements v) (rw array at hit) (
          sym (used_ids-at found (laws.entry-array found used_ids_key there array) array)
          ∙ ap (used_ids tk) same
          ∙ listed)
      | inr other ↦ absurd (false-true (rw other at hit))
    ]

    recorded_now :
        (found v file : Json) (d : Drive) {u : Unit {0}} {after : Drive} {used : List ℕ}
        → tk.entry found used_ids_key ≡ some v
        → write_json_file tk path
            (tk.set found used_ids_key (tk.array (used_entries tk v ++ tk.unsigned n ∷ [])))
            d
          ≡ (ok u, after)
        → (read_json_file tk path after).0 ≡ ok file
        → used_ids tk file ≡ ok used
        → is_used used n ≡ true
    recorded_now found v file d {after = after} there h reads listed =
        let (text, printed, stored) = write_json_file-stores path _ d h in
        let e = some-injective (
          sym ((laws.parse-print_indented _ printed).1)
          ∙ read_json_file-parse path after reads stored) in
        id_list-append laws n (used_entries tk v) small (
          ap (id_list tk) (sym (laws.elements-array _))
          ∙ sym (used_ids-at _ (laws.entry-set found used_ids_key _ there) (laws.is_array-array _))
          ∙ ap (used_ids tk) e
          ∙ listed)

    recorded :
        (already : Bool) (found v file : Json) (d : Drive) {u : Unit {0}} {after : Drive}
        {used : List ℕ}
        → tk.entry found used_ids_key ≡ some v
        → any_used tk n (used_entries tk v) ≡ ok already
        → record_if_new tk path found (used_entries tk v) n already d ≡ (ok u, after)
        → (d ≡ after → found ≡ file)
        → (read_json_file tk path after).0 ≡ ok file
        → used_ids tk file ≡ ok used
        → is_used used n ≡ true
    unfolding record_if_new
    recorded true found v file d there hit h unchanged reads listed =
        recorded_before found v file (unchanged (ap (λ p. p.1) h)) there hit listed
    recorded false found v file d there hit h unchanged reads listed =
        recorded_now found v file d there h reads listed

    -- Once a used id is on record, the file lists it.
    pub record_used-is_used :
        (d after : Drive) (file : Json) {u : Unit {0}} {used : List ℕ}
        → record_used tk path n d ≡ (ok u, after)
        → (read_json_file tk path after).0 ≡ ok file
        → used_ids tk file ≡ ok used
        → is_used used n ≡ true
    unfolding record_used record_if_new read_json_file
    record_used-is_used d after file h reads listed =
        continue-parts (read_json_file tk path d) _ h λ found d1 e h1.
          continue-parts (lift (or_err other_error (tk.entry found used_ids_key)) d1) _ h1
            λ v d2 e2 h2.
              continue-parts (lift (any_used tk n (used_entries tk v)) d2) _ h2 λ already d3 e3 h3.
                recorded already found v file d3
                  (or_err-ok other_error (tk.entry found used_ids_key) (ap (λ p. p.0) e2))
                  (ap (λ p. p.0) e3) h3
                  (λ same_drive. ok-injective (
                    sym (ap (λ p. p.0) e)
                    ∙ ap (λ s. (read_json_file tk path s).0)
                        (ap (λ p. p.1) e ∙ ap (λ p. p.1) e2 ∙ ap (λ p. p.1) e3 ∙ same_drive)
                    ∙ reads))
                  reads listed
