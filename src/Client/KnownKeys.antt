-- ===== src/Client/KnownKeys.antt =====
-- What the known keys file says of a user before and after a key is pinned.
use kingdom.Base.{
  ◌⊎◌, ◌≡◌, sym, ap, ◌∙◌, subst, Bytes, true, false, Option, none, some, [], ◌∷◌, ◌++◌, Bool-cases,
  Option-cases, inl, inr, lookup,
}
use kingdom.Outcome.{
  some-injective, true-false, none-some, ok, or_err, or_err-ok, other_error, err-ok, ok-injective,
  runtime_error,
}
use kingdom.Toolkit.{Toolkit}
use kingdom.Toolkit.Laws.{JsonLaws}
use kingdom.Drive.{
  Drive, continue-parts, lift, create_directories, open_truncated, write_text, write_text-stores,
  set_permissions, exists, read_file,
}
use kingdom.Client.Pinning.{read_known_keys, object_or_throw, write_known_keys}

module _ (tk : Toolkit) (laws : JsonLaws tk) where
  open tk use {Json}

  -- The file at the path has the anchor for the key.
  abbrev pub Pinned : Bytes → Bytes → Bytes → Drive → Type 0
  Pinned path key anchor d =
      (text : Bytes) × (file : Json) × (lookup path d.files ≡ some text)
      × (tk.parse text ≡ some file)
      × (tk.contains file key ≡ true)
      × (tk.get_string (tk.index file key) ≡ some anchor)

  empty_lacks : (key : Bytes) → tk.contains (tk.object []) key ≡ false
  unfolding lookup
  empty_lacks key = laws.contains-object [] key

  object_or_throw-ok :
      (o : Option Json) {file : Json}
      → object_or_throw tk o ≡ ok file
      → (o ≡ some file) × (tk.is_object file ≡ true)
  unfolding object_or_throw
  object_or_throw-ok none h = cc
  object_or_throw-ok (some body) {file} h = elim (Bool-cases (tk.is_object body)) [
    | inl object ↦
        let e = ok-injective (rw object at h) in
        (ap some e, subst (λ b. tk.is_object b ≡ true) e object)
    | inr other ↦ absurd (err-ok (rw other at h))
  ]

  -- What was read is an empty object, or the value of the file's text.
  read_known_keys-cases :
      (path : Bytes) (d : Drive) {file : Json}
      → read_known_keys tk path d ≡ ok file
      → ((lookup path d.files ≡ none) × (tk.object [] ≡ file))
        ⊎ ((text : Bytes) × (lookup path d.files ≡ some text)
            × (tk.parse text ≡ some file)
            × (tk.is_object file ≡ true))
  unfolding read_known_keys exists read_file
  read_known_keys-cases path d h = elim (Option-cases (lookup path d.files)) [
    | inl absent ↦ inl (absent, ok-injective (rw absent at h))
    | inr (text, there) ↦ elim (Bool-cases (d.faults.unreadable path)) [
      | inl bad ↦ absurd (err-ok (rw (there, bad) at h))
      | inr good ↦
          let (parsed, object) = object_or_throw-ok (tk.parse text) (rw (there, good) at h) in
          inr (text, there, parsed, object)
    ]
  ]

  pub read_known_keys-object :
      (path : Bytes) (d : Drive) {file : Json}
      → read_known_keys tk path d ≡ ok file
      → tk.is_object file ≡ true
  read_known_keys-object path d h = elim (read_known_keys-cases path d h) [
    | inl (absent, e) ↦ subst (λ j. tk.is_object j ≡ true) e (laws.is_object-object [])
    | inr (text, there, parsed, object) ↦ object
  ]

  -- Where the file has an anchor, it is in what was read.
  pub read_known_keys-Pinned :
      (path key anchor : Bytes) (d : Drive) {file : Json}
      → read_known_keys tk path d ≡ ok file
      → Pinned path key anchor d
      → (tk.contains file key ≡ true) × (tk.get_string (tk.index file key) ≡ some anchor)
  read_known_keys-Pinned path key anchor d h (text, found, there, parsed, has, value) =
      elim (read_known_keys-cases path d h) [
        | inl (absent, e) ↦ absurd (none-some (sym absent ∙ there))
        | inr (other, there2, parsed2, object) ↦
            let e =
              some-injective
                (sym parsed ∙ ap tk.parse (some-injective (sym there ∙ there2)) ∙ parsed2) in
            subst (λ j. (tk.contains j key ≡ true) × (tk.get_string (tk.index j key) ≡ some anchor))
              e (has, value)
      ]

  pub Pinned-read :
      (path key anchor : Bytes) (d : Drive) (file : Json)
      → read_known_keys tk path d ≡ ok file
      → tk.contains file key ≡ true
      → tk.get_string (tk.index file key) ≡ some anchor
      → Pinned path key anchor d
  Pinned-read path key anchor d file h has value = elim (read_known_keys-cases path d h) [
    | inl (absent, e) ↦
        absurd (true-false (sym has ∙ ap (λ j. tk.contains j key) (sym e) ∙ empty_lacks key))
    | inr (text, there, parsed, object) ↦ (text, file, there, parsed, has, value)
  ]

  pub write_known_keys-Pinned :
      (path key anchor : Bytes) (file : Json) (d : Drive) {u : Unit {0}} {after : Drive}
      → write_known_keys tk path file d ≡ (ok u, after)
      → tk.contains file key ≡ true
      → tk.get_string (tk.index file key) ≡ some anchor
      → Pinned path key anchor after
  unfolding write_known_keys set_permissions
  write_known_keys-Pinned path key anchor file d h has value =
      continue-parts (create_directories path d) _ h λ u d1 e h1.
        continue-parts
          (open_truncated (runtime_error "Failed to open known keys file for writing") path d1) _ h1
          λ v d2 e2 h2.
            continue-parts (lift (or_err other_error (tk.print_indented file)) d2) _ h2
              λ text d3 e3 h3.
                continue-parts
                  (write_text (runtime_error "Failed to write known keys file") path
                    (text ++ 10 ∷ []) d3)
                  _ h3
                  λ w d4 e4 h4. (
                    text ++ 10 ∷ [],
                    file,
                    subst (λ (s : Drive). lookup path s.files ≡ some (text ++ 10 ∷ []))
                        (ap (λ p. p.1) h4) (write_text-stores _ path (text ++ 10 ∷ []) d3 e4),
                    (laws.parse-print_indented file (or_err-ok other_error _ (ap (λ p. p.0) e3))).1,
                    has,
                    value,
                  )
