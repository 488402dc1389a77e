-- ===== src/MessageStore/Replace.antt =====
-- What rewriting the file of a store comes to, on every branch.
use kingdom.Base.{
  ℕ, ◌⊎◌, ◌≡◌, refl, sym, ap, subst, ◌∙◌, Bytes, codes, bytes_eq, bytes_eq_iff, bytes_eq_refl,
  false, true, not, Option, some, List, [], ◌∷◌, ◌++◌, keep_if, lookup, lookup-insert, Bool-cases,
  Option-cases, inl, inr, is_empty, arith,
}
use kingdom.Outcome.{Result, ok, IsErr, runtime_error}
use kingdom.Toolkit.{Toolkit}
use kingdom.Drive.{
  Drive, continue, ◌>>=◌, create_directories, open_truncated, write_text, close_stream, rename,
  store_file, remove_file,
}
use kingdom.MessageStore.Files.{temporary, replace_file, write_store_file}

longer : (s : Bytes) (c : ℕ) (t : Bytes) → bytes_eq (s ++ c ∷ t) s ≡ false
unfolding bytes_eq
longer [] c t = refl
longer (a ∷ s) c t = ground (arith, longer s c t)

lookup-keep_if :
    (path other : Bytes) (files : List (Bytes × Bytes))
    → bytes_eq path other ≡ false
    → lookup other (keep_if (λ (e : Bytes × Bytes). not (bytes_eq e.0 path)) files)
      ≡ lookup other files
unfolding lookup keep_if
lookup-keep_if path other [] h = refl
lookup-keep_if path other ((k, v) ∷ files) h = ground (
  arith,
  lookup-keep_if path other files h,
  bytes_eq_iff k path,
  bytes_eq_iff k other,
  bytes_eq_iff path other,
)

pub lookup-remove_file :
    (path other : Bytes) (d : Drive)
    → bytes_eq path other ≡ false
    → lookup other (remove_file path d).files ≡ lookup other d.files
unfolding remove_file
lookup-remove_file path other d h = lookup-keep_if path other d.files h

-- The disk is the same for whoever reads the file at the path.
abbrev pub Same : Bytes → Drive → Drive → Type 0
Same path d after = (lookup path after.files ≡ lookup path d.files) × (after.faults ≡ d.faults)

store_file-Same :
    (path other text : Bytes) (d : Drive)
    → bytes_eq other path ≡ false
    → Same path d (store_file other text d)
unfolding store_file
store_file-Same path other text d h = (lookup-insert other path text d.files ∙ rw h, refl)

-- What is read of a text that was written and closed: all of it, or what the stream leaves where
-- its last flush fails.
abbrev pub Closed : Bytes → Bytes → Drive → Option Bytes → Type 0
Closed path text d found =
    ((d.faults.lost (temporary path) ≡ false) × (found ≡ some text))
    ⊎ ((d.faults.lost (temporary path) ≡ true)
        × (found ≡ some (d.faults.left (temporary path) text)))

-- What a rewriting of the file comes to.
abbrev pub Outcomes : (tk : Toolkit) → Bytes → tk.Json → Drive → Result (Unit {0}) × Drive → Type 0
Outcomes tk path body d (r, after) =
    ((text : Bytes) × (tk.print_indented body ≡ some text)
      × (r ≡ ok tt)
      × Closed path (text ++ 10 ∷ []) d (lookup path after.files)
      × (after.faults ≡ d.faults))
    ⊎ (IsErr r × Same path d after)

Same-trans : (path : Bytes) (d e f : Drive) → Same path d e → Same path e f → Same path d f
Same-trans path d e f s t = (t.0 ∙ s.0, t.1 ∙ s.1)

temporary-Same : (path text : Bytes) (d : Drive) → Same path d (store_file (temporary path) text d)
temporary-Same path text d =
    store_file-Same path (temporary path) text d (longer path 46 (codes "tmp"))

lookup-store_file :
    (path text : Bytes) (d : Drive) → lookup path (store_file path text d).files ≡ some text
unfolding store_file
lookup-store_file path text d = lookup-insert path path text d.files ∙ rw (bytes_eq_refl path) refl

module _ (tk : Toolkit) (path : Bytes) (body : tk.Json) (start : Drive) where
  rename-Outcomes :
      (text kept : Bytes) (d : Drive)
      → tk.print_indented body ≡ some text
      → Same path start d
      → lookup (temporary path) d.files ≡ some kept
      → Closed path (text ++ 10 ∷ []) start (some kept)
      → Outcomes tk path body start (rename (temporary path) path d)
  unfolding rename store_file remove_file
  rename-Outcomes text kept d printed same there closed =
      elim (Bool-cases (d.faults.no_rename path)) [
        | inl bad ↦ rw bad (inr ((_, refl), same))
        | inr good ↦
            rw (good, there)
              (inl (
                text,
                printed,
                refl,
                subst (Closed path (text ++ 10 ∷ []) start)
                    (sym (lookup-insert path path kept _ ∙ rw (bytes_eq_refl path) refl)) closed,
                same.1,
              ))
      ]

  close-Outcomes :
      (text : Bytes) (d : Drive)
      → tk.print_indented body ≡ some text
      → Same path start d
      → lookup (temporary path) d.files ≡ some (text ++ 10 ∷ [])
      → Outcomes tk path body start (
          continue
            (close_stream (temporary path) (text ++ 10 ∷ []) d)
            (λ u. rename (temporary path) path))
  unfolding close_stream
  close-Outcomes text d printed same there = elim (Bool-cases (d.faults.lost (temporary path))) [
    | inl lost ↦ rw lost (
        rename-Outcomes text (d.faults.left (temporary path) (text ++ 10 ∷ []))
          (store_file (temporary path) (d.faults.left (temporary path) (text ++ 10 ∷ [])) d) printed
          (Same-trans path start d _ same (temporary-Same path _ d))
          (lookup-store_file (temporary path) _ d)
          (inr (
            ap (λ f. f.lost (temporary path)) (sym same.1) ∙ lost,
            ap (λ f. some (f.left (temporary path) (text ++ 10 ∷ []))) same.1,
          )))
    | inr whole ↦ rw whole (
        rename-Outcomes text (text ++ 10 ∷ []) d printed same there
          (inl (ap (λ f. f.lost (temporary path)) (sym same.1) ∙ whole, refl)))
  ]

  write-Outcomes :
      (text : Bytes) (d : Drive)
      → tk.print_indented body ≡ some text
      → Same path start d
      → Outcomes tk path body start (
          continue
            (write_text
              (runtime_error "Failed to write local message store")
              (temporary path)
              (text ++ 10 ∷ [])
              d)
            (λ u. close_stream (temporary path) (text ++ 10 ∷ []) >>= λ u.
              rename (temporary path) path))
  unfolding write_text
  write-Outcomes text d printed same = elim (Bool-cases (d.faults.full (temporary path))) [
    | inl bad ↦ rw bad (inr ((_, refl), Same-trans path start d _ same (temporary-Same path _ d)))
    | inr good ↦ rw good (
        close-Outcomes text (store_file (temporary path) (text ++ 10 ∷ []) d) printed
          (Same-trans path start d _ same (temporary-Same path _ d))
          (lookup-store_file (temporary path) _ d))
  ]

  opened_file :
      (text : Bytes)
      → start.faults.no_directory path ≡ false
      → start.faults.unwritable (temporary path) ≡ false
      → tk.print_indented body ≡ some text
      → replace_file tk path body start
        ≡ continue
            (write_text
              (runtime_error "Failed to write local message store")
              (temporary path)
              (text ++ 10 ∷ [])
              (store_file (temporary path) [] start))
            (λ u.
              close_stream (temporary path) (text ++ 10 ∷ []) >>= λ u. rename (temporary path) path)
  unfolding replace_file create_directories open_truncated
  opened_file text made opened printed = rw (made, opened, printed) refl

  replace_file-Outcomes : Outcomes tk path body start (replace_file tk path body start)
  unfolding replace_file create_directories open_truncated
  replace_file-Outcomes = elim (Bool-cases (start.faults.no_directory path)) [
    | inl bad ↦ rw bad (inr ((_, refl), (refl, refl)))
    | inr made ↦ elim (Bool-cases (start.faults.unwritable (temporary path))) [
      | inl bad ↦ rw (made, bad) (inr ((_, refl), (refl, refl)))
      | inr opened ↦ elim (Option-cases (tk.print_indented body)) [
        | inl bad ↦ rw (made, opened, bad) (inr ((_, refl), temporary-Same path [] start))
        | inr (text, printed) ↦
            subst (Outcomes tk path body start) (sym (opened_file text made opened printed)) (
              write-Outcomes text (store_file (temporary path) [] start) printed
                (temporary-Same path [] start))
      ]
    ]
  ]

  -- The path of a store's file is not empty. Writing the file throws and leaves what is read from
  -- the path as it was, or it returns. Where the last flush of the temporary file does not fail, the
  -- whole text is then in its place; where it fails, what the stream left of the text is.
  pub write_store_file-Outcomes :
      is_empty path ≡ false → Outcomes tk path body start (write_store_file tk path body start)
  unfolding write_store_file
  write_store_file-Outcomes named = rw named replace_file-Outcomes
