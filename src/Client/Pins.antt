-- ===== src/Client/Pins.antt =====
-- Trust on first use: the keys that the client accepts for one user have one anchor.
use kingdom.Base.{
  ℕ, ◌≡◌, refl, sym, ap, ◌∙◌, subst, Bytes, bytes_eq, bytes_eq_iff, bytes_eq_refl, Bool, true,
  false, ◌||◌, Option, some, List, [], ◌∷◌, Bool-cases, inl, inr, if◌then◌else◌,
}
use kingdom.Outcome.{
  ok, or_err, or_err-ok, other_error, err-ok, ok-injective, some-injective, true-false, >>=-parts,
  guard, runtime_error,
}
use kingdom.Numerals.{to_string}
use kingdom.Toolkit.{Toolkit}
use kingdom.Toolkit.Laws.{JsonLaws}
use kingdom.Drive.{Drive, Io, pure, continue-parts, lift, ◌>>=◌}
use kingdom.Client.Pinning.{
  known_keys_path, read_known_keys, write_known_keys, pinning_anchor, same_anchor, pin_anchor,
  pin_public_key,
}
use kingdom.Client.KnownKeys.{
  Pinned, read_known_keys-object, read_known_keys-Pinned, Pinned-read, write_known_keys-Pinned,
}

-- The calls of `pin_public_key` for a list of users and keys.
abbrev pub pin_all : Toolkit → Option Bytes → List (ℕ × Bytes) → Io (Unit {0})
pin_all tk home [] = pure tt
pin_all tk home ((user_id, key) ∷ pins) =
    pin_public_key tk home user_id key >>= λ accepted. pin_all tk home pins

or_true : (a : Bool) {b : Bool} → b ≡ true → (a || b) ≡ true
or_true true h = refl
or_true false h = h

module _ (tk : Toolkit) (laws : JsonLaws tk) where
  open tk use {Json}

  -- The anchor is the value on file.
  same_anchor-value :
      (public_key anchor : Bytes) (pinned : Json) {r : Bytes}
      → same_anchor tk public_key anchor pinned ≡ ok r
      → tk.get_string pinned ≡ some anchor
  unfolding same_anchor
  same_anchor-value public_key anchor pinned h =
      >>=-parts
        (guard (tk.is_string pinned) (runtime_error "Known keys file has invalid entry for user")) _
        h
        λ u e h1. >>=-parts (or_err other_error (tk.get_string pinned)) _ h1 λ value e1 h2.
          elim (Bool-cases (bytes_eq value anchor)) [
            | inl same ↦ or_err-ok _ _ e1 ∙ ap some ((bytes_eq_iff value anchor).0 same)
            | inr other ↦ absurd (err-ok (rw other at h2))
          ]

  module _ (path : Bytes) (d : Drive) (known : Json)
      (read : read_known_keys tk path d ≡ ok known) where
    object : tk.is_object known ≡ true
    object = read_known_keys-object tk laws path d read

    contains_new : (key : Bytes) (v : Json) → tk.contains (tk.set known key v) key ≡ true
    contains_new key v =
        laws.contains-set known key v key object
        ∙ ap (λ b. b || tk.contains known key) (bytes_eq_refl key)

    index_new : (key : Bytes) (v : Json) → tk.index (tk.set known key v) key ≡ v
    index_new key v =
        laws.index-set known key v key object
        ∙ ap (λ b. if b then v else tk.index known key) (bytes_eq_refl key)

    contains_old :
        (key other : Bytes) (v : Json)
        → tk.contains known key ≡ true
        → tk.contains (tk.set known other v) key ≡ true
    contains_old key other v has =
        laws.contains-set known other v key object ∙ or_true (bytes_eq other key) has

    index_old :
        (key other : Bytes) (v : Json)
        → tk.contains known key ≡ true
        → tk.contains known other ≡ false
        → tk.index (tk.set known other v) key ≡ tk.index known key
    index_old key other v has absent = elim (Bool-cases (bytes_eq other key)) [
      | inl same ↦ absurd (
          true-false
            (sym has ∙ ap (tk.contains known) (sym ((bytes_eq_iff other key).0 same)) ∙ absent))
      | inr different ↦
          laws.index-set known other v key object
          ∙ ap (λ b. if b then v else tk.index known key) different
    ]

    -- An anchor that was accepted is on file.
    pin_anchor-Pinned :
        (key public_key anchor : Bytes) {r : Bytes} {after : Drive}
        → pin_anchor tk path key public_key anchor known d ≡ (ok r, after)
        → Pinned tk laws path key anchor after
    unfolding pin_anchor
    pin_anchor-Pinned key public_key anchor h = elim (Bool-cases (tk.contains known key)) [
      | inl there ↦
          let e = rw there at h in
          subst (Pinned tk laws path key anchor) (ap (λ p. p.1) e) (
            Pinned-read tk laws path key anchor d known read there
              (same_anchor-value public_key anchor (tk.index known key) (ap (λ p. p.0) e)))
      | inr absent ↦
          continue-parts (write_known_keys tk path (tk.set known key (tk.string anchor)) d) _
            (rw absent at h)
            λ u d1 e h1. subst (Pinned tk laws path key anchor) (ap (λ p. p.1) h1) (
              write_known_keys-Pinned tk laws path key anchor _ d e
                (contains_new key (tk.string anchor))
                (ap tk.get_string (index_new key (tk.string anchor))
                  ∙ laws.get_string-string anchor))
    ]

    -- An anchor that is on file stays there, whichever anchor is accepted for whom.
    pin_anchor-keeps :
        (key anchor other public_key new : Bytes) {r : Bytes} {after : Drive}
        → Pinned tk laws path key anchor d
        → pin_anchor tk path other public_key new known d ≡ (ok r, after)
        → Pinned tk laws path key anchor after
    unfolding pin_anchor
    pin_anchor-keeps key anchor other public_key new pinned h =
        let (has, value) = read_known_keys-Pinned tk laws path key anchor d read pinned in
        elim (Bool-cases (tk.contains known other)) [
          | inl there ↦
              subst (Pinned tk laws path key anchor) (ap (λ p. p.1) (rw there at h)) pinned
          | inr absent ↦
              continue-parts (write_known_keys tk path (tk.set known other (tk.string new)) d) _
                (rw absent at h)
                λ u d1 e h1. subst (Pinned tk laws path key anchor) (ap (λ p. p.1) h1) (
                  write_known_keys-Pinned tk laws path key anchor _ d e
                    (contains_old key other (tk.string new) has)
                    (ap tk.get_string (index_old key other (tk.string new) has absent) ∙ value))
        ]

    -- An anchor is accepted only if it is the one on file.
    pin_anchor-same :
        (key anchor public_key new : Bytes) {r : Bytes} {after : Drive}
        → Pinned tk laws path key anchor d
        → pin_anchor tk path key public_key new known d ≡ (ok r, after)
        → anchor ≡ new
    unfolding pin_anchor
    pin_anchor-same key anchor public_key new pinned h =
        let (has, value) = read_known_keys-Pinned tk laws path key anchor d read pinned in
        some-injective (
          sym value
          ∙ same_anchor-value public_key new (tk.index known key) (ap (λ p. p.0) (rw has at h)))

  -- The parts of a call that accepts a key.
  Accepts : Option Bytes → ℕ → Bytes → Drive → Bytes → Drive → Type 0
  Accepts home user_id key d r after =
      (path : Bytes) × (known : Json) × (anchor : Bytes) × (known_keys_path home ≡ ok path)
      × (read_known_keys tk path d ≡ ok known)
      × (pinning_anchor tk key ≡ ok anchor)
      × (pin_anchor tk path (to_string user_id) key anchor known d ≡ (ok r, after))

  pin_public_key-Accepts :
      (home : Option Bytes) (user_id : ℕ) (key : Bytes) (d : Drive) {r : Bytes} {after : Drive}
      → pin_public_key tk home user_id key d ≡ (ok r, after)
      → Accepts home user_id key d r after
  unfolding pin_public_key Accepts
  pin_public_key-Accepts home user_id key d {r} {after} h =
      continue-parts (lift (known_keys_path home) d) _ h λ path d1 e h1.
        continue-parts (read_known_keys tk path d1, d1) _ h1
          λ known d2 e2 h2. continue-parts (lift (pinning_anchor tk key) d2) _ h2 λ anchor d3 e3 h3.
            let same = ap (λ p. p.1) e ∙ ap (λ p. p.1) e2 ∙ ap (λ p. p.1) e3 in
            (
              path,
              known,
              anchor,
              ap (λ p. p.0) e,
              subst (λ s. read_known_keys tk path s ≡ ok known) (sym (ap (λ p. p.1) e))
                  (ap (λ p. p.0) e2),
              ap (λ p. p.0) e3,
              subst (λ s. pin_anchor tk path (to_string user_id) key anchor known s ≡ (ok r, after))
                  (sym same) h3,
            )

  pin_all-keeps :
      (home : Option Bytes) (path key anchor : Bytes) (pins : List (ℕ × Bytes)) (d : Drive)
      {u : Unit {0}} {after : Drive}
      → known_keys_path home ≡ ok path
      → Pinned tk laws path key anchor d
      → pin_all tk home pins d ≡ (ok u, after)
      → Pinned tk laws path key anchor after
  unfolding Accepts
  pin_all-keeps home path key anchor [] d at_path pinned h =
      subst (Pinned tk laws path key anchor) (ap (λ p. p.1) h) pinned
  pin_all-keeps home path key anchor ((user_id, public_key) ∷ pins) d at_path pinned h =
      continue-parts (pin_public_key tk home user_id public_key d) _ h λ r d1 e h1.
        let (other_path, known, new, named, read, anchored, accepted) =
          pin_public_key-Accepts home user_id public_key d e in
        let same : other_path ≡ path = ok-injective (sym named ∙ at_path) in
        pin_all-keeps home path key anchor pins d1 at_path
          (subst (λ p. Pinned tk laws p key anchor d1) same
            (pin_anchor-keeps other_path d known read key anchor (to_string user_id) public_key new
              (subst (λ p. Pinned tk laws p key anchor d) (sym same) pinned) accepted))
          h1

  -- Where the JSON library behaves as documented:
  -- Two keys that the client accepts for a user, with any calls in between that accept keys of any
  -- users, have the same anchor: identity and signing key for a bundle, else the whole text.
  pub pin_public_key-anchor :
      (home : Option Bytes) (user_id : ℕ) (first second : Bytes) (pins : List (ℕ × Bytes))
      (d d1 d2 d3 : Drive) {r s : Bytes} {u : Unit {0}}
      → pin_public_key tk home user_id first d ≡ (ok r, d1)
      → pin_all tk home pins d1 ≡ (ok u, d2)
      → pin_public_key tk home user_id second d2 ≡ (ok s, d3)
      → pinning_anchor tk first ≡ pinning_anchor tk second
  unfolding Accepts
  pin_public_key-anchor home user_id first second pins d d1 d2 d3 h between k =
      let (path, known, anchor, named, read, anchored, accepted) =
        pin_public_key-Accepts home user_id first d h in
      let (path2, known2, new, named2, read2, anchored2, accepted2) =
        pin_public_key-Accepts home user_id second d2 k in
      anchored
      ∙ ap ok (
          pin_anchor-same path2 d2 known2 read2 (to_string user_id) anchor second new
            (subst (λ p. Pinned tk laws p (to_string user_id) anchor d2)
              (ok-injective (sym named ∙ named2))
              (pin_all-keeps home path (to_string user_id) anchor pins d1 named
                (pin_anchor-Pinned path d known read (to_string user_id) first anchor accepted)
                between))
            accepted2)
      ∙ sym anchored2
