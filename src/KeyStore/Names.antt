-- ===== src/KeyStore/Names.antt =====
-- The names of key files, and the text that is signed.
use native.Mathlib.Nat.{pow-suc, div-div-eq-div-mul}
use mathlib.Core.List.{append-nil, append_assoc}
use kingdom.Base.{
  ℕ, zero, suc, ◌+◌, ◌*◌, ◌/◌, ◌%◌, ◌^◌, ◌<◌, ◌≤◌, ◌≡◌, ◌≢◌, ◌⊎◌, ◌==◌, refl, sym, ap, subst, ◌∙◌,
  Bytes, codes, true, false, some, [], ◌∷◌, ◌++◌, map, length, is_empty, All, Bool-cases, inl, inr,
  arith, if◌then◌else◌,
}
use kingdom.Outcome.{ok, err-ok, ok-injective}
use kingdom.Numerals.{u64_limit}
use kingdom.Drive.{join, home_directory}
use kingdom.KeyStore.Encoding.{
  is_safe, sanitized_username, default_key_path, append_bytes_le, append_uint64_le,
}

-- A letter, a digit, a dash or an underscore, and so neither a dot nor a slash.
abbrev pub IsPlain : ℕ → Type 0
IsPlain c =
    (((97 ≤ c) × (c ≤ 122)) ⊎ ((65 ≤ c) × (c ≤ 90)) ⊎ ((48 ≤ c) × (c ≤ 57)) ⊎ (c ≡ 45) ⊎ (c ≡ 95))
    × (c ≢ 46)
    × (c ≢ 47)

is_safe-IsPlain : (c : ℕ) → is_safe c ≡ true → IsPlain c
unfolding is_safe
is_safe-IsPlain c h = (ground arith, ground arith, ground arith)

underscore : is_safe 95 ≡ true
unfolding is_safe
underscore = refl

replaced-IsPlain : (c : ℕ) → IsPlain (if is_safe c then c else 95)
replaced-IsPlain c = elim (Bool-cases (is_safe c)) [
  | inl safe ↦ rw safe (is_safe-IsPlain c safe)
  | inr other ↦ rw other (is_safe-IsPlain 95 underscore)
]

map-IsPlain : (s : Bytes) → All IsPlain (map (λ (c : ℕ). if is_safe c then c else 95) s)
map-IsPlain [] = tt
map-IsPlain (c ∷ s) = (replaced-IsPlain c, map-IsPlain s)

sanitized_username-IsPlain :
    (username : Bytes)
    → (is_empty (sanitized_username username) ≡ false) × All IsPlain (sanitized_username username)
unfolding sanitized_username is_safe
sanitized_username-IsPlain [] = (
  refl,
  (
    is_safe-IsPlain 117 refl,
    (is_safe-IsPlain 115 refl, (is_safe-IsPlain 101 refl, (is_safe-IsPlain 114 refl, tt))),
  ),
)
sanitized_username-IsPlain (c ∷ s) = (refl, map-IsPlain (c ∷ s))

join-append : (a b s : Bytes) → join a (b ++ s) ≡ join a b ++ s
unfolding join
join-append [] b s = refl
join-append (c ∷ []) b s = ground arith
join-append (c ∷ d ∷ a) b s = ap (λ (t : Bytes). c ∷ t) (join-append (d ∷ a) b s)

-- A path that does not end in a slash.
join_below :
    (a b : Bytes) (c : ℕ) → (c == 47) ≡ false → join (a ++ c ∷ []) b ≡ (a ++ c ∷ []) ++ 47 ∷ b
unfolding join
join_below [] b c h = rw h refl
join_below (d ∷ []) b c h = rw h refl
join_below (d ∷ e ∷ a) b c h = ap (λ (t : Bytes). d ∷ t) (join_below (e ∷ a) b c h)

-- The path of a key file is the directory of the keys, a slash, a name and `.json`, whatever the
-- user is called; the name is not empty and made of letters, digits, dashes and underscores, without
-- a slash and a dot, so the path does not leave the directory.
pub default_key_path-IsPlain :
    (home username path : Bytes)
    → default_key_path (some home) username ≡ ok path
    → (name : Bytes) × (path
        ≡ join (join home (codes ".kingdom")) (codes "keys") ++ 47 ∷ (name ++ codes ".json"))
      × (is_empty name ≡ false)
      × All IsPlain name
unfolding default_key_path home_directory
default_key_path-IsPlain home username path h =
    let (filled, plain) = sanitized_username-IsPlain username in
    let directory : Bytes = join home (codes ".kingdom") in
    let file : Bytes = sanitized_username username ++ codes ".json" in
    let below : join (join directory (codes "keys")) file
        ≡ join directory (codes "keys") ++ 47 ∷ file =
      subst (λ (d : Bytes). join d file ≡ d ++ 47 ∷ file)
        (sym (join-append directory (codes "key") (codes "s")))
        (join_below (join directory (codes "key")) file 115 refl) in
    elim (Bool-cases (is_empty home)) [
      | inl empty ↦ absurd (err-ok (rw empty at h))
      | inr named ↦
          (sanitized_username username, sym (ok-injective (rw named at h)) ∙ below, filled, plain)
    ]

-- The number that bytes stand for, the lowest first.
unfoldable pub value_le : Bytes → ℕ
value_le [] = 0
value_le (b ∷ bytes) = b + 256 * value_le bytes

digits_le : ℕ → ℕ → Bytes
digits_le zero n = []
digits_le (suc rounds) n = n % 256 ∷ digits_le rounds (n / 256)

pow_byte : (k : ℕ) → 2 ^ suc (suc (suc (suc (suc (suc (suc (suc k))))))) ≡ 2 ^ k * 256
pow_byte k = omega (
  arith,
  pow-suc 2 k,
  pow-suc 2 (suc k),
  pow-suc 2 (suc (suc k)),
  pow-suc 2 (suc (suc (suc k))),
  pow-suc 2 (suc (suc (suc (suc k)))),
  pow-suc 2 (suc (suc (suc (suc (suc k))))),
  pow-suc 2 (suc (suc (suc (suc (suc (suc k)))))),
  pow-suc 2 (suc (suc (suc (suc (suc (suc (suc k))))))),
)

next_byte : (i n : ℕ) → n / 2 ^ ((i + 1) * 8) ≡ n / 2 ^ (i * 8) / 256
next_byte i n =
    ap (λ m. n / 2 ^ m)
      (let e : (i + 1) * 8 ≡ suc (suc (suc (suc (suc (suc (suc (suc (i * 8)))))))) = omega arith in
        e)
    ∙ ap (λ m. n / m) (pow_byte (i * 8))
    ∙ sym (div-div-eq-div-mul n (2 ^ (i * 8)) 256)

append_bytes_le-digits_le :
    (rounds i n : ℕ) (out : Bytes)
    → append_bytes_le rounds i n out ≡ out ++ digits_le rounds (n / 2 ^ (i * 8))
unfolding append_bytes_le digits_le
append_bytes_le-digits_le zero i n out = sym (append-nil out)
append_bytes_le-digits_le (suc rounds) i n out =
    append_bytes_le-digits_le rounds (i + 1) n (out ++ (n / 2 ^ (i * 8) % 256) ∷ [])
    ∙ append_assoc out ((n / 2 ^ (i * 8) % 256) ∷ []) _
    ∙ ap (λ m. out ++ (n / 2 ^ (i * 8) % 256) ∷ digits_le rounds m) (next_byte i n)

value_le-digits_le : (rounds n : ℕ) → n < 256 ^ rounds → value_le (digits_le rounds n) ≡ n
unfolding value_le digits_le
value_le-digits_le zero n h = omega arith
value_le-digits_le (suc rounds) n h =
    let rest : value_le (digits_le rounds (n / 256)) ≡ n / 256 =
      value_le-digits_le rounds (n / 256) (omega (arith, pow-suc 256 rounds)) in
    rw rest (omega arith)

digits_le-bytes :
    (rounds n : ℕ)
    → (length (digits_le rounds n) ≡ rounds) × All (λ b. b < 256) (digits_le rounds n)
unfolding digits_le
digits_le-bytes zero n = (refl, tt)
digits_le-bytes (suc rounds) n =
    let (size, bytes) = digits_le-bytes rounds (n / 256) in (ap suc size, (omega arith, bytes))

-- appendUint64Le appends eight bytes, the lowest first, which stand for the number.
pub append_uint64_le-value_le :
    (out : Bytes) (n : ℕ)
    → n < u64_limit
    → (bytes : Bytes) × (append_uint64_le out n ≡ out ++ bytes)
      × (length bytes ≡ 8)
      × All (λ b. b < 256) bytes
      × (value_le bytes ≡ n)
unfolding append_uint64_le
append_uint64_le-value_le out n small =
    let (size, bytes) = digits_le-bytes 8 n in
    (
      digits_le 8 n,
      append_bytes_le-digits_le 8 0 n out
          ∙ ap (λ m. out ++ digits_le 8 m) (let e : n / 2 ^ (0 * 8) ≡ n = omega arith in e),
      size,
      bytes,
      value_le-digits_le 8 n (omega arith),
    )

pub append_injective :
    (xs ys s t : Bytes) → length xs ≡ length ys → xs ++ s ≡ ys ++ t → (xs ≡ ys) × (s ≡ t)
append_injective [] [] s t n h = (refl, h)
append_injective [] (y ∷ ys) s t n h = absurd (omega arith)
append_injective (x ∷ xs) [] s t n h = absurd (omega arith)
append_injective (x ∷ xs) (y ∷ ys) s t n h =
    let (front, back) = append_injective xs ys s t (omega arith) cc in (cc, back)
