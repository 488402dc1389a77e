-- ===== src/Drive.antt =====
-- The local files of the client, and calls that read and write them and may throw. The text with
-- which a message of an exception goes on (a path, a status) is left out.
use kingdom.Base.{
  ◌≡◌, refl, ap, Bytes, Bool, not, Option, none, some, List, [], ◌∷◌, lookup, lookup-insert,
  bytes_eq_refl, insert, subst, ◌∙◌, Bool-cases, inl, inr, keep_if, bytes_eq, is_some, is_empty,
  if◌then◌else◌, ◌==◌,
}
use kingdom.Outcome.{Exn, Result, ok, err, err-ok, runtime_error}

-- What may go wrong outside of the program, by path.
pub record Faults : Type 0 where
  -- a file that is there cannot be opened for reading, or no file can be opened for writing
  pub unreadable : Bytes → Bool
  pub unwritable : Bytes → Bool
  -- the stream fails while a text is written, or only when it is closed, and what it leaves of
  -- the text
  pub full : Bytes → Bool
  pub lost : Bytes → Bool
  pub left : Bytes → Bytes → Bytes
  -- `create_directories`, `rename` and `permissions` throw
  pub no_directory : Bytes → Bool
  -- `remove` with an error code leaves the file where it is
  pub no_remove : Bytes → Bool
  pub no_rename : Bytes → Bool
  pub no_permissions : Bytes → Bool

-- The files by path, with their contents.
pub record Drive : Type 0 where
  pub files : List (Bytes × Bytes)
  pub faults : Faults

abbrev pub Io : Type 0 → Type 0
Io A = Drive → Result A × Drive

abbrev pub continue : {A B : Type 0} → Result A × Drive → (A → Io B) → Result B × Drive
continue (ok a, d) f = f a d
continue (err e, d) f = (err e, d)

infixl 5 ◌>>=◌ ◌>>◌
abbrev pub ◌>>=◌ : {A B : Type 0} → Io A → (A → Io B) → Io B
◌>>=◌ m f d = continue (m d) f

abbrev pub ◌>>◌ : {B : Type 0} → Io (Unit {0}) → Io B → Io B
m >> k = m >>= λ _. k

abbrev pub pure : {A : Type 0} → A → Io A
pure a d = (ok a, d)

-- A call that touches no file.
abbrev pub lift : {A : Type 0} → Result A → Io A
lift r d = (r, d)

-- What follows from the parts of a block that succeeds follows from its success.
pub continue-parts :
    {A B P : Type 0} (x : Result A × Drive) (f : A → Io B) {b : B} {after : Drive}
    → continue x f ≡ (ok b, after)
    → ((a : A) (d : Drive) → x ≡ (ok a, d) → f a d ≡ (ok b, after) → P)
    → P
continue-parts (ok a, d) f h k = k a d refl h
continue-parts (err e, d) f h k = absurd (err-ok (ap (λ p. p.0) h))

-- `std::filesystem::exists`
unfoldable pub exists : Bytes → Drive → Bool
exists path d = is_some (lookup path d.files)

-- `std::ifstream`: nothing where the stream cannot be opened.
unfoldable pub read_file : Bytes → Drive → Option Bytes
read_file path d = if d.faults.unreadable path then none else lookup path d.files

unfoldable pub store_file : Bytes → Bytes → Drive → Drive
store_file path text d = record d { files = insert path text d.files }

unfoldable pub remove_file : Bytes → Drive → Drive
remove_file path d = record d {
  files = keep_if (λ (e : Bytes × Bytes). not (bytes_eq e.0 path)) d.files;
}

-- `std::filesystem::remove(path, ignored)`
unfoldable pub try_remove : Bytes → Drive → Drive
try_remove path d = if d.faults.no_remove path then d else remove_file path d

abbrev filesystem_error : Exn
filesystem_error = runtime_error "filesystem error"

-- `std::filesystem::create_directories`
unfoldable pub create_directories : Bytes → Io (Unit {0})
create_directories path d = (if d.faults.no_directory path then err filesystem_error else ok tt, d)

-- `std::ofstream output(path, trunc)`: the file is empty from then on.
unfoldable pub open_truncated : Exn → Bytes → Io (Unit {0})
unfolding store_file
open_truncated e path d =
    if d.faults.unwritable path then (err e, d) else (ok tt, store_file path [] d)

-- `output << text` and the test of the stream.
unfoldable pub write_text : Exn → Bytes → Bytes → Io (Unit {0})
unfolding store_file
write_text e path text d =
    if d.faults.full path
    then (err e, store_file path (d.faults.left path text) d)
    else (ok tt, store_file path text d)

-- The end of the stream's scope, behind the test of `write_text`: what the stream still holds is
-- written then, and nobody asks whether that fails.
unfoldable pub close_stream : Bytes → Bytes → Io (Unit {0})
unfolding store_file
close_stream path text d =
    (ok tt, if d.faults.lost path then store_file path (d.faults.left path text) d else d)

unfoldable pub set_permissions : Bytes → Io (Unit {0})
set_permissions path d = (if d.faults.no_permissions path then err filesystem_error else ok tt, d)

-- `std::filesystem::rename`
unfoldable pub rename : Bytes → Bytes → Io (Unit {0})
unfolding store_file remove_file
rename from to d =
    if d.faults.no_rename to then (err filesystem_error, d) else elim (lookup from d.files) [
      | none ↦ (err filesystem_error, d)
      | some text ↦ (ok tt, store_file to text (remove_file from d))
    ]

-- `a / b`
unfoldable pub join : Bytes → Bytes → Bytes
join [] b = b
join (c ∷ []) b = if c == b'/' then b'/' ∷ b else c ∷ b'/' ∷ b
join (c ∷ d ∷ a) b = c ∷ join (d ∷ a) b

-- `std::getenv("HOME")` and the test of it.
unfoldable pub home_directory : Exn → Option Bytes → Result Bytes
home_directory e none = err e
home_directory e (some home) = if is_empty home then err e else ok home

-- A file that was written has the text.
pub write_text-stores :
    (e : Exn) (path text : Bytes) (d : Drive) {u : Unit {0}} {after : Drive}
    → write_text e path text d ≡ (ok u, after)
    → lookup path after.files ≡ some text
unfolding write_text store_file
write_text-stores e path text d h = elim (Bool-cases (d.faults.full path)) [
  | inl full ↦ absurd (err-ok (ap (λ p. p.0) (rw full at h)))
  | inr free ↦
      subst (λ (s : Drive). lookup path s.files ≡ some text) (ap (λ p. p.1) (rw free at h))
        (lookup-insert path path text d.files ∙ rw (bytes_eq_refl path))
]
