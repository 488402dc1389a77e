-- ===== src/Outcome.antt =====
-- The C++ exceptions of the server, by what a `catch` clause can tell apart, and results of calls
-- that may throw them.
use kingdom.Base.{String, ◌≡◌, refl, Bool, true, false, Option, none, some}

pub data Exn : Type 0 where
  -- `std::runtime_error` thrown by this code
  runtime_error : String → Exn
  -- `pqxx::sql_error`, a `std::runtime_error`: a constraint of a table was violated
  sql_error : Exn
  -- the exceptions of nlohmann::json and of the conversions, which are no `std::runtime_error`
  other_error : Exn

pub data Result {ℓ} (A : Type ℓ) : Type ℓ where
  ok : A → Result A
  err : Exn → Result A

infixl 5 ◌>>◌
module _ {ℓ κ} {B : Type κ} where
  infixl 5 ◌>>=◌
  -- What is left of a block runs on the result of its first part, or not at all.
  abbrev pub ◌>>=◌ : {A : Type ℓ} → Result A → (A → Result B) → Result B
  err failure >>= rest = err failure
  ok found >>= rest = rest found

abbrev pub ◌>>◌ {κ} : {B : Type κ} → Result (Unit {0}) → Result B → Result B
first >> rest = first >>= λ done. rest

-- The same, where another module's `>>=` is in use.
infixl 5 ◌|>◌
abbrev pub ◌|>◌ {ℓ κ} : {A : Type ℓ} {B : Type κ} → Result A → (A → Result B) → Result B
m |> f = m >>= f

-- What a call that may throw yields.
abbrev pub or_err {ℓ} : {A : Type ℓ} → Exn → Option A → Result A
or_err e none = err e
or_err e (some a) = ok a

-- `if (!test) throw e`
abbrev pub guard : Bool → Exn → Result (Unit {0})
guard true e = ok tt
guard false e = err e

-- A call that throws.
abbrev pub IsErr {ℓ} : {A : Type ℓ} → Result A → Type ℓ
IsErr {A = A} m = (e : Exn) × (m ≡ err e)

-- A block throws where what follows its first part does.
pub >>=-IsErr {ℓ} :
    {A B : Type ℓ} (m : Result A) {f : A → Result B}
    → ((a : A) → m ≡ ok a → IsErr (f a))
    → IsErr (m >>= f)
>>=-IsErr (ok a) h = h a refl
>>=-IsErr (err e) h = (e, refl)

pub IsErr->>= {ℓ} : {A B : Type ℓ} (m : Result A) (f : A → Result B) → IsErr m → IsErr (m >>= f)
IsErr->>= (ok a) f h = cc
IsErr->>= (err e) f h = (e, refl)

pub ok-injective : {A : Type 0} {a b : A} → ok a ≡ ok b → a ≡ b
ok-injective h = cc

-- What follows from the parts of a block that succeeds follows from its success.
pub >>=-parts {ℓ κ} :
    {A : Type ℓ} {B P : Type κ} (m : Result A) (f : A → Result B) {b : B}
    → (m >>= f) ≡ ok b
    → ((a : A) → m ≡ ok a → f a ≡ ok b → P)
    → P
>>=-parts (ok a) f h k = k a refl h
>>=-parts (err e) f h k = cc

pub err-ok : {A : Type 0} {e : Exn} {a : A} → err e ≡ ok a → ⊥
err-ok h = cc

pub or_err-ok : {A : Type 0} (e : Exn) (o : Option A) {a : A} → or_err e o ≡ ok a → o ≡ some a
or_err-ok e none h = cc
or_err-ok e (some b) h = cc

pub none-some : {A : Type 0} {a : A} → none ≡ some a → ⊥
none-some h = cc

pub some-injective : {A : Type 0} {a b : A} → some a ≡ some b → a ≡ b
some-injective h = cc

pub true-false : true ≡ false → ⊥
true-false h = cc
