-- ===== src/Base/Lists.antt =====
-- Lists measured by native numbers and searched by Boolean tests.
use Prim.Native.Nat.{ℕ, zero, suc, ◌+◌, ◌≤◌}
use mathlib.Core.Path.{◌≡◌, refl, subst, ◌∙◌, fun_ext}
use mathlib.Core.Logic.{◌⊎◌, ◌↔◌, inl, inr}
use mathlib.Core.List.{List, [], ◌∷◌, ◌++◌, map}
use mathlib.Core.Bool.{Bool, true, false, ◌||◌, ◌&&◌}
use mathlib.Core.Option.{Option, none, some}
use native.Mathlib.Omega.{arith}
use kingdom.Base.Tests.{if◌then◌else◌, Bool-cases}

module _ {ℓ} {A : Type ℓ} where
  abbrev pub length : List A → ℕ
  length [] = 0
  length (x ∷ xs) = suc (length xs)

  abbrev pub is_empty : List A → Bool
  is_empty [] = true
  is_empty (x ∷ xs) = false

  abbrev pub take : ℕ → List A → List A
  take zero xs = []
  take (suc n) [] = []
  take (suc n) (x ∷ xs) = x ∷ take n xs

  abbrev pub drop : ℕ → List A → List A
  drop zero xs = xs
  drop (suc n) [] = []
  drop (suc n) (x ∷ xs) = drop n xs

  abbrev pub replicate : ℕ → A → List A
  replicate zero a = []
  replicate (suc n) a = a ∷ replicate n a

  -- The elements that pass a test, in order.
  unfoldable pub keep_if : (A → Bool) → List A → List A
  keep_if p [] = []
  keep_if p (x ∷ xs) = let rest = keep_if p xs in if p x then x ∷ rest else rest

  unfoldable pub any : (A → Bool) → List A → Bool
  any p [] = false
  any p (x ∷ xs) = p x || any p xs

  unfoldable pub find_if : (A → Bool) → List A → Option A
  find_if p [] = none
  find_if p (x ∷ xs) = if p x then some x else find_if p xs

  -- A predicate on every element, which the tactics read as a tuple.
  abbrev pub All {κ} : (A → Type κ) → List A → Type κ
  All P [] = Unit
  All P (x ∷ xs) = P x × All P xs

-- Membership, as a sum that the tactics take apart.
abbrev pub Member : {A : Type 0} → A → List A → Type 0
Member a [] = ⊥
Member a (x ∷ xs) = (x ≡ a) ⊎ Member a xs

module _ {ℓ} {A : Type ℓ} where
  pub length-append : (xs ys : List A) → length (xs ++ ys) ≡ length xs + length ys
  length-append [] ys = omega arith
  length-append (x ∷ xs) ys = omega (arith, length-append xs ys)

  pub length-keep_if-le : (p : A → Bool) (xs : List A) → length (keep_if p xs) ≤ length xs
  unfolding keep_if
  length-keep_if-le p [] = omega arith
  length-keep_if-le p (x ∷ xs) = ground (arith, length-keep_if-le p xs)

  pub All-keep_if {κ} :
      (P : A → Type κ) (p : A → Bool) (xs : List A) → All P xs → All P (keep_if p xs)
  unfolding keep_if
  All-keep_if P p [] h = h
  All-keep_if P p (x ∷ xs) h = elim (Bool-cases (p x)) [
    | inl e ↦ rw e (h.0, All-keep_if P p xs h.1)
    | inr e ↦ rw e (All-keep_if P p xs h.1)
  ]

  pub All-append {κ} : (P : A → Type κ) (xs ys : List A) → All P xs → All P ys → All P (xs ++ ys)
  All-append P [] ys hx hy = hy
  All-append P (x ∷ xs) ys hx hy = (hx.0, All-append P xs ys hx.1 hy)

  -- The test holds of what passes it.
  pub keep_if-All : (p : A → Bool) (xs : List A) → All (λ x. p x ≡ true) (keep_if p xs)
  unfolding keep_if
  keep_if-All p [] = tt
  keep_if-All p (x ∷ xs) = elim (Bool-cases (p x)) [
    | inl e ↦ rw e (e, keep_if-All p xs)
    | inr e ↦ rw e (keep_if-All p xs)
  ]

module _ {A : Type 0} (p : A → Bool) (a : A) where
  -- What `keep_if` keeps are exactly the members that pass the test.
  pub mem-keep_if : (xs : List A) → Member a (keep_if p xs) ↔ (Member a xs × (p a ≡ true))
  unfolding keep_if
  mem-keep_if [] = ground arith
  mem-keep_if (x ∷ xs) = ground (arith, mem-keep_if xs)

module _ {A : Type 0} (P : A → Type 0) {a : A} where
  pub All-Member : (xs : List A) → All P xs → Member a xs → P a
  All-Member [] h m = absurd m
  All-Member (x ∷ xs) h (inl e) = subst P e h.0
  All-Member (x ∷ xs) h (inr m) = All-Member xs h.1 m

module _ {ℓ} {A : Type ℓ} where
  pub any-append : (p : A → Bool) (xs ys : List A) → any p (xs ++ ys) ≡ (any p xs || any p ys)
  unfolding any
  any-append p [] ys = refl
  any-append p (x ∷ xs) ys = ground (arith, any-append p xs ys)

  pub any-map {κ} :
      {B : Type κ} (p : B → Bool) (f : A → B) (xs : List A)
      → any p (map f xs) ≡ any (λ x. p (f x)) xs
  unfolding any
  any-map p f [] = refl
  any-map p f (x ∷ xs) = rw (any-map p f xs)

  pub any-keep_if : (p q : A → Bool) (xs : List A) → any p (keep_if q xs) ≡ any (λ x. q x && p x) xs
  unfolding any keep_if
  any-keep_if p q [] = refl
  any-keep_if p q (x ∷ xs) = ground (arith, any-keep_if p q xs)

module _ {ℓ} {A : Type ℓ} where
  pub All-imp {κ ι} :
      {P : A → Type κ} {Q : A → Type ι} (xs : List A) → ((a : A) → P a → Q a) → All P xs → All Q xs
  All-imp [] f h = tt
  All-imp (x ∷ xs) f h = (f x h.0, All-imp xs f h.1)

  -- What is kept has the predicate and passes the test.
  pub All-keep_if_passing {κ} :
      (P : A → Type κ) (p : A → Bool) (xs : List A)
      → All P xs
      → All (λ x. P x × (p x ≡ true)) (keep_if p xs)
  unfolding keep_if
  All-keep_if_passing P p [] h = tt
  All-keep_if_passing P p (x ∷ xs) h = elim (Bool-cases (p x)) [
    | inl e ↦ rw e ((h.0, e), All-keep_if_passing P p xs h.1)
    | inr e ↦ rw e (All-keep_if_passing P p xs h.1)
  ]

  pub All-map {κ ι} :
      {B : Type κ} (P : B → Type ι) (f : A → B) (xs : List A)
      → All (λ x. P (f x)) xs
      → All P (map f xs)
  All-map P f [] h = tt
  All-map P f (x ∷ xs) h = (h.0, All-map P f xs h.1)

  -- No two elements that the test relates.
  abbrev pub Distinct : (A → A → Bool) → List A → Type 0
  Distinct eq [] = Unit
  Distinct eq (x ∷ xs) = (any (eq x) xs ≡ false) × Distinct eq xs

  pub Distinct-append :
      (eq : A → A → Bool) (x : A) (xs : List A)
      → Distinct eq xs
      → any (λ y. eq y x) xs ≡ false
      → Distinct eq (xs ++ x ∷ [])
  unfolding any
  Distinct-append eq x [] d h = (refl, tt)
  Distinct-append eq x (y ∷ xs) d h =
      (ground (arith, any-append (eq y) xs (x ∷ [])), Distinct-append eq x xs d.1 (ground arith))

  any-keep_if-false :
      (p q : A → Bool) (xs : List A) → any p xs ≡ false → any p (keep_if q xs) ≡ false
  unfolding any keep_if
  any-keep_if-false p q [] h = refl
  any-keep_if-false p q (x ∷ xs) h = ground (arith, any-keep_if-false p q xs)

  pub Distinct-keep_if :
      (eq : A → A → Bool) (q : A → Bool) (xs : List A) → Distinct eq xs → Distinct eq (keep_if q xs)
  unfolding keep_if
  Distinct-keep_if eq q [] d = tt
  Distinct-keep_if eq q (x ∷ xs) d = elim (Bool-cases (q x)) [
    | inl e ↦ rw e (any-keep_if-false (eq x) q xs d.0, Distinct-keep_if eq q xs d.1)
    | inr e ↦ rw e (Distinct-keep_if eq q xs d.1)
  ]

  -- A map that the test does not see.
  pub Distinct-map :
      (eq : A → A → Bool) (f : A → A) (xs : List A)
      → ((x y : A) → eq (f x) (f y) ≡ eq x y)
      → Distinct eq xs
      → Distinct eq (map f xs)
  Distinct-map eq f [] h d = tt
  Distinct-map eq f (x ∷ xs) h d =
      (any-map (eq (f x)) f xs ∙ rw (fun_ext (h x)) d.0, Distinct-map eq f xs h d.1)
