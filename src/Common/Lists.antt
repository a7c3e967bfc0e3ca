-- ===== src/Common/Lists.antt =====
-- Lists measured by native numbers, and the list predicates and tests of the components.
use Prim.Native.Nat.{ℕ, zero, suc, ◌+◌}
use Prim.Native.String.{String}
use mathlib.Core.Path.{◌≡◌}
use mathlib.Core.Bool.{Bool, true, false, ◌&&◌, ◌||◌}
use mathlib.Core.List.{List, [], ◌∷◌, ◌++◌}
use native.Mathlib.Omega.{arith}
use text.Mathlib.TextEquality.{eq_iff}
use mathlib.Core.Logic.{◌⊎◌, inl, inr}
use soarcore.Common.Tests.{str_eq, if◌then◌else◌, Bool-cases}

module _ {ℓ} {A : Type ℓ} where
  abbrev pub length : List A → ℕ
  length [] = 0
  length (x ∷ xs) = suc (length xs)

  abbrev pub take : ℕ → List A → List A
  take zero xs = []
  take (suc n) [] = []
  take (suc n) (x ∷ xs) = x ∷ take n xs

  abbrev pub drop : ℕ → List A → List A
  drop zero xs = xs
  drop (suc n) [] = []
  drop (suc n) (x ∷ xs) = drop n xs

  -- The elements that a test lets through, in order.
  abbrev pub keep : (A → Bool) → List A → List A
  keep p [] = []
  keep p (x ∷ xs) = let rest = keep p xs in if p x then x ∷ rest else rest

  abbrev pub any : (A → Bool) → List A → Bool
  any p [] = false
  any p (x ∷ xs) = p x || any p xs

  abbrev pub all : (A → Bool) → List A → Bool
  all p [] = true
  all p (x ∷ xs) = p x && all p xs

  pub length-append : (xs ys : List A) → length (xs ++ ys) ≡ length xs + length ys
  length-append [] ys = omega arith
  length-append (x ∷ xs) ys = omega (arith, length-append xs ys)

module _ {ℓ κ} {A : Type ℓ} (P : A → Type κ) where
  abbrev pub All : List A → Type κ
  All [] = Unit
  All (x ∷ xs) = P x × All xs

  pub All-append : (xs ys : List A) → All xs → All ys → All (xs ++ ys)
  All-append [] ys h k = k
  All-append (x ∷ xs) ys (p, h) k = (p, All-append xs ys h k)

abbrev pub contains : List String → String → Bool
contains [] s = false
contains (x ∷ xs) s = str_eq x s || contains xs s

-- Some element has `P`, and which one.
abbrev pub OneOf {ℓ} : {A : Type ℓ} → (A → Type 0) → List A → Type 0
OneOf P [] = ⊥
OneOf P (x ∷ xs) = P x ⊎ OneOf P xs

pub contains-OneOf : (xs : List String) (s : String) → contains xs s ≡ true → OneOf (λ x. x ≡ s) xs
contains-OneOf [] s h = cc
contains-OneOf (x ∷ xs) s h = elim (Bool-cases (str_eq x s)) [
  | inl e ↦ inl ((eq_iff x s).0 e)
  | inr e ↦ inr (contains-OneOf xs s (ground arith))
]

pub contains-append_right :
    (xs ys : List String) (s : String) → contains ys s ≡ true → contains (xs ++ ys) s ≡ true
contains-append_right [] ys s h = h
contains-append_right (x ∷ xs) ys s h = ground (arith, contains-append_right xs ys s h)

module _ {ℓ} {A : Type ℓ} where
  pub OneOf-append_left : (P : A → Type 0) (xs ys : List A) → OneOf P xs → OneOf P (xs ++ ys)
  OneOf-append_left P (x ∷ xs) ys (inl p) = inl p
  OneOf-append_left P (x ∷ xs) ys (inr h) = inr (OneOf-append_left P xs ys h)
  OneOf-append_left P [] ys h = absurd h

  pub OneOf-append_right : (P : A → Type 0) (xs ys : List A) → OneOf P ys → OneOf P (xs ++ ys)
  OneOf-append_right P [] ys h = h
  OneOf-append_right P (x ∷ xs) ys h = inr (OneOf-append_right P xs ys h)

  pub All-take : (P : A → Type 0) (n : ℕ) (xs : List A) → All P xs → All P (take n xs)
  All-take P zero xs h = tt
  All-take P (suc n) [] h = tt
  All-take P (suc n) (x ∷ xs) (p, h) = (p, All-take P n xs h)

  pub All-keep : (P : A → Type 0) (test : A → Bool) (xs : List A) → All P xs → All P (keep test xs)
  All-keep P test [] h = tt
  All-keep P test (x ∷ xs) (p, h) = elim (Bool-cases (test x)) [
    | inl e ↦ rw (e, keep) (p, All-keep P test xs h)
    | inr e ↦ rw (e, keep) (All-keep P test xs h)
  ]

  pub All-map : (P Q : A → Type 0) (f : (a : A) → P a → Q a) (xs : List A) → All P xs → All Q xs
  All-map P Q f [] h = tt
  All-map P Q f (x ∷ xs) (p, h) = (f x p, All-map P Q f xs h)
