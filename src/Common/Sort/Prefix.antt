-- ===== src/Common/Sort/Prefix.antt =====
-- The first rows of a list in order, which is what LIMIT after ORDER BY keeps.
use soarcore.Common.Sort.{Sorted}
use mathlib.Core.Path.{◌≡◌, refl, ap}
use mathlib.Core.Bool.{Bool, true}
use mathlib.Core.List.{List, [], ◌∷◌, ◌++◌}
use Prim.Native.Nat.{ℕ, zero, suc, ◌≤◌}
use native.Mathlib.Omega.{arith}
use soarcore.Common.Lists.{All, take, drop, length}

module _ {ℓ} {A : Type ℓ} where
  pub take-drop : (n : ℕ) (xs : List A) → take n xs ++ drop n xs ≡ xs
  take-drop zero xs = refl
  take-drop (suc n) [] = refl
  take-drop (suc n) (x ∷ xs) = ap (◌∷◌ x) (take-drop n xs)

  pub length-take : (n : ℕ) (xs : List A) → length (take n xs) ≤ n
  length-take zero xs = omega arith
  length-take (suc n) [] = omega arith
  length-take (suc n) (x ∷ xs) = let ih = length-take n xs in omega arith

  pub All-drop : (P : A → Type 0) (n : ℕ) (xs : List A) → All P xs → All P (drop n xs)
  All-drop P zero xs h = h
  All-drop P (suc n) [] h = tt
  All-drop P (suc n) (x ∷ xs) (p, h) = All-drop P n xs h

  All-both : (P Q : A → Type 0) (xs : List A) → All P xs → All Q xs → All (λ x. P x × Q x) xs
  All-both P Q [] h k = tt
  All-both P Q (x ∷ xs) (p, h) (q, k) = ((p, q), All-both P Q xs h k)

  All-true : (xs : List A) → All (λ x. Unit {0}) xs
  All-true [] = tt
  All-true (x ∷ xs) = (tt, All-true xs)

module _ {ℓ} {A : Type ℓ} (le : A → A → Bool)
    (trans : (a b c : A) → le a b ≡ true → le b c ≡ true → le a c ≡ true) where
  below :
      (x y : A) (xs : List A)
      → le x y ≡ true
      → All (λ z. le y z ≡ true) xs
      → All (λ z. le x z ≡ true) xs
  below x y [] e h = tt
  below x y (z ∷ xs) e (p, h) = (trans x y z e p, below x y xs e h)

  -- The head of a list in order comes before the rest.
  Sorted-head : (x : A) (xs : List A) → Sorted le (x ∷ xs) → All (λ z. le x z ≡ true) xs
  Sorted-head x [] s = tt
  Sorted-head x (y ∷ xs) (e, s) = (e, below x y xs e (Sorted-head y xs s))

  Sorted-tail : (x : A) (xs : List A) → Sorted le (x ∷ xs) → Sorted le xs
  Sorted-tail x [] s = tt
  Sorted-tail x (y ∷ xs) (e, s) = s

  pub Sorted-take : (n : ℕ) (xs : List A) → Sorted le xs → Sorted le (take n xs)
  Sorted-take zero xs s = tt
  Sorted-take (suc n) [] s = tt
  Sorted-take (suc zero) (x ∷ xs) s = tt
  Sorted-take (suc (suc n)) (x ∷ []) s = tt
  Sorted-take (suc (suc n)) (x ∷ y ∷ xs) (e, s) = (e, Sorted-take (suc n) (y ∷ xs) s)

  -- What is kept comes before what is left.
  pub Sorted-take-drop :
      (n : ℕ) (xs : List A)
      → Sorted le xs
      → All (λ r. All (λ b. le b r ≡ true) (take n xs)) (drop n xs)
  Sorted-take-drop zero xs s = All-true xs
  Sorted-take-drop (suc n) [] s = tt
  Sorted-take-drop (suc n) (x ∷ xs) s =
      All-both (λ r. le x r ≡ true) (λ r. All (λ b. le b r ≡ true) (take n xs)) (drop n xs)
        (All-drop (λ r. le x r ≡ true) n xs (Sorted-head x xs s))
        (Sorted-take-drop n xs (Sorted-tail x xs s))

  pub Sorted-drop : (n : ℕ) (xs : List A) → Sorted le xs → Sorted le (drop n xs)
  Sorted-drop zero xs s = s
  Sorted-drop (suc n) [] s = tt
  Sorted-drop (suc n) (x ∷ xs) s = Sorted-drop n xs (Sorted-tail x xs s)
