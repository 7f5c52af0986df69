-- ===== src/Prelude/Lists.antt =====
-- Lists measured by native numbers, and a predicate that holds of all entries.
use Prim.Native.Nat.{ℕ, zero, suc, ◌+◌, ◌-◌, min}
use mathlib.Core.Path.{◌≡◌, refl, ap}
use mathlib.Core.List.{List, [], ◌∷◌, ◌++◌, map}
use native.Mathlib.Omega.{arith}

module _ {ℓ} {A : Type ℓ} where
  abbrev pub length : List A → ℕ
  length [] = 0
  length (x ∷ xs) = suc (length xs)

  pub length-append : (xs ys : List A) → length (xs ++ ys) ≡ length xs + length ys
  length-append [] ys = omega arith
  length-append (x ∷ xs) ys = omega (arith, length-append xs ys)

  unfoldable pub take : ℕ → List A → List A
  take zero xs = []
  take (suc count) [] = []
  take (suc count) (x ∷ xs) = x ∷ take count xs

  unfoldable pub drop : ℕ → List A → List A
  drop zero xs = xs
  drop (suc count) [] = []
  drop (suc count) (x ∷ xs) = drop count xs

  pub length-take : (count : ℕ) (xs : List A) → length (take count xs) ≡ min count (length xs)
  unfolding take
  length-take zero xs = omega arith
  length-take (suc count) [] = omega arith
  length-take (suc count) (x ∷ xs) = omega (arith, length-take count xs)

  pub length-drop : (count : ℕ) (xs : List A) → length (drop count xs) ≡ length xs - count
  unfolding drop
  length-drop zero xs = omega arith
  length-drop (suc count) [] = omega arith
  length-drop (suc count) (x ∷ xs) = omega (arith, length-drop count xs)

  pub take-append : (xs ys : List A) → take (length xs) (xs ++ ys) ≡ xs
  unfolding take
  take-append [] ys = refl
  take-append (x ∷ xs) ys = ap (◌∷◌ x) (take-append xs ys)

  pub drop-append : (xs ys : List A) → drop (length xs) (xs ++ ys) ≡ ys
  unfolding drop
  drop-append [] ys = refl
  drop-append (x ∷ xs) ys = drop-append xs ys

  abbrev pub All {κ} : (A → Type κ) → List A → Type κ
  All P [] = Unit {κ}
  All P (x ∷ xs) = P x × All P xs

  pub All-append {κ} : (P : A → Type κ) (xs ys : List A) → All P xs → All P ys → All P (xs ++ ys)
  All-append P [] ys h k = k
  All-append P (x ∷ xs) ys h k = (h.0, All-append P xs ys h.1 k)

  pub All-split {κ} : (P : A → Type κ) (xs ys : List A) → All P (xs ++ ys) → All P xs × All P ys
  All-split P [] ys h = (tt, h)
  All-split P (x ∷ xs) ys (h, hs) = let (a, b) = All-split P xs ys hs in ((h, a), b)

  pub All-mono {κ} :
      (P Q : A → Type κ) → ((x : A) → P x → Q x) → (xs : List A) → All P xs → All Q xs
  All-mono P Q f [] h = tt
  All-mono P Q f (x ∷ xs) h = (f x h.0, All-mono P Q f xs h.1)

  -- From two predicates to a third.
  pub All-both {κ} :
      (P Q R : A → Type κ)
      → ((x : A) → P x → Q x → R x)
      → (xs : List A) → All P xs
      → All Q xs
      → All R xs
  All-both P Q R f [] h k = tt
  All-both P Q R f (x ∷ xs) h k = (f x h.0 k.0, All-both P Q R f xs h.1 k.1)

module _ {ℓ κ} {A : Type ℓ} {B : Type ℓ} where
  All-cons :
      (R : A → B → Type κ) (x : A) (xs : List A) (ys : List B)
      → All (R x) ys
      → All (λ y. All (λ a. R a y) xs) ys
      → All (λ y. All (λ a. R a y) (x ∷ xs)) ys
  All-cons R x xs [] h k = tt
  All-cons R x xs (y ∷ ys) h k = ((h.0, k.0), All-cons R x xs ys h.1 k.1)

  All-empty : (R : A → B → Type κ) (ys : List B) → All (λ y. All (λ a. R a y) []) ys
  All-empty R [] = tt
  All-empty R (y ∷ ys) = (tt, All-empty R ys)

  pub All-map :
      (f : A → B) (P : B → Type κ) (xs : List A) → All (λ x. P (f x)) xs → All P (map f xs)
  All-map f P [] h = tt
  All-map f P (x ∷ xs) h = (h.0, All-map f P xs h.1)

  -- What holds between all entries of two lists, seen from the second.
  pub All-swap :
      (R : A → B → Type κ) (xs : List A) (ys : List B)
      → All (λ x. All (R x) ys) xs
      → All (λ y. All (λ x. R x y) xs) ys
  All-swap R [] ys h = All-empty R ys
  All-swap R (x ∷ xs) ys h = All-cons R x xs ys h.0 (All-swap R xs ys h.1)
