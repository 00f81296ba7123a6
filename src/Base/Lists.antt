-- ===== src/Base/Lists.antt =====
-- Lists measured by native numbers, weighted sums over lists, and a predicate on all entries.
use Prim.Native.Nat.{ℕ, zero, suc, ◌+◌, ◌≤◌}
use mathlib.Core.Path.{◌≡◌}
use mathlib.Core.List.{List, [], ◌∷◌, ◌++◌}
use mathlib.Core.Bool.{Bool, true, false}
use mathlib.Core.Option.{Option, none, some}
use native.Mathlib.Omega.{arith}

module _ {ℓ} {A : Type ℓ} where
  abbrev pub length : List A → ℕ
  length [] = 0
  length (x ∷ xs) = suc (length xs)

  abbrev pub take : ℕ → List A → List A
  take zero xs = []
  take (suc n) [] = []
  take (suc n) (x ∷ xs) = x ∷ take n xs

  abbrev pub sum_over : (A → ℕ) → List A → ℕ
  sum_over w [] = 0
  sum_over w (x ∷ xs) = w x + sum_over w xs

  abbrev pub All {κ} : (A → Type κ) → List A → Type κ
  All P [] = Unit
  All P (x ∷ xs) = P x × All P xs

-- The lists have the same length, and the relation holds between them place by place.
abbrev pub All2 {ℓ ℓ'} : {A : Type ℓ} {B : Type ℓ'} → (A → B → Type 0) → List A → List B → Type 0
All2 R [] [] = Unit {0}
All2 R [] (y ∷ ys) = ⊥
All2 R (x ∷ xs) [] = ⊥
All2 R (x ∷ xs) (y ∷ ys) = R x y × All2 R xs ys

module _ {ℓ} {A : Type ℓ} where
  pub length-append : (xs ys : List A) → length (xs ++ ys) ≡ length xs + length ys
  length-append [] ys = omega arith
  length-append (x ∷ xs) ys = omega (arith, length-append xs ys)

  pub sum_over-append :
      (w : A → ℕ) (xs ys : List A) → sum_over w (xs ++ ys) ≡ sum_over w xs + sum_over w ys
  sum_over-append w [] ys = omega arith
  sum_over-append w (x ∷ xs) ys = omega (arith, sum_over-append w xs ys)

  pub sum_over-le :
      (w w' : A → ℕ) → ((a : A) → w a ≤ w' a) → (xs : List A) → sum_over w xs ≤ sum_over w' xs
  sum_over-le w w' h [] = omega arith
  sum_over-le w w' h (x ∷ xs) = omega (arith, h x, sum_over-le w w' h xs)

  pub All-append {κ} : (P : A → Type κ) (xs ys : List A) → All P xs → All P ys → All P (xs ++ ys)
  All-append P [] ys hx hy = hy
  All-append P (x ∷ xs) ys hx hy = (hx.0, All-append P xs ys hx.1 hy)

  pub All-map {κ κ'} :
      {P : A → Type κ} {Q : A → Type κ'} (f : (a : A) → P a → Q a) (xs : List A)
      → All P xs
      → All Q xs
  All-map f [] h = tt
  All-map f (x ∷ xs) h = (f x h.0, All-map f xs h.1)

pub All2-map {ℓ ℓ'} :
    {A : Type ℓ} {B : Type ℓ'} {R S : A → B → Type 0} (f : (a : A) (b : B) → R a b → S a b)
    (xs : List A) (ys : List B)
    → All2 R xs ys
    → All2 S xs ys
All2-map f [] [] h = tt
All2-map f [] (y ∷ ys) h = elim h [ ]
All2-map f (x ∷ xs) [] h = elim h [ ]
All2-map f (x ∷ xs) (y ∷ ys) h = (f x y h.0, All2-map f xs ys h.1)

module _ {ℓ} {A : Type ℓ} where
  abbrev pub get_elem? : List A → ℕ → Option A
  get_elem? [] i = none
  get_elem? (x ∷ xs) zero = some x
  get_elem? (x ∷ xs) (suc i) = get_elem? xs i

  -- A write out of bounds changes nothing.
  abbrev pub set : List A → ℕ → A → List A
  set [] i v = []
  set (x ∷ xs) zero v = v ∷ xs
  set (x ∷ xs) (suc i) v = x ∷ set xs i v

  abbrev pub is_empty : List A → Bool
  is_empty [] = true
  is_empty (x ∷ xs) = false
