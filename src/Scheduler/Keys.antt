-- ===== src/Scheduler/Keys.antt =====
-- internal/scheduler/deps.go: the sets and the maps that the search of `wouldCreateCycle` keeps, as lists.
use distsched.Base.{
  ◌+◌, ◌≤◌, ◌≡◌, inl, inr, refl, ap, subst, true, false, arith, List, [], ◌∷◌, none, String, same,
  elem, without, length, lookup, Distinct, Bool-cases,
}
use distsched.Scheduler.Jobs.{Graph}
use distsched.Scheduler.Search.{elem-first}

pub nothing_in : (k : String) → elem k [] ≡ false
unfolding elem
nothing_in k = refl

pub not_without :
    (n k : String) (xs : List String)
    → elem k (without n xs) ≡ true
    → (elem k xs ≡ true) × (same n k ≡ false)
unfolding elem without
not_without n k [] e = absurd (ground arith)
not_without n k (x ∷ xs) e = ground (arith, not_without n k xs)

pub without_absent : (n : String) (xs : List String) → elem n xs ≡ false → without n xs ≡ xs
unfolding elem without
without_absent n [] e = refl
without_absent n (x ∷ xs) e = ground (arith, without_absent n xs)

absent_without :
    (n k : String) (xs : List String) → elem k xs ≡ false → elem k (without n xs) ≡ false
unfolding elem without
absent_without n k [] e = refl
absent_without n k (x ∷ xs) e = ground (arith, absent_without n k xs)

without-Distinct : (n : String) (xs : List String) → Distinct xs → Distinct (without n xs)
unfolding without
without-Distinct n [] d = tt
without-Distinct n (x ∷ xs) (new, d) = elim (Bool-cases (same x n)) [
  | inl e ↦ rw e (without-Distinct n xs d)
  | inr e ↦ rw e (absent_without n x xs new, without-Distinct n xs d)
]

length-without_once :
    (n : String) (xs : List String) → Distinct xs → length xs ≤ length (without n xs) + 1
unfolding without
length-without_once n [] d = omega arith
length-without_once n (x ∷ xs) (new, d) = elim (Bool-cases (same x n)) [
  | inl e ↦
      let here : x ≡ n = ground arith in
      let gone = ap length (without_absent n xs (subst (λ y. elem y xs ≡ false) here new)) in
      rw e (omega (arith, gone))
  | inr e ↦ rw e (omega (arith, length-without_once n xs d))
]

-- Distinct keys of a map are no more than its entries.
pub keys_bounded :
    (ks : List String) (g : Graph)
    → Distinct ks
    → ((k : String) → elem k ks ≡ true → lookup k g ≡ none → ⊥)
    → length ks ≤ length g
unfolding lookup
keys_bounded [] g d f = omega arith
keys_bounded (k ∷ ks) [] d f = absurd (f k (elem-first k ks) refl)
keys_bounded (k ∷ ks) ((i, v) ∷ g) d f =
    let rest =
      keys_bounded (without i (k ∷ ks)) g (without-Distinct i (k ∷ ks) d)
        (λ j e n. let (there, other) = not_without i j (k ∷ ks) e in f j there (ground arith)) in
    omega (arith, rest, length-without_once i (k ∷ ks) d)
