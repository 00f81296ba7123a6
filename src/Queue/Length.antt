-- ===== src/Queue/Length.antt =====
-- internal/queue/queue.go: how many entries the heap has after each operation.
use distsched.Base.{
  ◌⊎◌, ℕ, zero, suc, ◌+◌, ◌-◌, ◌*◌, ◌≤◌, ◌≡◌, refl, inl, inr, not, ◌||◌, List, [], ◌∷◌, some,
  String, arith, length, take, set, Bool-cases, leb, ◌∙◌, ap,
}
use distsched.Queue.{PriorityQueue, swap, child, down, less, at, drop_last, heap_pop, pop}

pub length-set : {A : Type 0} (xs : List A) (i : ℕ) (x : A) → length (set xs i x) ≡ length xs
length-set [] i x = refl
length-set (y ∷ ys) zero x = refl
length-set (y ∷ ys) (suc i) x = ap suc (length-set ys i x)

pub length-take : {A : Type 0} (n : ℕ) (xs : List A) → n ≤ length xs → length (take n xs) ≡ n
length-take zero xs h = refl
length-take (suc n) [] h = absurd (omega arith)
length-take (suc n) (x ∷ xs) h = ap suc (length-take n xs (omega arith))

pub length-swap : (i j : ℕ) (q : PriorityQueue) → length (swap i j q).h ≡ length q.h
unfolding swap
length-swap i j q = length-set (set q.h i (at q.h j)) j (at q.h i) ∙ length-set q.h i (at q.h j)

length-down : (fuel i n : ℕ) (q : PriorityQueue) → length (down fuel i n q).0.h ≡ length q.h
unfolding down
length-down zero i n q = refl
length-down (suc fuel) i n q =
    elim (Bool-cases (leb n (2 * i + 1) || not (less (at q.h (child q.h i n)) (at q.h i)))) [
      | inl e ↦ rw (e, down) refl
      | inr e ↦
          rw (e, down)
            (length-down fuel (child q.h i n) n (swap i (child q.h i n) q)
              ∙ length-swap i (child q.h i n) q)
    ]

length-drop_last : (q : PriorityQueue) → length (drop_last q).0.h ≡ length q.h - 1
unfolding drop_last
length-drop_last q = length-take (length q.h - 1) q.h (omega arith)

length-heap_pop : (q : PriorityQueue) → length (heap_pop q).0.h ≡ length q.h - 1
unfolding heap_pop
length-heap_pop q =
    let n = length q.h - 1 in
    let q1 = (down n 0 n (swap 0 n q)).0 in
    length-drop_last q1 ∙ ap (λ m. m - 1) (length-down n 0 n (swap 0 n q) ∙ length-swap 0 n q)

pub List-cases : {A : Type 0} (xs : List A) → (xs ≡ []) ⊎ ((x : A) × (ys : List A) × (xs ≡ x ∷ ys))
List-cases [] = inl refl
List-cases (x ∷ xs) = inr (x, xs, refl)

-- A pop takes exactly one entry off, unless there is none.
pub length-pop :
    (q : PriorityQueue) (id : String) → (pop q).1 ≡ some id → suc (length (pop q).0.h) ≡ length q.h
unfolding pop
length-pop q id e = elim (List-cases q.h) [
  | inl n ↦ absurd (ground arith)
  | inr (x, ys, n) ↦
      let left = length-heap_pop q in
      let some_there : length q.h ≡ suc (length ys) = ap length n in rw (n, pop) (omega arith)
]
