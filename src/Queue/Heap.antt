-- ===== src/Queue/Heap.antt =====
-- internal/queue/queue.go: the heap order of the slice, and `heap.up`.
use distsched.Base.{
  ℕ, zero, suc, ◌-◌, ◌/◌, ◌≤◌, ◌<◌, ◌≡◌, refl, ◌≢◌, inl, inr, ◌||◌, not, false, true, arith, length,
  ◌==◌, Bool-cases,
}
use distsched.Queue.{PriorityQueue, at, less, swap, up}
use distsched.Queue.Order.{less_asym, less_trans}
use distsched.Queue.Length.{length-swap}
use distsched.Queue.Index.{IsIndexed, Holds, Holds-refl, Holds-trans, at-swap, swap-Holds}

abbrev pub parent : ℕ → ℕ
parent c = (c - 1) / 2

-- None of the first `n` entries comes before its parent.
abbrev pub IsHeap : ℕ → PriorityQueue → Type 0
IsHeap n q = (c : ℕ) → 0 < c → c < n → less (at q.h c) (at q.h (parent c)) ≡ false

-- None of the children of `i` comes before the parent of `i`.
abbrev pub IsBridged : ℕ → PriorityQueue → ℕ → Type 0
IsBridged n q i =
    (c : ℕ) → 0 < c → c < n → parent c ≡ i → 0 < i → less (at q.h c) (at q.h (parent i)) ≡ false

-- `q'` has the items of `q`, in the heap order among the first `n` places, and as they were after.
pub record Sifted (n : ℕ) (q q' : PriorityQueue) : Type 0 where
  pub holds : Holds q q'
  pub heap : IsHeap n q'
  pub rest : (c : ℕ) → n ≤ c → at q'.h c ≡ at q.h c

pub Sifted-swap :
    (n i j : ℕ) {q' : PriorityQueue} (q : PriorityQueue)
    → i < length q.h
    → j < length q.h
    → i < n
    → j < n
    → IsIndexed q
    → Sifted n (swap i j q) q'
    → Sifted n q q'
Sifted-swap n i j q hi hj pi pj x s = record {
  holds = Holds-trans _ _ _ (swap-Holds i j q hi hj x) s.holds;
  heap = s.heap;
  rest = λ c p. ground (arith, s.rest c, at-swap i j q hi hj c);
}

-- Only the entry at `i` may come before its parent.
pub record UpInv (n : ℕ) (q : PriorityQueue) (i : ℕ) : Type 0 where
  pub inside : i < n
  pub within : n ≤ length q.h
  pub edges : (c : ℕ) → 0 < c → c < n → c ≢ i → less (at q.h c) (at q.h (parent c)) ≡ false
  pub bridged : IsBridged n q i

root_least_below :
    (k n : ℕ) (q : PriorityQueue) (i : ℕ)
    → IsHeap n q
    → i < k
    → i < n
    → less (at q.h i) (at q.h 0) ≡ false
root_least_below zero n q i h f p = absurd (omega arith)
root_least_below (suc k) n q zero h f p = ground (arith, less_asym (at q.h 0) (at q.h 0))
root_least_below (suc k) n q (suc i) h f p =
    less_trans (at q.h 0) (at q.h (parent (suc i))) (at q.h (suc i))
      (root_least_below k n q (parent (suc i)) h (omega arith) (omega arith))
      (h (suc i) (omega arith) p)

-- Nothing comes before the root.
pub root_least :
    (n : ℕ) (q : PriorityQueue) (i : ℕ) → IsHeap n q → i < n → less (at q.h i) (at q.h 0) ≡ false
root_least n q i h p = root_least_below (suc i) n q i h (omega arith) p

swap-UpInv :
    (n i j : ℕ) (q : PriorityQueue)
    → i ≡ parent j
    → 0 < j
    → UpInv n q j
    → less (at q.h j) (at q.h i) ≡ true
    → UpInv n (swap i j q) i
swap-UpInv n i j q e pos v below =
    let hj : j < length q.h = omega (arith, v.inside, v.within) in
    let put = at-swap i j q (omega arith) hj in
    let up_edge = less_asym (at q.h j) (at q.h i) below in
    record {
      inside = omega (arith, v.inside);
      within = omega (arith, v.within, length-swap i j q);
      edges = λ c p r t. ground (
        arith,
        put c,
        put (parent c),
        up_edge,
        v.edges c,
        v.bridged c,
        less_trans (at q.h j) (at q.h i) (at q.h c),
      );
      bridged = λ c p r t s. ground (
        arith,
        put c,
        put (parent i),
        v.edges c,
        v.edges i,
        less_trans (at q.h (parent i)) (at q.h i) (at q.h c),
      );
    }

pub up_restores :
    (fuel n j : ℕ) (q : PriorityQueue)
    → j < fuel
    → IsIndexed q
    → UpInv n q j
    → Sifted n q (up fuel j q)
unfolding up
up_restores zero n j q f x v = absurd (omega arith)
up_restores (suc fuel) n j q f x v =
    let i = parent j in
    elim (Bool-cases (i == j || not (less (at q.h j) (at q.h i)))) [
      | inl e ↦
          rw (e, up)
            (record {
              holds = Holds-refl q x;
              heap = λ c p r. ground (arith, v.edges c);
              rest = λ c p. refl;
            })
      | inr e ↦
          let hj : j < length q.h = omega (arith, v.inside, v.within) in
          let rest =
            up_restores fuel n i (swap i j q) (ground arith)
              (swap-Holds i j q (omega arith) hj x).indexed
              (swap-UpInv n i j q refl (ground arith) v (ground arith)) in
          rw (e, up) (Sifted-swap n i j q (omega arith) hj (omega arith) v.inside x rest)
    ]
