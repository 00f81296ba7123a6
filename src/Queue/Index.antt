-- ===== src/Queue/Index.antt =====
-- internal/queue/queue.go: the index map beside the heap, and what the two hold together.
use distsched.Base.{
  ℕ, zero, suc, ◌<◌, ◌≡◌, refl, ◌∙◌, inl, inr, List, [], ◌∷◌, ◌++◌, Option, none, some, String,
  arith, length, take, set, ◌==◌, if◌then◌else◌, lookup, insert, lookup-insert, same, Option-cases,
}
use distsched.Queue.{Item, PriorityQueue, at, swap}
use distsched.Queue.Length.{length-set, length-swap}

pub at-set :
    (h : List Item) (i j : ℕ) (x : Item)
    → i < length h
    → at (set h i x) j ≡ (if i == j then x else at h j)
at-set [] i j x p = absurd (omega arith)
at-set (y ∷ ys) zero zero x p = refl
at-set (y ∷ ys) zero (suc j) x p = ground arith
at-set (y ∷ ys) (suc i) zero x p = ground arith
at-set (y ∷ ys) (suc i) (suc j) x p = ground (arith, at-set ys i j x)

pub at-append :
    (h : List Item) (x : Item) (j : ℕ) → at (h ++ x ∷ []) j ≡ (if length h == j then x else at h j)
at-append [] x zero = refl
at-append [] x (suc j) = ground arith
at-append (y ∷ ys) x zero = ground arith
at-append (y ∷ ys) x (suc j) = ground (arith, at-append ys x j)

pub at-take : (n : ℕ) (h : List Item) (j : ℕ) → j < n → at (take n h) j ≡ at h j
at-take zero h j p = absurd (omega arith)
at-take (suc n) [] j p = refl
at-take (suc n) (y ∷ ys) zero p = refl
at-take (suc n) (y ∷ ys) (suc j) p = at-take n ys j (omega arith)

-- The map has each item's place, and nothing else.
pub record IsIndexed (q : PriorityQueue) : Type 0 where
  pub sound :
      (id : String) (i : ℕ)
      → lookup id q.by_id ≡ some i
      → (i < length q.h) × ((at q.h i).job_id ≡ id)
  pub complete : (i : ℕ) → i < length q.h → lookup (at q.h i).job_id q.by_id ≡ some i

-- The queue as a map from job IDs to items, which forgets where the items stand.
unfoldable pub view : PriorityQueue → String → Option Item
view q id = elim (lookup id q.by_id) [ none ↦ none | some i ↦ some (at q.h i) ]

-- One queue has the items of another, at places of its own.
pub record Holds (q q' : PriorityQueue) : Type 0 where
  pub indexed : IsIndexed q'
  pub items : (id : String) → view q' id ≡ view q id
  pub size : length q'.h ≡ length q.h

pub Holds-refl : (q : PriorityQueue) → IsIndexed q → Holds q q
Holds-refl q i = record { indexed = i; items = λ id. refl; size = refl }

pub Holds-trans : (p q r : PriorityQueue) → Holds p q → Holds q r → Holds p r
Holds-trans p q r h k = record {
  indexed = k.indexed;
  items = λ id. k.items id ∙ h.items id;
  size = k.size ∙ h.size;
}

module _ (i j : ℕ) (q : PriorityQueue) (hi : i < length q.h) (hj : j < length q.h) where
  pub at-swap :
      (c : ℕ)
      → at (swap i j q).h c ≡ (if j == c then at q.h i else if i == c then at q.h j else at q.h c)
  unfolding swap
  at-swap c = ground (
    arith,
    at-set (set q.h i (at q.h j)) j c (at q.h i),
    at-set q.h i c (at q.h j),
    length-set q.h i (at q.h j),
  )

  lookup-swap :
      (id : String)
      → lookup id (swap i j q).by_id ≡ (
          if same (at q.h i).job_id id
          then some j
          else if same (at q.h j).job_id id
          then some i
          else lookup id q.by_id)
  unfolding swap
  lookup-swap id =
      let a = at q.h i in
      let b = at q.h j in
      ground (
        arith,
        lookup-insert a.job_id id j (insert b.job_id i q.by_id),
        lookup-insert b.job_id id i q.by_id,
      )

  swap-IsIndexed : IsIndexed q → IsIndexed (swap i j q)
  swap-IsIndexed v = record {
    sound = λ id c e. ground (
      arith,
      lookup-swap id,
      at-swap c,
      length-swap i j q,
      v.sound id c,
      v.complete i hi,
      v.complete j hj,
      v.complete c,
    );
    complete = λ c p. ground (
      arith,
      lookup-swap (at (swap i j q).h c).job_id,
      at-swap c,
      length-swap i j q,
      v.complete i,
      v.complete j,
      v.complete c,
    );
  }

  view-swap : IsIndexed q → (id : String) → view (swap i j q) id ≡ view q id
  unfolding view
  view-swap v id = elim (Option-cases (lookup id q.by_id)) [
    | inl e ↦ ground (arith, lookup-swap id, v.complete i hi, v.complete j hj)
    | inr (k, e) ↦ ground (
      arith,
      lookup-swap id,
      at-swap i,
      at-swap j,
      at-swap k,
      v.complete i hi,
      v.complete j hj,
      v.sound id k,
    )
  ]

  pub swap-Holds : IsIndexed q → Holds q (swap i j q)
  swap-Holds v = record {
    indexed = swap-IsIndexed v;
    items = view-swap v;
    size = length-swap i j q;
  }
