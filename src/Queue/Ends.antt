-- ===== src/Queue/Ends.antt =====
-- internal/queue/queue.go: the end of the slice, where entries come and go.
use distsched.Base.{
  ℕ, suc, ◌≡◌, inl, inr, [], ◌∷◌, ◌++◌, none, some, String, arith, length, ap, sym, ◌∙◌,
  length-append, take, if◌then◌else◌, lookup, insert, erase, lookup-insert, lookup-erase, same,
  Option-cases,
}
use distsched.Queue.{Item, PriorityQueue, at}
use distsched.Queue.Length.{length-take}
use distsched.Queue.Index.{IsIndexed, Holds, view, at-append, at-take}
use distsched.Queue.Heap.{parent, IsHeap, UpInv, Sifted}

-- The index map is right, and no entry comes before its parent.
pub record IsQueue (q : PriorityQueue) : Type 0 where
  pub indexed : IsIndexed q
  pub heap : IsHeap (length q.h) q

-- The slice with an entry put after its end.
abbrev pub put_last : Item → PriorityQueue → PriorityQueue
put_last it q = record { h = q.h ++ it ∷ []; by_id = insert it.job_id (length q.h) q.by_id }

module _ (it : Item) (q : PriorityQueue) (x : IsIndexed q)
    (new : lookup it.job_id q.by_id ≡ none) where
  pub length-put_last : length (put_last it q).h ≡ suc (length q.h)
  length-put_last = omega (arith, length-append q.h (it ∷ []))

  pub put_last-IsIndexed : IsIndexed (put_last it q)
  put_last-IsIndexed = record {
    sound = λ id i e. ground (
      arith,
      length-put_last,
      at-append q.h it i,
      lookup-insert it.job_id id (length q.h) q.by_id,
      x.sound id i,
    );
    complete = λ i p. ground (
      arith,
      length-put_last,
      at-append q.h it i,
      lookup-insert it.job_id (at (put_last it q).h i).job_id (length q.h) q.by_id,
      x.complete i,
    );
  }

  pub view-put_last :
      (id : String) → view (put_last it q) id ≡ (if same it.job_id id then some it else view q id)
  unfolding view
  view-put_last id = elim (Option-cases (lookup id q.by_id)) [
    | inl e ↦
        ground
          (arith, lookup-insert it.job_id id (length q.h) q.by_id, at-append q.h it (length q.h))
    | inr (k, e) ↦ ground (
      arith,
      x.sound id k e,
      lookup-insert it.job_id id (length q.h) q.by_id,
      at-append q.h it (length q.h),
      at-append q.h it k,
    )
  ]

  pub put_last-UpInv : IsHeap (length q.h) q → UpInv (suc (length q.h)) (put_last it q) (length q.h)
  put_last-UpInv h = record {
    inside = omega arith;
    within = omega (arith, length-put_last);
    edges = λ c p r t. ground (arith, h c p, at-append q.h it c, at-append q.h it (parent c));
    bridged = λ c p r t s. absurd (omega arith);
  }

-- `q'` is `q` without the job `id`.
pub record Removed (id : String) (q q' : PriorityQueue) : Type 0 where
  pub queue : IsQueue q'
  pub items : (j : String) → view q' j ≡ (if same id j then none else view q j)

-- The slice without its last entry.
abbrev pub take_off : ℕ → PriorityQueue → PriorityQueue
take_off n q = record { h = take n q.h; by_id = erase (at q.h n).job_id q.by_id }

module _ (n : ℕ) (q : PriorityQueue) (s : length q.h ≡ suc n) (x : IsIndexed q) where
  take_off-size : length (take_off n q).h ≡ n
  take_off-size = length-take n q.h (omega arith)

  take_off-IsIndexed : IsIndexed (take_off n q)
  take_off-IsIndexed = record {
    sound = λ id i e. ground (
      arith,
      take_off-size,
      lookup-erase (at q.h n).job_id id q.by_id,
      x.sound id i,
      x.complete n,
      at-take n q.h i,
    );
    complete = λ i p. ground (
      arith,
      take_off-size,
      at-take n q.h i,
      lookup-erase (at q.h n).job_id (at (take_off n q).h i).job_id q.by_id,
      x.complete i,
      x.complete n,
    );
  }

  view-take_off :
      (id : String)
      → view (take_off n q) id ≡ (if same (at q.h n).job_id id then none else view q id)
  unfolding view
  view-take_off id = elim (Option-cases (lookup id q.by_id)) [
    | inl e ↦ ground (arith, lookup-erase (at q.h n).job_id id q.by_id)
    | inr (k, e) ↦ ground (
      arith,
      x.sound id k e,
      x.complete n,
      lookup-erase (at q.h n).job_id id q.by_id,
      at-take n q.h k,
    )
  ]

  pub take_off-Removed : IsHeap n q → Removed (at q.h n).job_id q (take_off n q)
  take_off-Removed h = record {
    queue = record {
      indexed = take_off-IsIndexed;
      heap = λ c p r. ground (arith, take_off-size, h c, at-take n q.h c, at-take n q.h (parent c));
    };
    items = view-take_off;
  }

-- The last entry of a queue that was sifted up to it.
pub Sifted-Removed :
    (n : ℕ) (id : String) (q q' : PriorityQueue)
    → length q.h ≡ suc n
    → (at q.h n).job_id ≡ id
    → Sifted n q q'
    → Removed id q (record { h = take n q'.h; by_id = erase id q'.by_id })
Sifted-Removed n id q q' s e sifted =
    let size : length q'.h ≡ suc n = sifted.holds.size ∙ s in
    let last : (at q'.h n).job_id ≡ id = ap (λ it. it.job_id) (sifted.rest n (omega arith)) ∙ e in
    let left = take_off-Removed n q' size sifted.holds.indexed sifted.heap in
    rw (sym last) (record {
      queue = left.queue;
      items = λ j.
          left.items j
          ∙ ap (λ o. if same (at q'.h n).job_id j then none else o) (sifted.holds.items j);
    })

pub Removed-through :
    {id : String} {p q r : PriorityQueue} → Holds p q → Removed id q r → Removed id p r
Removed-through {id} h s = record {
  queue = s.queue;
  items = λ j. s.items j ∙ ap (λ o. if same id j then none else o) (h.items j);
}

pub Sifted-IsQueue : (n : ℕ) {q q' : PriorityQueue} → length q.h ≡ n → Sifted n q q' → IsQueue q'
Sifted-IsQueue n e s = record {
  indexed = s.holds.indexed;
  heap = λ c p r. s.heap c p (omega (arith, s.holds.size));
}
