-- ===== src/Queue/Refines.antt =====
-- internal/queue/queue.go: the queue as a map from job IDs to items, and what each operation does
-- to the map.
use distsched.Base.{
  ℕ, suc, ◌+◌, ◌-◌, ◌≤◌, ◌≡◌, ap, ◌∙◌, inl, inr, ℤ, not, true, false, List, [], ◌∷◌, none, some,
  String, Dict, arith, length, refl, ◌==◌, erase, lookup, Option-cases, Bool-cases,
}
use distsched.Api.{Time}
use distsched.Queue
use distsched.Queue.{
  Item, PriorityQueue, at, down, swap, drop_last, heap_push, heap_pop, heap_remove, push, pop,
  remove,
}
use distsched.Queue.Order.{less_total}
use distsched.Queue.Index.{Holds-refl, view, swap-Holds, at-swap}
use distsched.Queue.Heap.{parent, Sifted, up_restores, root_least}
use distsched.Queue.Down.{down_restores}
use distsched.Queue.Sift.{sift, sift-swap}
use distsched.Queue.Waiting.{
  waits, with_item, without_item, IsNext, Popped, nothing, next, funext, waits-none, waits-some,
  view-new, view-old, view-absent,
}
use distsched.Queue.Ends.{
  IsQueue, Sifted-Removed, Removed-through, Sifted-IsQueue, length-put_last, put_last,
  put_last-IsIndexed, view-put_last, put_last-UpInv, Removed,
}

heap_push-Sifted :
    (it : Item) (q : PriorityQueue)
    → IsQueue q
    → lookup it.job_id q.by_id ≡ none
    → Sifted (suc (length q.h)) (put_last it q) (heap_push it q)
unfolding heap_push
heap_push-Sifted it q v new =
    up_restores (length q.h + 1) (suc (length q.h)) (length q.h) (put_last it q) (omega arith)
      (put_last-IsIndexed it q v.indexed new) (put_last-UpInv it q v.indexed new v.heap)

module _ (id : String) (p : ℤ) (t : Time) (q : PriorityQueue) where
  push-new :
      lookup id q.by_id ≡ none
      → push id p t q ≡ (heap_push (record { job_id = id; priority = p; created_at = t }) q, true)
  unfolding push
  push-new e = rw (e, push) refl

  push-old : (i : ℕ) → lookup id q.by_id ≡ some i → push id p t q ≡ (q, false)
  unfolding push
  push-old i e = rw (e, push) refl

module _ (id : String) (q : PriorityQueue) where
  remove-absent : lookup id q.by_id ≡ none → remove id q ≡ (q, false)
  unfolding remove
  remove-absent e = rw (e, remove) refl

  remove-there :
      (i : ℕ)
      → lookup id q.by_id ≡ some i
      → remove id q
        ≡ (let q1 = (heap_remove i q).0 in (record q1 { by_id = erase id q1.by_id }, true))
  unfolding remove
  remove-there i e = rw (e, remove) refl

-- On a queue whose slice is in the heap order and whose index map is right, `Push` keeps both true,
-- adds the item for its job unless that job waits already, leaves every other job's item as it was,
-- and returns true exactly if the job did not wait.
pub push_refines :
    (id : String) (p : ℤ) (t : Time) (q : PriorityQueue)
    → IsQueue q
    → IsQueue (push id p t q).0
      × (view (push id p t q).0
          ≡ with_item (record { job_id = id; priority = p; created_at = t }) (view q))
      × ((push id p t q).1 ≡ not (waits (view q) id))
push_refines id p t q v =
    let it : Item = record { job_id = id; priority = p; created_at = t } in
    elim (Option-cases (lookup id q.by_id)) [
      | inl e ↦
          let s = heap_push-Sifted it q v e in
          rw (push-new id p t q e, waits-none q id e)
            (
              Sifted-IsQueue (suc (length q.h)) (length-put_last it q v.indexed e) s,
              funext (λ j. s.holds.items j ∙ view-put_last it q v.indexed e j ∙ view-new it q j e),
              refl,
            )
      | inr (k, e) ↦
          rw (push-old id p t q k e, waits-some q id k e)
            (v, funext (λ j. view-old it q k j e), refl)
    ]

module _ (n : ℕ) (q : PriorityQueue) (s : length q.h ≡ suc n) (v : IsQueue q) where
  root-IsNext : IsNext (view q) (at q.h 0).job_id
  unfolding view
  root-IsNext = record {
    item = at q.h 0;
    waiting = ground (arith, v.indexed.complete 0);
    first = λ j y e d. elim (Option-cases (lookup j q.by_id)) [
      | inl none_there ↦ absurd (ground arith)
      | inr (k, there) ↦
          let (inside, named) = v.indexed.sound j k there in
          let it : y ≡ at q.h k = ground arith in
          rw (it) (
            less_total (at q.h 0) (at q.h k) (λ same_id. d (same_id ∙ named))
              (root_least (length q.h) q k v.heap inside))
    ];
  }

  pop-Sifted : Sifted n (swap 0 n q) (down n 0 n (swap 0 n q)).0
  pop-Sifted =
      let put = at-swap 0 n q (omega arith) (omega arith) in
      let x = swap-Holds 0 n q (omega arith) (omega arith) v.indexed in
      (down_restores n 0 n (swap 0 n q) (omega arith) x.indexed (record {
        within = omega (arith, x.size);
        edges = λ c p r t. ground (arith, put c, put (parent c), v.heap c);
        bridged = λ c p r t u. absurd (omega arith);
      })).sifted

  pop-Removed :
      let q1 = heap_pop q in
      (q1.1.job_id ≡ (at q.h 0).job_id)
      × Removed (at q.h 0).job_id q (record q1.0 { by_id = erase (at q.h 0).job_id q1.0.by_id })
  unfolding heap_pop drop_last
  pop-Removed =
      let q2 = (down n 0 n (swap 0 n q)).0 in
      let sifted = pop-Sifted in
      let x = swap-Holds 0 n q (omega arith) (omega arith) v.indexed in
      let moved : at (swap 0 n q).h n ≡ at q.h 0 =
        ground (arith, at-swap 0 n q (omega arith) (omega arith) n) in
      let last : at q2.h n ≡ at q.h 0 = sifted.rest n (omega arith) ∙ moved in
      let there : length q.h - 1 ≡ n = omega arith in
      let size : length q2.h - 1 ≡ n = omega (arith, s, sifted.holds.size, x.size) in
      let left =
        Sifted-Removed n (at q.h 0).job_id (swap 0 n q) q2 (x.size ∙ s) (ap (λ it. it.job_id) moved)
          sifted in
      rw (there, size) (ap (λ it. it.job_id) last, Removed-through x left)

pop_of :
    (h : List Item) (d : Dict ℕ)
    → let q : PriorityQueue = record { h = h; by_id = d } in
      IsQueue q → IsQueue (pop q).0 × Popped (view q) (view (pop q).0) (pop q).1
unfolding pop view
pop_of [] d v = (
  v,
  nothing
      (λ j. elim (Option-cases (lookup j d)) [
        | inl e ↦ rw (e, view) refl
        | inr (k, e) ↦ absurd (omega (arith, (v.indexed.sound j k e).0))
      ])
      refl,
)
pop_of (y ∷ ys) d v =
    let q : PriorityQueue = record { h = y ∷ ys; by_id = d } in
    let (id, r) = pop-Removed (length ys) q refl v in
    rw (id) (r.queue, next (at q.h 0).job_id (root-IsNext (length ys) q refl v) (funext r.items))

-- On a queue whose slice is in the heap order and whose index map is right, `Pop` keeps both true.
-- It returns nothing and changes nothing if no job waits; else it returns a waiting job that comes
-- strictly before every other waiting job by priority, then age, then ID, and takes only it away.
pub pop_refines :
    (q : PriorityQueue) → IsQueue q → IsQueue (pop q).0 × Popped (view q) (view (pop q).0) (pop q).1
pop_refines q v = pop_of q.h q.by_id v

heap_remove-Removed :
    (n i : ℕ) (id : String) (q : PriorityQueue)
    → IsQueue q
    → length q.h ≡ suc n
    → i ≤ n
    → (at q.h i).job_id ≡ id
    → let q1 = (heap_remove i q).0 in Removed id q (record q1 { by_id = erase id q1.by_id })
unfolding heap_remove drop_last
heap_remove-Removed n i id q v s p named =
    let there : length q.h - 1 ≡ n = omega arith in
    elim (Bool-cases (n == i)) [
      | inl e ↦
          let q_sifted : Sifted n q q = record {
            holds = Holds-refl q v.indexed;
            heap = λ c r t. v.heap c r (omega arith);
            rest = λ c r. refl;
          } in
          rw (there, e, there) (Sifted-Removed n id q q s (ground (arith, named)) q_sifted)
      | inr e ↦
          let x = swap-Holds i n q (omega arith) (omega arith) v.indexed in
          let r = sift n i (swap i n q) in
          let sifted : Sifted n (swap i n q) r =
            sift-swap n i q s (ground arith) v.indexed (λ c y z. v.heap c y (omega arith)) in
          let size : length r.h - 1 ≡ n = omega (arith, s, sifted.holds.size, x.size) in
          let moved : at (swap i n q).h n ≡ at q.h i =
            ground (arith, at-swap i n q (omega arith) (omega arith) n) in
          rw (there, e, size)
            (Removed-through x (
              Sifted-Removed n id (swap i n q) r (x.size ∙ s) (ap (λ it. it.job_id) moved ∙ named)
                sifted))
    ]

-- On a queue whose slice is in the heap order and whose index map is right, `Remove` keeps both true
-- wherever in the slice the entry stands, takes the job's item and no other away, and returns true
-- exactly if the job was waiting.
pub remove_refines :
    (id : String) (q : PriorityQueue)
    → IsQueue q
    → IsQueue (remove id q).0
      × (view (remove id q).0 ≡ without_item id (view q))
      × ((remove id q).1 ≡ waits (view q) id)
remove_refines id q v = elim (Option-cases (lookup id q.by_id)) [
  | inl e ↦
      rw (remove-absent id q e, waits-none q id e) (v, funext (λ j. view-absent id q j e), refl)
  | inr (i, e) ↦
      let (inside, named) = v.indexed.sound id i e in
      let r = heap_remove-Removed (length q.h - 1) i id q v (omega arith) (omega arith) named in
      rw (remove-there id q i e, waits-some q id i e) (r.queue, funext r.items, refl)
]

pub empty-IsQueue : IsQueue Queue.empty
unfolding Queue.empty lookup
empty-IsQueue = record {
  indexed = record {
    sound = λ id i e. absurd (ground arith);
    complete = λ i p. absurd (omega arith);
  };
  heap = λ c p r. absurd (omega arith);
}
