-- ===== src/Queue/Sift.antt =====
-- internal/queue/queue.go: `heap.Remove` puts the last entry in the place of another, from where it
-- goes down or up.
use distsched.Base.{
  ℕ, suc, ◌+◌, ◌≤◌, ◌<◌, ◌≡◌, ◌≢◌, inl, inr, true, false, ◌&&◌, arith, length, ltb, subst,
  if◌then◌else◌, Bool-cases,
}
use distsched.Queue.{PriorityQueue, at, less, up, down, swap}
use distsched.Queue.Order.{less_asym, less_trans}
use distsched.Queue.Length.{length-swap}
use distsched.Queue.Index.{IsIndexed, swap-Holds, at-swap}
use distsched.Queue.Heap.{parent, IsHeap, IsBridged, UpInv, Sifted, up_restores}
use distsched.Queue.Down.{down_restores, down_still}

-- Only the edges at `i` may be out of order.
pub record Loose (n : ℕ) (q : PriorityQueue) (i : ℕ) : Type 0 where
  pub inside : i < n
  pub within : n ≤ length q.h
  pub edges :
      (c : ℕ) → 0 < c → c < n → c ≢ i → parent c ≢ i → less (at q.h c) (at q.h (parent c)) ≡ false
  pub bridged : IsBridged n q i

-- The heart of `heap.Remove`.
abbrev pub sift : ℕ → ℕ → PriorityQueue → PriorityQueue
sift n i q = let (q1, k) = down n i n q in if ltb i k then q1 else up (i + 1) i q1

module _ (n i : ℕ) (q : PriorityQueue) (x : IsIndexed q) (v : Loose n q i) where
  sift_up : 0 < i → less (at q.h i) (at q.h (parent i)) ≡ true → Sifted n q (sift n i q)
  sift_up pos above =
      let still = down_still n i n q (λ c p r e. ground (
        arith,
        v.bridged c p r e pos,
        less_asym (at q.h i) (at q.h (parent i)) above,
        less_trans (at q.h i) (at q.h (parent i)) (at q.h c),
      )) in
      let loose : UpInv n q i = record {
        inside = v.inside;
        within = v.within;
        edges = λ c p r t. ground (
          arith,
          v.edges c,
          v.bridged c,
          less_asym (at q.h i) (at q.h (parent i)) above,
          less_trans (at q.h i) (at q.h (parent i)) (at q.h c),
        );
        bridged = v.bridged;
      } in
      let here : ltb i i ≡ false = ground arith in
      rw (still, here) (up_restores (i + 1) n i q (omega arith) x loose)

  sift_down : (0 < i → less (at q.h i) (at q.h (parent i)) ≡ false) → Sifted n q (sift n i q)
  sift_down below =
      let s = down_restores n i n q (omega arith) x (record {
        within = v.within;
        edges = λ c p r t. ground (arith, v.edges c, below);
        bridged = v.bridged;
      }) in
      let r = down n i n q in
      elim s.place [
        | inl far ↦ let moved : ltb i r.1 ≡ true = ground arith in rw (moved) s.sifted
        | inr (k, same_queue) ↦
            let stayed : ltb i r.1 ≡ false = ground arith in
            let h : IsHeap n q = subst (λ p. IsHeap n p) same_queue s.sifted.heap in
            rw (stayed, same_queue)
              (up_restores (i + 1) n i q (omega arith) x (record {
                inside = v.inside;
                within = v.within;
                edges = λ c p r t. h c p r;
                bridged = v.bridged;
              }))
      ]

  -- `Remove` of the heap restores the order, whichever way the entry has to go.
  pub sift_restores : Sifted n q (sift n i q)
  sift_restores = elim (Bool-cases (ltb 0 i && less (at q.h i) (at q.h (parent i)))) [
    | inl e ↦ sift_up (ground arith) (ground arith)
    | inr e ↦ sift_down (λ pos. ground arith)
  ]

-- The last entry in the place of the entry at `i`.
pub swap-Loose :
    (n i : ℕ) (q : PriorityQueue)
    → length q.h ≡ suc n
    → i < n
    → IsHeap (suc n) q
    → Loose n (swap i n q) i
swap-Loose n i q s p h =
    let put = at-swap i n q (omega arith) (omega arith) in
    record {
      inside = p;
      within = omega (arith, length-swap i n q);
      edges = λ c r t u w. ground (arith, put c, put (parent c), h c);
      bridged = λ c r t u w. ground (
        arith,
        put c,
        put (parent i),
        h c,
        h i,
        less_trans (at q.h (parent i)) (at q.h i) (at q.h c),
      );
    }

pub sift-swap :
    (n i : ℕ) (q : PriorityQueue)
    → length q.h ≡ suc n
    → i < n
    → IsIndexed q
    → IsHeap (suc n) q
    → Sifted n (swap i n q) (sift n i (swap i n q))
sift-swap n i q s p x h =
    sift_restores n i (swap i n q) (swap-Holds i n q (omega arith) (omega arith) x).indexed
      (swap-Loose n i q s p h)
