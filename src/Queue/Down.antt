-- ===== src/Queue/Down.antt =====
-- internal/queue/queue.go: `heap.down` on the first entries of the slice.
use distsched.Base.{
  ℕ, zero, suc, ◌+◌, ◌*◌, ◌≤◌, ◌<◌, ◌≡◌, ◌≢◌, ◌⊎◌, inl, inr, ◌||◌, not, false, true, arith, length,
  refl, leb, Bool-cases,
}
use distsched.Queue.{PriorityQueue, at, less, swap, child, down}
use distsched.Queue.Order.{less_asym, less_trans}
use distsched.Queue.Length.{length-swap}
use distsched.Queue.Index.{IsIndexed, Holds-refl, at-swap, swap-Holds}
use distsched.Queue.Heap.{parent, IsHeap, IsBridged, Sifted, Sifted-swap}

-- Among the first `n` only the children of `i` may come before their parent.
pub record DownInv (n : ℕ) (q : PriorityQueue) (i : ℕ) : Type 0 where
  pub within : n ≤ length q.h
  pub edges : (c : ℕ) → 0 < c → c < n → parent c ≢ i → less (at q.h c) (at q.h (parent c)) ≡ false
  pub bridged : IsBridged n q i

record IsFirstChild (q : PriorityQueue) (i n m : ℕ) : Type 0 where
  inside : m < n
  place : (m ≡ 2 * i + 1) ⊎ (m ≡ 2 * i + 2)
  least : (c : ℕ) → 0 < c → c < n → parent c ≡ i → less (at q.h c) (at q.h m) ≡ false

child-IsFirstChild :
    (q : PriorityQueue) (i n : ℕ) → 2 * i + 1 < n → IsFirstChild q i n (child q.h i n)
unfolding child
child-IsFirstChild q i n p =
    let l = at q.h (2 * i + 1) in
    let r = at q.h (2 * i + 1 + 1) in
    record {
      inside = ground arith;
      place = ground arith;
      least = λ c s t e. ground (arith, less_asym r l, less_asym l l, less_asym r r);
    }

swap-DownInv :
    (n i m : ℕ) (q : PriorityQueue)
    → i < n
    → DownInv n q i
    → IsFirstChild q i n m
    → less (at q.h m) (at q.h i) ≡ true
    → DownInv n (swap i m q) m
swap-DownInv n i m q hi v s below =
    let hm : m < length q.h = omega (arith, s.inside, v.within) in
    let put = at-swap i m q (omega (arith, v.within)) hm in
    let edge = less_asym (at q.h m) (at q.h i) below in
    record {
      within = omega (arith, v.within, length-swap i m q);
      edges = λ c p r t. ground (
        arith,
        s.place,
        put c,
        put (parent c),
        edge,
        v.edges c,
        v.bridged m,
        s.inside,
        s.least c,
      );
      bridged = λ c p r t u. ground (arith, s.place, put c, put (parent m), v.edges c);
    }

settled :
    (n i : ℕ) (q : PriorityQueue)
    → DownInv n q i
    → (leb n (2 * i + 1) || not (less (at q.h (child q.h i n)) (at q.h i))) ≡ true
    → IsHeap n q
settled n i q v e c p r = elim (Bool-cases (leb n (2 * i + 1))) [
  | inl f ↦ v.edges c p r (λ g. ground arith)
  | inr f ↦
      let s = child-IsFirstChild q i n (ground arith) in
      let m = child q.h i n in
      ground (arith, v.edges c, s.least c p r, less_trans (at q.h i) (at q.h m) (at q.h c))
]

-- What `down` leaves: its entry went further down, or nothing moved.
pub record Sank (n i : ℕ) (q : PriorityQueue) (r : PriorityQueue × ℕ) : Type 0 where
  pub sifted : Sifted n q r.0
  pub place : (i < r.1) ⊎ (r.1 ≡ i) × (r.0 ≡ q)

pub down_restores :
    (fuel i n : ℕ) (q : PriorityQueue)
    → n ≤ i + fuel
    → IsIndexed q
    → DownInv n q i
    → Sank n i q (down fuel i n q)
unfolding down
down_restores zero i n q f x v = record {
  sifted = record {
    holds = Holds-refl q x;
    heap = λ c p r. v.edges c p r (λ e. omega arith);
    rest = λ c p. refl;
  };
  place = inr (refl, refl);
}
down_restores (suc fuel) i n q f x v =
    let j = child q.h i n in
    elim (Bool-cases (leb n (2 * i + 1) || not (less (at q.h j) (at q.h i)))) [
      | inl e ↦
          rw (e, down)
            (record {
              sifted = record {
                holds = Holds-refl q x;
                heap = settled n i q v e;
                rest = λ c p. refl;
              };
              place = inr (refl, refl);
            })
      | inr e ↦
          let s = child-IsFirstChild q i n (ground arith) in
          let hi : i < length q.h = omega (arith, s.inside, v.within, s.place) in
          let hj : j < length q.h = omega (arith, s.inside, v.within) in
          let rest =
            down_restores fuel j n (swap i j q) (omega (arith, s.place))
              (swap-Holds i j q hi hj x).indexed
              (swap-DownInv n i j q (ground (arith, s.inside, s.place)) v s (ground arith)) in
          rw (e, down)
            (record {
              sifted =
                  Sifted-swap n i j q hi hj (omega (arith, s.inside, s.place)) s.inside x
                    rest.sifted;
              place = inl (ground (arith, s.place, rest.place));
            })
    ]

-- `down` leaves an entry whose children do not come before it.
pub down_still :
    (fuel i n : ℕ) (q : PriorityQueue)
    → ((c : ℕ) → 0 < c → c < n → parent c ≡ i → less (at q.h c) (at q.h i) ≡ false)
    → down fuel i n q ≡ (q, i)
unfolding down
down_still zero i n q k = refl
down_still (suc fuel) i n q k = elim (Bool-cases (leb n (2 * i + 1))) [
  | inl e ↦ rw (e, down) refl
  | inr e ↦
      let j = child q.h i n in
      let s = child-IsFirstChild q i n (ground arith) in
      let below : less (at q.h j) (at q.h i) ≡ false =
        k j (omega (arith, s.place)) s.inside (ground (arith, s.place)) in
      rw (e, below, down) refl
]
