-- ===== src/Queue.antt =====
-- internal/queue/queue.go: the ready queue, and container/heap as the queue uses it. `by_id` maps a
-- job ID to the index field of its item, which the item shares with the heap slice.
pub mod Length
pub mod Order
pub mod Index
pub mod Heap
pub mod Down
pub mod Sift
pub mod Ends
pub mod Waiting
pub mod Refines
pub mod Awaits
use distsched.Base.{
  ℕ, suc, zero, ◌+◌, ◌-◌, ◌*◌, ◌/◌, ℤ, Bool, true, false, not, ◌&&◌, ◌||◌, List, [], ◌∷◌, ◌++◌,
  Option, none, some, String, length, ltb, leb, ◌==◌, ltb_ℤ, eqb_ℤ, if◌then◌else◌, Dict, lookup,
  insert, erase, get_elem?, set, take, str_lt,
}
use distsched.Api.{Time}

pub record Item : Type 0 where
  pub job_id : String
  pub priority : ℤ
  pub created_at : Time

unfoldable pub less : Item → Item → Bool
less a b =
    if not (eqb_ℤ a.priority b.priority)
    then ltb_ℤ b.priority a.priority
    else if not (eqb_ℤ a.created_at b.created_at)
    then ltb_ℤ a.created_at b.created_at
    else str_lt a.job_id b.job_id

pub record PriorityQueue : Type 0 where
  pub h : List Item
  pub by_id : Dict ℕ

unfoldable pub empty : PriorityQueue
empty = record { h = []; by_id = [] }

abbrev pub blank : Item
blank = record { job_id = ""; priority = ℤ.pos 0; created_at = ℤ.pos 0 }

-- `h[i]`; every caller's index is in range.
abbrev pub at : List Item → ℕ → Item
at h i = elim (get_elem? h i) [ none ↦ blank | some x ↦ x ]

-- `Swap`, which keeps the two index fields.
unfoldable pub swap : ℕ → ℕ → PriorityQueue → PriorityQueue
swap i j q =
    let a = at q.h i in
    let b = at q.h j in
    record { h = set (set q.h i b) j a; by_id = insert a.job_id j (insert b.job_id i q.by_id) }

-- The loop of `heap.up`. The index halves, so it ends within `j + 1` rounds.
unfoldable pub up : ℕ → ℕ → PriorityQueue → PriorityQueue
up zero j q = q
up (suc fuel) j q =
    let i = (j - 1) / 2 in
    let rest = up fuel i (swap i j q) in
    if i == j || not (less (at q.h j) (at q.h i)) then q else rest

-- The smaller of the children of `i` among the first `n`, where the left one is there.
unfoldable pub child : List Item → ℕ → ℕ → ℕ
child h i n =
    let j1 = 2 * i + 1 in if ltb (j1 + 1) n && less (at h (j1 + 1)) (at h j1) then j1 + 1 else j1

-- The loop of `heap.down`, with the index where it ends. The index grows, so it ends within `n`
-- rounds.
unfoldable pub down : ℕ → ℕ → ℕ → PriorityQueue → PriorityQueue × ℕ
down zero i n q = (q, i)
down (suc fuel) i n q =
    let j = child q.h i n in
    let rest = down fuel j n (swap i j q) in
    if leb n (2 * i + 1) || not (less (at q.h j) (at q.h i)) then (q, i) else rest

-- `innerHeap.Push`, then `up`.
unfoldable pub heap_push : Item → PriorityQueue → PriorityQueue
heap_push it q =
    let n = length q.h in
    up (n + 1) n (record { h = q.h ++ it ∷ []; by_id = insert it.job_id n q.by_id })

-- `innerHeap.Pop` of the last entry.
unfoldable pub drop_last : PriorityQueue → PriorityQueue × Item
drop_last q = let n = length q.h - 1 in (record q { h = take n q.h }, at q.h n)

unfoldable pub heap_pop : PriorityQueue → PriorityQueue × Item
heap_pop q = let n = length q.h - 1 in drop_last (down n 0 n (swap 0 n q)).0

unfoldable pub heap_remove : ℕ → PriorityQueue → PriorityQueue × Item
heap_remove i q =
    let n = length q.h - 1 in
    let (q1, k) = down n i n (swap i n q) in
    drop_last (if n == i then q else if ltb i k then q1 else up (i + 1) i q1)

unfoldable pub push : String → ℤ → Time → PriorityQueue → PriorityQueue × Bool
push id priority created_at q = elim (lookup id q.by_id) [
  | some _ ↦ (q, false)
  | none ↦
      (heap_push (record { job_id = id; priority = priority; created_at = created_at }) q, true)
]

unfoldable pub pop : PriorityQueue → PriorityQueue × Option String
pop q = elim q.h [
  | [] ↦ (q, none)
  | _ ∷ _ ↦
      (let (q1, it) = heap_pop q in
        (record q1 { by_id = erase it.job_id q1.by_id }, some it.job_id))
]

unfoldable pub remove : String → PriorityQueue → PriorityQueue × Bool
remove id q = elim (lookup id q.by_id) [
  | none ↦ (q, false)
  | some i ↦ (let q1 = (heap_remove i q).0 in (record q1 { by_id = erase id q1.by_id }, true))
]

unfoldable pub contains : String → PriorityQueue → Bool
contains id q = elim (lookup id q.by_id) [ none ↦ false | some _ ↦ true ]

unfoldable pub size : PriorityQueue → ℕ
size q = length q.h

unfoldable pub clear : PriorityQueue → PriorityQueue
clear q = record { h = []; by_id = [] }
