-- ===== src/Queue/Waiting.antt =====
-- internal/queue/queue.go: what the queue promises, as a map from the waiting jobs' IDs to items.
use distsched.Base.{
  ℕ, ◌≡◌, ◌≢◌, Bool, true, false, Option, none, some, String, arith, refl, if◌then◌else◌, lookup,
  same,
}
use distsched.Queue.{Item, PriorityQueue, less}
use distsched.Queue.Index.{view}

-- What the queue promises: a map of the waiting jobs.
abbrev pub Waiting : Type 0
Waiting = String → Option Item

abbrev pub waits : Waiting → String → Bool
waits m id = elim (m id) [ none ↦ false | some _ ↦ true ]

abbrev pub with_item : Item → Waiting → Waiting
with_item it m j = if same it.job_id j then elim (m j) [ none ↦ some it | some x ↦ some x ] else m j

abbrev pub without_item : String → Waiting → Waiting
without_item id m j = if same id j then none else m j

-- `id` waits in `m`, and goes before every other job that waits.
pub record IsNext (m : Waiting) (id : String) : Type 0 where
  pub item : Item
  pub waiting : m id ≡ some item
  pub first : (j : String) (y : Item) → m j ≡ some y → id ≢ j → less item y ≡ true

-- What `Pop` may do to the map.
pub data Popped (m m' : Waiting) : Option String → Type 0 where
  nothing : ((j : String) → m j ≡ none) → m' ≡ m → Popped m m' none
  next : (id : String) → IsNext m id → m' ≡ without_item id m → Popped m m' (some id)

pub funext : {f g : Waiting} → ((j : String) → f j ≡ g j) → f ≡ g
funext h = λ i j. h j i

pub waits-none :
    (q : PriorityQueue) (id : String) → lookup id q.by_id ≡ none → waits (view q) id ≡ false
unfolding view
waits-none q id e = rw (e, waits, view) refl

pub waits-some :
    (q : PriorityQueue) (id : String) (i : ℕ)
    → lookup id q.by_id ≡ some i
    → waits (view q) id ≡ true
unfolding view
waits-some q id i e = rw (e, waits, view) refl

pub view-new :
    (it : Item) (q : PriorityQueue) (j : String)
    → lookup it.job_id q.by_id ≡ none
    → (if same it.job_id j then some it else view q j) ≡ with_item it (view q) j
unfolding view
view-new it q j e = ground arith

pub view-old :
    (it : Item) (q : PriorityQueue) (k : ℕ) (j : String)
    → lookup it.job_id q.by_id ≡ some k
    → view q j ≡ with_item it (view q) j
unfolding view
view-old it q k j e = ground arith

pub view-absent :
    (id : String) (q : PriorityQueue) (j : String)
    → lookup id q.by_id ≡ none
    → view q j ≡ without_item id (view q) j
unfolding view
view-absent id q j e = ground arith
