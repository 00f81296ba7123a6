-- ===== src/Scheduler/Indexes.antt =====
-- internal/scheduler: the jobs that the reverse index names as dependents.
use distsched.Base.{
  ◌≡◌, inl, inr, true, arith, List, [], ◌∷◌, ◌++◌, String, same, elem, add, without, lookup, insert,
  Bool-cases,
}
use distsched.Scheduler.Deps.{Index, set_of, add_edges, drop_dependent}

-- Each of the second is among the first.
abbrev pub Within : List String → List String → Type 0
Within ids xs = (k : String) → elem k xs ≡ true → elem k ids ≡ true

-- Each dependent in the index is among the IDs.
abbrev pub Indexes : List String → Index → Type 0
Indexes ids [] = Unit {0}
Indexes ids ((d, xs) ∷ m) = Within ids xs × Indexes ids m

pub Within-lookup :
    (ids : List String) (d : String) (m : Index) → Indexes ids m → Within ids (set_of (lookup d m))
unfolding lookup elem
Within-lookup ids d [] h k e = absurd (ground arith)
Within-lookup ids d ((i, xs) ∷ m) h k e = elim (Bool-cases (same i d)) [
  | inl t ↦ h.0 k (rw t at e)
  | inr t ↦ Within-lookup ids d m h.1 k (rw t at e)
]

from_without : (k x : String) (ys : List String) → elem k (without x ys) ≡ true → elem k ys ≡ true
unfolding without elem
from_without k x [] h = h
from_without k x (y ∷ ys) h = ground (arith, from_without k x ys)

Within-without :
    (ids : List String) (x : String) (xs : List String) → Within ids xs → Within ids (without x xs)
Within-without ids x xs h k e = h k (from_without k x xs e)

left_out :
    (ids : List String) (d : String) (xs : List String) (rest : Index)
    → Within ids xs
    → Indexes ids rest
    → Indexes ids (elim xs as (λ x. Index) [ [] ↦ rest | y ∷ ys ↦ (d, y ∷ ys) ∷ rest ])
left_out ids d [] rest h g = g
left_out ids d (x ∷ xs) rest h g = (h, g)

pub Indexes-drop_dependent :
    (ids : List String) (id : String) (m : Index)
    → Indexes ids m
    → Indexes ids (drop_dependent id m)
unfolding drop_dependent
Indexes-drop_dependent ids id [] h = tt
Indexes-drop_dependent ids id ((d, xs) ∷ m) h =
    left_out ids d (without id xs) (drop_dependent id m) (Within-without ids id xs h.0)
      (Indexes-drop_dependent ids id m h.1)

pub first_elem : (x : String) (xs : List String) → elem x (x ∷ xs) ≡ true
unfolding elem
first_elem x xs = ground arith

pub later_elem : (k x : String) (xs : List String) → elem k xs ≡ true → elem k (x ∷ xs) ≡ true
unfolding elem
later_elem k x xs h = ground arith

pub Within-append :
    (ids xs ys : List String) → Within ids xs → Within ids ys → Within ids (xs ++ ys)
unfolding elem
Within-append ids [] ys h g k e = g k e
Within-append ids (x ∷ xs) ys h g k e = elim (Bool-cases (same x k)) [
  | inl t ↦ h k (rw t)
  | inr t ↦ Within-append ids xs ys (λ i q. h i (later_elem i x xs q)) g k (rw t at e)
]

Indexes-insert :
    (ids : List String) (d : String) (xs : List String) (m : Index)
    → Within ids xs
    → Indexes ids m
    → Indexes ids (insert d xs m)
unfolding insert
Indexes-insert ids d xs [] h g = (h, tt)
Indexes-insert ids d xs ((i, ys) ∷ m) h g = elim (Bool-cases (same i d)) [
  | inl t ↦ rw t (h, g.1)
  | inr t ↦ rw t (g.0, Indexes-insert ids d xs m h g.1)
]

add-Within :
    (ids : List String) (x : String) (xs : List String)
    → elem x ids ≡ true
    → Within ids xs
    → Within ids (add x xs)
unfolding add elem
add-Within ids x xs h g k e = ground (arith, g k)

pub Indexes-add_edges :
    (ids : List String) (id : String) (ds : List String) (m : Index)
    → elem id ids ≡ true
    → Indexes ids m
    → Indexes ids (add_edges id ds m)
unfolding add_edges
Indexes-add_edges ids id [] m h g = g
Indexes-add_edges ids id (d ∷ ds) m h g =
    Indexes-add_edges ids id ds _ h
      (Indexes-insert ids d _ m (add-Within ids id _ h (Within-lookup ids d m g)) g)

pub Indexes-grown :
    (ids : List String) (x : String) (m : Index) → Indexes ids m → Indexes (x ∷ ids) m
Indexes-grown ids x [] h = tt
Indexes-grown ids x ((d, ys) ∷ m) h =
    (λ k e. later_elem k x ids (h.0 k e), Indexes-grown ids x m h.1)
