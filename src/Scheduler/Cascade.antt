-- ===== src/Scheduler/Cascade.antt =====
-- internal/scheduler/deps.go: the rounds of the loop of `cancelCascade`.
use distsched.Base.{
  length-without, length-append, ℕ, zero, suc, ◌+◌, ◌≤◌, ◌<◌, ◌≡◌, refl, inl, inr, false, List, [],
  ◌∷◌, ◌++◌, String, arith, length, elem, lookup, Bool-cases, if◌then◌else◌,
}
use distsched.Api.{Time}
use distsched.Scheduler.State.{Backend}
use distsched.Scheduler.Replication.{S, append_repl, put_job}
use distsched.Scheduler.Deps.{
  Index, set_of, drop_dependent, remove_from_index, dependents_of, upstream, cancel_one, cascade,
  edges,
}

-- The edges that lead out of jobs not visited yet.
unfoldable pub open_edges : List String → Index → ℕ
open_edges visited [] = 0
open_edges visited ((d, ids) ∷ m) =
    (if elem d visited then 0 else length ids) + open_edges visited m

open_edges-drop_dependent :
    (visited : List String) (id : String) (m : Index)
    → open_edges visited (drop_dependent id m) ≤ open_edges visited m
unfolding open_edges drop_dependent
open_edges-drop_dependent visited id [] = omega arith
open_edges-drop_dependent visited id ((d, ids) ∷ m) =
    ground (arith, open_edges-drop_dependent visited id m, length-without id ids)

open_edges-fewer :
    (visited : List String) (cur : String) (m : Index)
    → open_edges (cur ∷ visited) m ≤ open_edges visited m
unfolding open_edges elem
open_edges-fewer visited cur [] = omega arith
open_edges-fewer visited cur ((d, ids) ∷ m) = ground (arith, open_edges-fewer visited cur m)

open_edges-visit :
    (visited : List String) (cur : String) (m : Index)
    → elem cur visited ≡ false
    → length (set_of (lookup cur m)) + open_edges (cur ∷ visited) m ≤ open_edges visited m
unfolding open_edges lookup elem
open_edges-visit visited cur [] h = omega arith
open_edges-visit visited cur ((d, ids) ∷ m) h =
    ground (arith, open_edges-visit visited cur m h, open_edges-fewer visited cur m)

-- A round on a job that is new leaves less to do than there was.
shrinks :
    (fuel : ℕ) (cur : String) (work visited : List String) (m m1 : Index)
    → elem cur visited ≡ false
    → m1 ≡ m
    → length (cur ∷ work) + open_edges visited m < suc fuel
    → length (set_of (lookup cur m1) ++ work) + open_edges (cur ∷ visited) (drop_dependent cur m1)
      < fuel
shrinks fuel cur work visited m m1 h e l = rw e (
    omega (
      arith,
      l,
      length-append (set_of (lookup cur m)) work,
      open_edges-visit visited cur m h,
      open_edges-drop_dependent (cur ∷ visited) cur m,
    ))

module _ (b : Backend) where
  open_edges-edges : (m : Index) → open_edges [] m ≡ edges b m
  unfolding open_edges elem
  open_edges-edges [] = refl
  open_edges-edges ((d, ids) ∷ m) = omega (arith, open_edges-edges m)

  cancel_one-rev_index :
      (cur reason : String) (now : Time) (s : S b)
      → (cancel_one b cur reason now s).rev_index ≡ s.rev_index
  unfolding cancel_one put_job append_repl
  cancel_one-rev_index cur reason now s = ground arith

  -- Where the fuel exceeds the work list and the edges that are still to be followed, the loop works
  -- its list off.
  cascade-ends :
      (fuel : ℕ) (work visited : List String) (reason : String) (now : Time) (s : S b)
      → length work + open_edges visited s.rev_index < fuel
      → (cascade b fuel work visited reason now s).1 ≡ []
  unfolding cascade remove_from_index dependents_of
  cascade-ends zero work visited reason now s h = absurd (omega arith)
  cascade-ends (suc fuel) [] visited reason now s h = refl
  cascade-ends (suc fuel) (cur ∷ work) visited reason now s h =
      elim (Bool-cases (elem cur visited)) [
        | inl seen ↦ rw seen (cascade-ends fuel work visited reason now s (omega arith))
        | inr fresh ↦
            let s1 = cancel_one b cur reason now s in
            let next = dependents_of cur s1 in
            rw fresh (
              cascade-ends fuel (next ++ work) (cur ∷ visited) (upstream cur " did not succeed") now
                (remove_from_index cur s1)
                (shrinks fuel cur work visited s.rev_index s1.rev_index fresh
                  (cancel_one-rev_index cur reason now s) h))
      ]

  -- The fuel of `cancel_cascade` is enough: whatever the index, cycles included, the loop ends with
  -- nothing left on its list.
  pub cancel_cascade-ends :
      (id reason : String) (now : Time) (s : S b)
      → (cascade b (edges b s.rev_index + 2) (id ∷ []) [] reason now s).1 ≡ []
  cancel_cascade-ends id reason now s =
      cascade-ends (edges b s.rev_index + 2) (id ∷ []) [] reason now s
        (omega (arith, open_edges-edges s.rev_index))
