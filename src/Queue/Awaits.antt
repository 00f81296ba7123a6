-- ===== src/Queue/Awaits.antt =====
-- internal/queue/queue.go: whether a job still waits after an operation.
use distsched.Base.{
  ◌≡◌, refl, ap, ◌∙◌, true, false, Option, none, some, Bool, String, ℤ, same, arith, if◌then◌else◌,
}
use distsched.Api.{Time}
use distsched.Queue.{Item, PriorityQueue, push, pop, remove}
use distsched.Queue.Ends.{IsQueue}
use distsched.Queue.Index.{view}
use distsched.Queue.Waiting.{Waiting, waits, with_item, without_item, Popped, nothing, next}
use distsched.Queue.Refines.{push_refines, pop_refines, remove_refines}

kept_if :
    (t : Bool) (o : Option Item) (it : Item)
    → elim o as (λ x. Bool) [ none ↦ false | some _ ↦ true ] ≡ true
    → elim (if t then elim o as (λ x. Option Item) [ none ↦ some it | some x ↦ some x ] else o)
        as (λ x. Bool) [ none ↦ false | some _ ↦ true ]
      ≡ true
kept_if true none it h = refl
kept_if true (some x) it h = refl
kept_if false o it h = h

with_kept :
    (it : Item) (m : Waiting) (k : String) → waits m k ≡ true → waits (with_item it m) k ≡ true
with_kept it m k h = kept_if (same it.job_id k) (m k) it h

added_if :
    (t : Bool) (o : Option Item) (it : Item)
    → t ≡ true
    → elim (if t then elim o as (λ x. Option Item) [ none ↦ some it | some x ↦ some x ] else o)
        as (λ x. Bool) [ none ↦ false | some _ ↦ true ]
      ≡ true
added_if true none it h = refl
added_if true (some x) it h = refl
added_if false o it h = absurd (ground arith)

with_self :
    (it : Item) (m : Waiting) (k : String)
    → same it.job_id k ≡ true
    → waits (with_item it m) k ≡ true
with_self it m k e = added_if (same it.job_id k) (m k) it e

without_if :
    (t : Bool) (o : Option Item)
    → t ≡ false
    → elim o as (λ x. Bool) [ none ↦ false | some _ ↦ true ] ≡ true
    → elim (if t then none else o) as (λ x. Bool) [ none ↦ false | some _ ↦ true ] ≡ true
without_if true o e h = absurd (ground arith)
without_if false o e h = h

without_kept :
    (id k : String) (m : Waiting)
    → same id k ≡ false
    → waits m k ≡ true
    → waits (without_item id m) k ≡ true
without_kept id k m o h = without_if (same id k) (m k) o h

pub waits-push :
    (id k : String) (p : ℤ) (t : Time) (q : PriorityQueue)
    → IsQueue q
    → waits (view q) k ≡ true
    → waits (view (push id p t q).0) k ≡ true
waits-push id k p t q v h =
    let e = (push_refines id p t q v).1 in
    ap (λ m. waits m k) e
    ∙ with_kept (record { job_id = id; priority = p; created_at = t }) (view q) k h

pub waits-push_self :
    (id k : String) (p : ℤ) (t : Time) (q : PriorityQueue)
    → IsQueue q
    → same id k ≡ true
    → waits (view (push id p t q).0) k ≡ true
waits-push_self id k p t q v h =
    let e = (push_refines id p t q v).1 in
    ap (λ m. waits m k) e
    ∙ with_self (record { job_id = id; priority = p; created_at = t }) (view q) k h

pub waits-remove :
    (id k : String) (q : PriorityQueue)
    → IsQueue q
    → same id k ≡ false
    → waits (view q) k ≡ true
    → waits (view (remove id q).0) k ≡ true
waits-remove id k q v o h =
    ap (λ m. waits m k) (remove_refines id q v).1 ∙ without_kept id k (view q) o h

Popped-waits :
    (m m' : Waiting) (o : Option String) (k : String)
    → Popped m m' o
    → waits m k ≡ true
    → ((id : String) → o ≡ some id → same id k ≡ false)
    → waits m' k ≡ true
Popped-waits m m' o k (nothing all same_map) h other = ap (λ x. waits x k) same_map ∙ h
Popped-waits m m' o k (next id first taken) h other =
    let apart = other id refl in ap (λ x. waits x k) taken ∙ without_kept id k m apart h

pub waits-pop :
    (k : String) (q : PriorityQueue)
    → IsQueue q
    → waits (view q) k ≡ true
    → ((id : String) → (pop q).1 ≡ some id → same id k ≡ false)
    → waits (view (pop q).0) k ≡ true
waits-pop k q v h other =
    Popped-waits (view q) (view (pop q).0) (pop q).1 k (pop_refines q v).1 h other
