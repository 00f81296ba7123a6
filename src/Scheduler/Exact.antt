-- ===== src/Scheduler/Exact.antt =====
-- internal/scheduler/deps.go: what `wouldCreateCycle` answers over the jobs that calls have stored.
use mathlib.Core.List.{Memᴰ}
use distsched.Base.{
  ◌≡◌, ◌⊎◌, ◌↔◌, ◌∙◌, inl, inr, refl, sym, ap, subst, true, false, arith, List, [], ◌∷◌, some,
  String, same, elem, lookup, insert, lookup-insert, Bool-cases, Option-cases,
}
use distsched.Api.{Job}
use distsched.Store.{found, not_found}
use distsched.Scheduler.State.{Backend}
use distsched.Scheduler.Replication.{S}
use distsched.Scheduler.Jobs.{Graph, neighbors, add_jobs, has_cycle_from, would_create_cycle}
use distsched.Scheduler.Cycles.{DependsOn, edge, via, no_cycle}
use distsched.Scheduler.Chains.{Chain, link, over, IsAcyclic}
use distsched.Scheduler.Acyclic.{IsListable, no_chain, run-IsAcyclic}
use distsched.Scheduler.Genuine.{Cycle, cycle_found}
use distsched.Scheduler.History.{Call, run, run-Inv, empty-Inv}

joined : {g : Graph} (a m c : String) → DependsOn g a m → DependsOn g m c → DependsOn g a c
joined a m c (edge a' m' e) q = via a' m' c e q
joined a m c (via a' i m' e p) q = via a' i c e (joined i m' c p q)

-- A job of the listing with the ID `k` and the dependencies `ds`.
abbrev Lists : List Job → String → List String → Type 0
Lists js k ds = (j : Job) × Memᴰ j js × (j.id ≡ k) × (j.depends_on ≡ ds)

from_listing :
    (k : String) (ds : List String) (js : List Job) (g : Graph)
    → lookup k (add_jobs js g) ≡ some ds
    → Lists js k ds ⊎ (lookup k g ≡ some ds)
unfolding add_jobs
from_listing k ds [] g e = inr e
from_listing k ds (j ∷ js) g e = elim (from_listing k ds js (insert j.id j.depends_on g) e) [
  | inl (x, m, i, d) ↦ inl (x, Memᴰ.tail m, i, d)
  | inr h ↦ elim (Bool-cases (same j.id k)) [
    | inl here ↦
        inl (j, Memᴰ.head refl, ground arith, ground (arith, lookup-insert j.id k j.depends_on g))
    | inr other ↦ inr (ground (arith, lookup-insert j.id k j.depends_on g))
  ]
]

nowhere : (k : String) (ds : List String) → ¬ (lookup {V = List String} k [] ≡ some ds)
unfolding lookup
nowhere k ds e = ground arith

module _ (b : Backend) (s : S b) (js : List Job) (new_id : String) (deps : List String)
    (listed : b.storage.list_jobs s.store ≡ some js)
    (keyed : (k : String) (j : Job) → b.storage.get_job s.store k ≡ found j → j.id ≡ k) where
  abbrev pub graph : Graph
  graph = insert new_id deps (add_jobs js [])

  neighbors_of :
      (a c : String)
      → same new_id a ≡ false
      → elem c (neighbors graph a) ≡ true
      → (ds : List String) × (lookup a (add_jobs js []) ≡ some ds) × (elem c ds ≡ true)
  unfolding neighbors elem
  neighbors_of a c other e = elim (Option-cases (lookup a (add_jobs js []))) [
    | inl n ↦ absurd (ground (arith, lookup-insert new_id a deps (add_jobs js [])))
    | inr (ds, n) ↦ (ds, n, ground (arith, lookup-insert new_id a deps (add_jobs js [])))
  ]

  -- Every edge of the graph but those of the new job is one between stored jobs.
  stored_by :
      (a c : String)
      → same new_id a ≡ false
      → elem c (neighbors graph a) ≡ true
      → (j : Job) × (b.storage.get_job s.store a ≡ found j) × (elem c j.depends_on ≡ true)
  stored_by a c other e =
      let (ds, n, m) = neighbors_of a c other e in
      elim (from_listing a ds js [] n) [
        | inr h ↦ absurd (nowhere a ds h)
        | inl (j, there, named, same_deps) ↦
            let (k, g) = (b.storage.list_jobs_iff s.store js j listed).0 there in
            let here : k ≡ a = sym (keyed k j g) ∙ named in
            (
              j,
              ap (b.storage.get_job s.store) (sym here) ∙ g,
              subst (λ x. elem c x ≡ true) (sym same_deps) m,
            )
      ]

  abbrev Passes : String → String → Type 0
  Passes a c = ((new_id ≡ a) ⊎ DependsOn graph a new_id) × DependsOn graph new_id c

  same_id : (a : String) → same new_id a ≡ true → new_id ≡ a
  same_id a e = ground arith

  -- A path of the graph is a chain of stored jobs, or passes through the new job.
  either_way : (a c : String) → DependsOn graph a c → Chain b.storage s.store a c ⊎ Passes a c
  either_way a c (edge a' c' e) = elim (Bool-cases (same new_id a')) [
    | inl here ↦
        let h = same_id a' here in
        inr (inl h, edge new_id c' (subst (λ x. elem c' (neighbors graph x) ≡ true) (sym h) e))
    | inr other ↦ let (j, g, m) = stored_by a' c' other e in inl (link a' c' j g m)
  ]
  either_way a c (via a' i c' e p) = elim (Bool-cases (same new_id a')) [
    | inl here ↦
        let h = same_id a' here in
        inr (inl h, via new_id i c' (subst (λ x. elem i (neighbors graph x) ≡ true) (sym h) e) p)
    | inr other ↦ elim (either_way i c' p) [
      | inl q ↦ let (j, g, m) = stored_by a' i other e in inl (over a' i c' j g m q)
      | inr (inl at_i, r) ↦
          inr
            (inr (edge a' new_id (subst (λ x. elem x (neighbors graph a') ≡ true) (sym at_i) e)), r)
      | inr (inr q, r) ↦ inr (inr (via a' i new_id e q), r)
    ]
  ]

  -- A cycle of the graph over an acyclic store passes through the new job.
  on_new : IsAcyclic b.storage s.store → Cycle graph → DependsOn graph new_id new_id
  on_new acyclic (x, p) = elim (either_way x x p) [
    | inl q ↦ absurd (acyclic x q)
    | inr (inl here, r) ↦ subst (DependsOn graph new_id) (sym here) r
    | inr (inr q, r) ↦ joined new_id x new_id r q
  ]

  searched : would_create_cycle b new_id deps s ≡ has_cycle_from graph new_id
  unfolding would_create_cycle
  searched = rw (listed, would_create_cycle) refl

  pub search_exact :
      IsAcyclic b.storage s.store
      → (would_create_cycle b new_id deps s ≡ true) ↔ DependsOn graph new_id new_id
  search_exact acyclic = (
    λ h. on_new acyclic (cycle_found graph new_id (sym searched ∙ h)),
    λ p. elim (Bool-cases (would_create_cycle b new_id deps s)) [
      | inl e ↦ e
      | inr e ↦ absurd (no_cycle b new_id deps s js listed e p)
    ],
  )

module _ (b : Backend) where
  -- From a store without jobs whose listings go through, after any sequence of `Call`s, with writes
  -- that fail or not: the search over the stored jobs and a job with some dependencies reports a cycle
  -- exactly where that job would depend on itself, at once or over others.
  pub cycle_exact :
      (cs : List Call) (s : S b) (js : List Job) (new_id : String) (deps : List String)
      → ((id : String) → b.storage.get_job s.store id ≡ not_found)
      → IsListable b
      → b.storage.list_jobs (run b cs s).store ≡ some js
      → (would_create_cycle b new_id deps (run b cs s) ≡ true)
        ↔ DependsOn (insert new_id deps (add_jobs js [])) new_id new_id
  cycle_exact cs s js new_id deps none_yet all listed =
      let i = empty-Inv b s none_yet in
      search_exact b (run b cs s) js new_id deps listed (run-Inv b cs s i).keyed
        (run-IsAcyclic b cs s i all (λ k. no_chain b s.store k k none_yet))
