-- ===== src/Scheduler/Chains.antt =====
-- internal/scheduler/deps.go: chains of dependencies between stored jobs, and what a write does to them.
use mathlib.Core.List.{Memᴰ}
use mathlib.Core.List.Memᴰ
use distsched.Base.{
  ◌≡◌, ◌⊎◌, inl, inr, refl, sym, subst, ap, ◌∙◌, true, false, arith, List, [], ◌∷◌, some, String,
  same, elem, lookup, insert, lookup-insert,
}
use distsched.Api.{Job}
use distsched.Store.{found}
use distsched.Store.Interface.{Storage}
use distsched.Scheduler.Jobs.{Graph, add_jobs, neighbors}
use distsched.Scheduler.Safe.{Stays}
use distsched.Scheduler.Cycles.{DependsOn, edge, via}

module _ (st : Storage) where
  -- The job under `a` depends on `b`, at once or over other stored jobs.
  pub data Chain (d : st.Db) : String → String → Type 0 where
    link :
        (a b : String) (j : Job)
        → st.get_job d a ≡ found j
        → elem b j.depends_on ≡ true
        → Chain d a b
    over :
        (a b c : String) (j : Job)
        → st.get_job d a ≡ found j
        → elem b j.depends_on ≡ true
        → Chain d b c
        → Chain d a c

  abbrev pub IsAcyclic : st.Db → Type 0
  IsAcyclic d = (k : String) → ¬ Chain d k k

  Stays-Chain : (d d' : st.Db) (a c : String) → Stays st d d' → Chain d' a c → Chain d a c
  Stays-Chain d d' a c s (link a' b' j h e) =
      let (i, g, same_deps) = s a' j h in
      link a' b' i g (subst (λ ds. elem b' ds ≡ true) same_deps e)
  Stays-Chain d d' a c s (over a' b' c' j h e p) =
      let (i, g, same_deps) = s a' j h in
      over a' b' c' i g (subst (λ ds. elem b' ds ≡ true) same_deps e) (Stays-Chain d d' b' c' s p)

  pub Stays-IsAcyclic : (d d' : st.Db) → Stays st d d' → IsAcyclic d → IsAcyclic d'
  Stays-IsAcyclic d d' s acyclic k p = acyclic k (Stays-Chain d d' k k s p)

listed_edge :
    (k : String) (ds : List String) (js : List Job) (g : Graph)
    → ((x : Job) → Memᴰ x js → x.id ≡ k → x.depends_on ≡ ds)
    → ((x : Job) × Memᴰ x js × (x.id ≡ k)) ⊎ (lookup k g ≡ some ds)
    → lookup k (add_jobs js g) ≡ some ds
unfolding add_jobs
listed_edge k ds [] g one (inl (x, m, e)) = absurd (Memᴰ.not-nil m)
listed_edge k ds [] g one (inr h) = h
listed_edge k ds (j ∷ js) g one there =
    listed_edge k ds js (insert j.id j.depends_on g) (λ x m. one x (Memᴰ.tail m))
      (elim there [
        | inl (x, m, e) ↦ elim (Memᴰ.cases_cons m) [
          | inl h ↦
              let here : j.id ≡ k = ap (λ y. y.id) (sym h) ∙ e in
              inr (ground (arith, lookup-insert j.id k j.depends_on g, one j (Memᴰ.head refl) here))
          | inr later ↦ inl (x, later, e)
        ]
        | inr h ↦ inr (ground (arith, lookup-insert j.id k j.depends_on g, one j (Memᴰ.head refl)))
      ])

-- A job is placed in the store `d`, which lists `js`, and gives `d'`.
module _ (st : Storage) (d d' : st.Db) (js : List Job) (new_id : String) (deps : List String)
    (listed : st.list_jobs d ≡ some js)
    (keyed : (k : String) (j : Job) → st.get_job d k ≡ found j → j.id ≡ k)
    (placed : (k : String) (j' : Job)
      → st.get_job d' k ≡ found j'
      → (k ≡ new_id) × (j'.depends_on ≡ deps)
        ⊎ (same new_id k ≡ false) × (st.get_job d k ≡ found j')) where
  abbrev graph : Graph
  graph = insert new_id deps (add_jobs js [])

  new_edge : (b : String) → elem b deps ≡ true → elem b (neighbors graph new_id) ≡ true
  unfolding neighbors
  new_edge b e = ground (arith, lookup-insert new_id new_id deps (add_jobs js []))

  found_one : (i j : Job) → found i ≡ found j → i.depends_on ≡ j.depends_on
  found_one i j e = cc

  stored_edge :
      (a b : String) (j : Job)
      → same new_id a ≡ false
      → st.get_job d a ≡ found j
      → elem b j.depends_on ≡ true
      → elem b (neighbors graph a) ≡ true
  unfolding neighbors
  stored_edge a b j other h e =
      let there = (st.list_jobs_iff d js j listed).1 a h in
      let same_deps : (x : Job) → Memᴰ x js → x.id ≡ a → x.depends_on ≡ j.depends_on = λ x m i.
        let (k, g) = (st.list_jobs_iff d js x listed).0 m in
        let here : k ≡ a = sym (keyed k x g) ∙ i in
        found_one x j (sym g ∙ ap (st.get_job d) here ∙ h) in
      ground (
        arith,
        lookup-insert new_id a deps (add_jobs js []),
        listed_edge a j.depends_on js [] same_deps (inl (j, there, keyed a j h)),
      )

  edge_of :
      (a b : String) (j : Job)
      → st.get_job d' a ≡ found j
      → elem b j.depends_on ≡ true
      → (elem b (neighbors graph a) ≡ true) × ((a ≡ new_id) ⊎ (st.get_job d a ≡ found j))
  edge_of a b j h e = elim (placed a j h) [
    | inl (here, same_deps) ↦
        let last = new_edge b (subst (λ ds. elem b ds ≡ true) same_deps e) in
        (subst (λ x. elem b (neighbors graph x) ≡ true) (sym here) last, inl here)
    | inr (other, old) ↦ (stored_edge a b j other old e, inr old)
  ]

  -- Either the chain was there before, or it goes through the new job.
  abbrev Through : String → String → Type 0
  Through a c = ((a ≡ new_id) ⊎ DependsOn graph a new_id) × DependsOn graph new_id c

  Chain-DependsOn : (a c : String) → Chain st d' a c → DependsOn graph a c
  Chain-DependsOn a c (link a' b' j h e) = edge a' b' (edge_of a' b' j h e).0
  Chain-DependsOn a c (over a' b' c' j h e p) =
      via a' b' c' (edge_of a' b' j h e).0 (Chain-DependsOn b' c' p)

  first_or_old :
      (a c : String) (j : Job)
      → (a ≡ new_id) ⊎ (st.get_job d a ≡ found j)
      → DependsOn graph a c
      → (st.get_job d a ≡ found j → Chain st d a c)
      → Chain st d a c ⊎ Through a c
  first_or_old a c j (inl here) p old = inr (inl here, subst (λ x. DependsOn graph x c) here p)
  first_or_old a c j (inr h) p old = inl (old h)

  later : (a b c : String) → elem b (neighbors graph a) ≡ true → Through b c → Through a c
  later a b c e (inl here, p) =
      (inr (edge a new_id (subst (λ x. elem x (neighbors graph a) ≡ true) here e)), p)
  later a b c e (inr q, p) = (inr (via a b new_id e q), p)

  split : (a c : String) → Chain st d' a c → Chain st d a c ⊎ Through a c
  split a c (link a' b' j h e) =
      let (g, from) = edge_of a' b' j h e in
      first_or_old a' b' j from (edge a' b' g) (λ old. link a' b' j old e)
  split a c (over a' b' c' j h e p) =
      let (g, from) = edge_of a' b' j h e in
      elim (split b' c' p) [
        | inl q ↦
            first_or_old a' c' j from (via a' b' c' g (Chain-DependsOn b' c' p))
              (λ old. over a' b' c' j old e q)
        | inr t ↦ inr (later a' b' c' g t)
      ]

  join : (a b c : String) → DependsOn graph a b → DependsOn graph b c → DependsOn graph a c
  join a b c (edge a' b' e) q = via a' b' c e q
  join a b c (via a' m b' e p) q = via a' m c e (join m b' c p q)

  pub placed-IsAcyclic : ¬ DependsOn graph new_id new_id → IsAcyclic st d → IsAcyclic st d'
  placed-IsAcyclic free acyclic k p = elim (split k k p) [
    | inl q ↦ acyclic k q
    | inr (inl here, q) ↦ free (subst (DependsOn graph new_id) here q)
    | inr (inr r, q) ↦ free (join new_id k new_id q r)
  ]
