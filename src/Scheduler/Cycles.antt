-- ===== src/Scheduler/Cycles.antt =====
-- internal/scheduler/deps.go: what the search of `wouldCreateCycle` finds.
use distsched.Base.{
  ℕ, zero, suc, ◌+◌, ◌≡◌, ◌⊎◌, inl, inr, sym, subst, true, false, arith, List, [], ◌∷◌, none, some,
  String, same, elem, without, length, insert,
}
use distsched.Api.{Job}
use distsched.Scheduler.State.{Backend}
use distsched.Scheduler.Replication.{S}
use distsched.Scheduler.Jobs.{
  Graph, Marks, add_jobs, neighbors, dfs, dfs_each, no_marks, has_cycle_from, would_create_cycle,
}
use distsched.Scheduler.Search.{
  none_in, elem-cases, elem-later, elem-first, IsClosed, Searched, Followed, Sound, off_stack,
  dfs_each-Outcome,
}

-- `a` depends on `b`, at once or over other jobs.
pub data DependsOn (g : Graph) : String → String → Type 0 where
  edge : (a b : String) → elem b (neighbors g a) ≡ true → DependsOn g a b
  via : (a b c : String) → elem b (neighbors g a) ≡ true → DependsOn g b c → DependsOn g a c

not_self : (n : String) → ¬ (same n n ≡ false)
not_self n e = ground arith

module _ (g : Graph) (root : String) where
  abbrev enter : String → Marks → Marks
  enter n m = record m { visited = n ∷ m.visited; stack = n ∷ m.stack }

  dfs-cases :
      (fuel : ℕ) (n : String) (m : Marks)
      → (dfs g (suc fuel) n m).0 ≡ false
      → (let x = dfs_each (dfs g fuel) (neighbors g n) (enter n m) in
          (x.0 ≡ false)
          × (dfs g (suc fuel) n m ≡ (false, record x.1 { stack = without n x.1.stack })))
  unfolding dfs
  dfs-cases fuel n m h = ground arith

  at_end :
      (n : String) (m x : Marks) (k : String)
      → Searched g root (enter n m) x
      → Followed g root (neighbors g n) x
      → elem k x.visited ≡ true
      → (elem k m.visited ≡ true) ⊎ IsClosed g root x.visited k
  at_end n m x k s f e = elim (s.closed k e) [
    | inr c ↦ inr c
    | inl there ↦ elim (elem-cases n k m.visited there) [
      | inl it ↦ inr (subst (IsClosed g root x.visited) it f)
      | inr older ↦ inl older
    ]
  ]

  left :
      (n : String) (m x : Marks)
      → same n root ≡ false
      → Searched g root (enter n m) x
      → Followed g root (neighbors g n) x
      → Searched g root m (record x { stack = without n x.stack }) × (elem n x.visited ≡ true)
  left n m x o s f = (
    record {
      on_stack = off_stack g root n x.stack s.on_stack o;
      kept = λ k e. s.kept k (elem-later n k m.visited e);
      closed = λ k e. at_end n m x k s f e;
    },
    s.kept n (elem-first n m.visited),
  )

  dfs-Sound : (fuel : ℕ) → Sound g root (dfs g fuel)
  unfolding dfs
  dfs-Sound zero d m r o h = absurd (ground arith)
  dfs-Sound (suc fuel) d m r o h =
      let (miss, e) = dfs-cases fuel d m h in
      let (s, f) =
        dfs_each-Outcome g root (dfs g fuel) (neighbors g d) (enter d m) (dfs-Sound fuel)
          (elem-later d root m.stack r) miss in
      subst (λ y. Searched g root m y.1 × (elem d y.1.visited ≡ true)) (sym e)
        (left d m (dfs_each (dfs g fuel) (neighbors g d) (enter d m)).1 o s f)

  ends_elsewhere :
      (visited : List String) (a c : String)
      → ((k : String) → elem k visited ≡ true → IsClosed g root visited k)
      → elem a visited ≡ true
      → DependsOn g a c
      → same c root ≡ false
  ends_elsewhere visited a c closed v (edge a' c' e) = (closed a' v c' e).0
  ends_elsewhere visited a c closed v (via a' b c' e p) =
      ends_elsewhere visited b c' closed (closed a' v b e).1 p

  none_back : has_cycle_from g root ≡ false → ¬ DependsOn g root root
  unfolding has_cycle_from
  none_back h p =
      let fuel = length g + 1 in
      let fueled : length g + 2 ≡ suc fuel = omega arith in
      let (miss, e) =
        dfs-cases fuel root no_marks (subst (λ k. (dfs g k root no_marks).0 ≡ false) fueled h) in
      let x = (dfs_each (dfs g fuel) (neighbors g root) (enter root no_marks)).1 in
      let (s, f) =
        dfs_each-Outcome g root (dfs g fuel) (neighbors g root) (enter root no_marks)
          (dfs-Sound fuel) (elem-first root []) miss in
      let closed : (k : String) → elem k x.visited ≡ true → IsClosed g root x.visited k = λ k t.
        elim (at_end root no_marks x k s f t) [
          | inl none_yet ↦ absurd (none_in k none_yet)
          | inr c ↦ c
        ] in
      not_self root (ends_elsewhere x.visited root root closed (s.kept root (elem-first root [])) p)

module _ (b : Backend) where
  -- Where the search over the stored jobs finds no cycle for a job's dependencies, there is none that
  -- passes through that job.
  pub no_cycle :
      (new_id : String) (deps : List String) (s : S b) (js : List Job)
      → b.storage.list_jobs s.store ≡ some js
      → would_create_cycle b new_id deps s ≡ false
      → ¬ DependsOn (insert new_id deps (add_jobs js [])) new_id new_id
  unfolding would_create_cycle
  no_cycle new_id deps s js l h = none_back (insert new_id deps (add_jobs js [])) new_id (
      subst
        (λ o.
          (elim o [
            | none ↦ false
            | some ks ↦ has_cycle_from (insert new_id deps (add_jobs ks [])) new_id
          ])
          ≡ false)
        l h)
