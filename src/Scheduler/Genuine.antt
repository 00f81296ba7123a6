-- ===== src/Scheduler/Genuine.antt =====
-- internal/scheduler/deps.go: that a cycle which the search of `wouldCreateCycle` reports is one, and
-- that the search never runs out of fuel.
use distsched.Base.{
  ℕ, zero, suc, ◌+◌, ◌≡◌, ◌⊎◌, ◌∙◌, inl, inr, refl, sym, ap, subst, Bool, true, false, arith, List,
  [], ◌∷◌, none, String, elem, without, length, lookup, Distinct, Bool-cases,
}
use distsched.Scheduler.Jobs.{Graph, Marks, neighbors, dfs, dfs_each, no_marks, has_cycle_from}
use distsched.Scheduler.Keys.{nothing_in, not_without, without_absent, keys_bounded}
use distsched.Scheduler.Search.{none_in, elem-cases, elem-later, elem-first}
use distsched.Scheduler.Cycles.{DependsOn, edge, via}

module _ (g : Graph) where
  -- Each job of the stack is a dependency of the next.
  abbrev Linked : List String → Type 0
  Linked [] = Unit {0}
  Linked (n ∷ []) = Unit {0}
  Linked (n ∷ p ∷ rest) = (elem n (neighbors g p) ≡ true) × Linked (p ∷ rest)

  Linked-tail : (n : String) (xs : List String) → Linked (n ∷ xs) → Linked xs
  Linked-tail n [] h = tt
  Linked-tail n (p ∷ rest) h = h.1

  -- Some job depends on itself.
  abbrev pub Cycle : Type 0
  Cycle = (x : String) × DependsOn g x x

  one_more : (a b c : String) → DependsOn g a b → elem c (neighbors g b) ≡ true → DependsOn g a c
  one_more a b c (edge a' b' e) h = via a' b' c e (edge b' c h)
  one_more a b c (via a' m b' e p) h = via a' m c e (one_more m b' c p h)

  reaches :
      (d n : String) (xs : List String)
      → Linked (n ∷ xs)
      → elem d (n ∷ xs) ≡ true
      → (n ≡ d) ⊎ DependsOn g d n
  reaches d n [] l e = elim (elem-cases n d [] e) [
    | inl here ↦ inl here
    | inr never ↦ absurd (none_in d never)
  ]
  reaches d n (p ∷ rest) l e = elim (elem-cases n d (p ∷ rest) e) [
    | inl here ↦ inl here
    | inr later ↦ elim (reaches d p rest l.1 later) [
      | inl at_p ↦ inr (edge d n (subst (λ x. elem n (neighbors g x) ≡ true) at_p l.0))
      | inr path ↦ inr (one_more d p n path l.0)
    ]
  ]

  closes :
      (d n : String) (xs : List String)
      → Linked (n ∷ xs)
      → elem d (n ∷ xs) ≡ true
      → elem d (neighbors g n) ≡ true
      → Cycle
  closes d n xs l e h = elim (reaches d n xs l e) [
    | inl here ↦ (d, edge d d (subst (λ x. elem d (neighbors g x) ≡ true) here h))
    | inr path ↦ (d, one_more d n d path h)
  ]

  has_entry : (n p : String) → elem n (neighbors g p) ≡ true → lookup p g ≡ none → ⊥
  unfolding neighbors elem
  has_entry n p e none_there = absurd (ground arith)

  -- All but the first job of the stack have an entry in the graph.
  entered :
      (n : String) (xs : List String)
      → Linked (n ∷ xs)
      → (k : String) → elem k xs ≡ true
      → lookup k g ≡ none
      → ⊥
  entered n [] l k e = absurd (none_in k e)
  entered n (p ∷ rest) l k e = elim (elem-cases p k rest e) [
    | inl here ↦ subst (λ x. lookup x g ≡ none → ⊥) here (has_entry n p l.0)
    | inr later ↦ entered p rest l.1 k later
  ]

  record Fine (m : Marks) : Type 0 where
    linked : Linked m.stack
    once : Distinct m.stack
    within : (k : String) → elem k m.stack ≡ true → elem k m.visited ≡ true

  -- What the search has come to: a cycle, or the same stack.
  record Verdict (m : Marks) (r : Bool × Marks) : Type 0 where
    cycle : r.0 ≡ true → Cycle
    unwound : r.0 ≡ false → (r.1.stack ≡ m.stack) × Fine r.1

  abbrev enter : String → Marks → Marks
  enter n m = record { visited = n ∷ m.visited; stack = n ∷ m.stack }

  -- A search with the fuel left for the jobs that are not on the stack.
  abbrev Good : ℕ → (String → Marks → Bool × Marks) → Type 0
  Good fuel call =
      (d : String) (m : Marks)
      → Fine m
      → Linked (d ∷ m.stack)
      → elem d m.visited ≡ false
      → length m.stack + fuel ≡ length g + 2
      → Verdict m (call d m)

  unwound_again :
      (m m1 : Marks) (r : Bool × Marks) → m1.stack ≡ m.stack → Verdict m1 r → Verdict m r
  unwound_again m m1 r e v = record {
    cycle = v.cycle;
    unwound = λ h. let (same_stack, fine) = v.unwound h in (same_stack ∙ e, fine);
  }

  -- The search over some dependencies of the job `n` on top of the stack.
  dfs_each-Verdict :
      (fuel : ℕ) (call : String → Marks → Bool × Marks) (n : String) (xs ds : List String)
      (m : Marks)
      → Good fuel call
      → Fine m
      → m.stack ≡ n ∷ xs
      → ((d : String) → elem d ds ≡ true → elem d (neighbors g n) ≡ true)
      → length m.stack + fuel ≡ length g + 2
      → Verdict m (dfs_each call ds m)
  unfolding dfs_each
  dfs_each-Verdict fuel call n xs [] m good f top among left = record {
    cycle = λ h. absurd (ground arith);
    unwound = λ h. (refl, f);
  }
  dfs_each-Verdict fuel call n xs (d ∷ ds) m good f top among left =
      let near = among d (elem-first d ds) in
      let more : (k : String) → elem k ds ≡ true → elem k (neighbors g n) ≡ true =
        λ k e. among k (elem-later d k ds e) in
      let linked = subst Linked top f.linked in
      elim (Bool-cases (elem d m.stack)) [
        | inl on ↦ rw on (record {
          cycle = λ h. closes d n xs linked (subst (λ s. elem d s ≡ true) top on) near;
          unwound = λ h. absurd (ground arith);
        })
        | inr off ↦ elim (Bool-cases (elem d m.visited)) [
          | inl seen ↦ rw (off, seen) (dfs_each-Verdict fuel call n xs ds m good f top more left)
          | inr fresh ↦
              let v =
                good d m f (subst (λ s. Linked (d ∷ s)) (sym top) (near, linked)) fresh left in
              elim (Bool-cases (call d m).0) [
                | inl hit ↦
                    rw (off, fresh, hit)
                      (record { cycle = λ h. v.cycle hit; unwound = λ h. absurd (ground arith) })
                | inr miss ↦
                    let m1 = (call d m).1 in
                    let (same_stack, f1) = v.unwound miss in
                    rw (off, fresh, miss)
                      (unwound_again m m1 (dfs_each call ds m1) same_stack (
                        dfs_each-Verdict fuel call n xs ds m1 good f1 (same_stack ∙ top) more
                          (ap (λ s. length s + fuel) same_stack ∙ left)))
              ]
        ]
      ]

  not_on_stack :
      (n : String) (m : Marks) → Fine m → elem n m.visited ≡ false → elem n m.stack ≡ false
  not_on_stack n m f e = let w = f.within n in ground arith

  still_within :
      (n k : String) (m : Marks)
      → Fine m
      → elem k (n ∷ m.stack) ≡ true
      → elem k (n ∷ m.visited) ≡ true
  unfolding elem
  still_within n k m f e = ground (arith, f.within k)

  left_stack :
      (n : String) (m : Marks) (r : Marks)
      → elem n m.stack ≡ false
      → r.stack ≡ n ∷ m.stack
      → without n r.stack ≡ m.stack
  unfolding without
  left_stack n m r off e =
      let gone = without_absent n m.stack off in ap (without n) e ∙ ground arith

  dfs-Good : (fuel : ℕ) → Good fuel (dfs g fuel)
  unfolding dfs
  dfs-Good zero d m f l fresh left =
      let bound = keys_bounded m.stack g f.once (entered d m.stack l) in
      absurd (omega (arith, bound, left))
  dfs-Good (suc fuel) d m f l fresh left =
      let off = not_on_stack d m f fresh in
      let fine : Fine (enter d m) = record {
        linked = l;
        once = (off, f.once);
        within = λ k e. still_within d k m f e;
      } in
      let v =
        dfs_each-Verdict fuel (dfs g fuel) d m.stack (neighbors g d) (enter d m) (dfs-Good fuel)
          fine refl (λ k e. e) (omega (arith, left)) in
      let r = dfs_each (dfs g fuel) (neighbors g d) (enter d m) in
      elim (Bool-cases r.0) [
        | inl hit ↦
            rw (hit, dfs)
              (record { cycle = λ h. v.cycle hit; unwound = λ h. absurd (ground arith) })
        | inr miss ↦
            let (same_stack, f1) = v.unwound miss in
            let back = left_stack d m r.1 off same_stack in
            rw (miss, dfs)
              (record {
                cycle = λ h. absurd (ground arith);
                unwound = λ h. (
                  back,
                  record {
                    linked = rw back f.linked;
                    once = rw back f.once;
                    within = λ k e. f1.within k (not_without d k r.1.stack e).0;
                  },
                );
              })
      ]

  pub cycle_found : (root : String) → has_cycle_from g root ≡ true → Cycle
  unfolding has_cycle_from
  cycle_found root h =
      let none_yet : Fine no_marks = record {
        linked = tt;
        once = tt;
        within = λ k e. absurd (none_in k e);
      } in
      (dfs-Good (length g + 2) root no_marks none_yet tt (nothing_in root) (omega arith)).cycle h
