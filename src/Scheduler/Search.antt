-- ===== src/Scheduler/Search.antt =====
-- internal/scheduler/deps.go: the marks of the search of `wouldCreateCycle`.
use distsched.Base.{
  ◌≡◌, ◌⊎◌, inl, inr, sym, subst, Bool, true, false, arith, List, [], ◌∷◌, String, same, elem,
  without,
}
use distsched.Scheduler.Jobs.{Graph, Marks, neighbors, dfs_each}

pub none_in : (d : String) → ¬ (elem d [] ≡ true)
unfolding elem
none_in d e = ground arith

pub elem-cases :
    (n k : String) (ys : List String) → elem k (n ∷ ys) ≡ true → (n ≡ k) ⊎ (elem k ys ≡ true)
unfolding elem
elem-cases n k ys e = ground arith

pub elem-later : (n k : String) (ys : List String) → elem k ys ≡ true → elem k (n ∷ ys) ≡ true
unfolding elem
elem-later n k ys e = ground arith

pub elem-first : (n : String) (ys : List String) → elem n (n ∷ ys) ≡ true
unfolding elem
elem-first n ys = ground arith

module _ (g : Graph) (root : String) where
  -- Each dependency of `k` is visited and none is the root.
  abbrev pub IsClosed : List String → String → Type 0
  IsClosed visited k =
      (d : String) → elem d (neighbors g k) ≡ true → (same d root ≡ false) × (elem d visited ≡ true)

  -- From `m` to `m'` the search has left no new job with a dependency that it has not followed.
  pub record Searched (m m' : Marks) : Type 0 where
    pub on_stack : elem root m'.stack ≡ true
    pub kept : (k : String) → elem k m.visited ≡ true → elem k m'.visited ≡ true
    pub closed :
        (k : String) → elem k m'.visited ≡ true → (elem k m.visited ≡ true) ⊎ IsClosed m'.visited k

  -- What a search over some dependencies has shown of them.
  abbrev pub Followed : List String → Marks → Type 0
  Followed ds m =
      (d : String) → elem d ds ≡ true → (same d root ≡ false) × (elem d m.visited ≡ true)

  nowhere : (m : Marks) → elem root m.stack ≡ true → Searched m m
  nowhere m h = record { on_stack = h; kept = λ k e. e; closed = λ k e. inl e }

  grown :
      (m m' m2 : Marks) (k : String)
      → Searched m' m2
      → IsClosed m'.visited k
      → IsClosed m2.visited k
  grown m m' m2 k s c d e = let (other, v) = c d e in (other, s.kept d v)

  joined : (m m' m2 : Marks) → Searched m m' → Searched m' m2 → Searched m m2
  joined m m' m2 s t = record {
    on_stack = t.on_stack;
    kept = λ k e. t.kept k (s.kept k e);
    closed = λ k e. elim (t.closed k e) [
      | inr c ↦ inr c
      | inl old ↦ elim (s.closed k old) [
        | inl older ↦ inl older
        | inr c ↦ inr (grown m m' m2 k t c)
      ]
    ];
  }

  pub off_stack :
      (n : String) (ys : List String)
      → elem root ys ≡ true
      → same n root ≡ false
      → elem root (without n ys) ≡ true
  unfolding elem without
  off_stack n [] h o = h
  off_stack n (y ∷ ys) h o = ground (arith, off_stack n ys)

  not_root :
      (d : String) (ys : List String)
      → elem root ys ≡ true
      → elem d ys ≡ false
      → same d root ≡ false
  not_root d ys h o = ground arith

  -- What a search from one job keeps, where it finds no cycle.
  abbrev pub Sound : (String → Marks → Bool × Marks) → Type 0
  Sound call =
      (d : String) (m : Marks)
      → elem root m.stack ≡ true
      → same d root ≡ false
      → (call d m).0 ≡ false
      → Searched m (call d m).1 × (elem d (call d m).1.visited ≡ true)

  followed :
      (d : String) (ds : List String) (m : Marks)
      → same d root ≡ false
      → elem d m.visited ≡ true
      → Followed ds m
      → Followed (d ∷ ds) m
  unfolding elem
  followed d ds m o v rest k e = ground (arith, rest k)

  -- How a search over dependencies that finds no cycle goes on.
  Goes : (String → Marks → Bool × Marks) → String → List String → Marks → Type 0
  Goes call d ds m =
      (elem d m.visited ≡ true) × (dfs_each call (d ∷ ds) m ≡ dfs_each call ds m)
      ⊎ ((call d m).0 ≡ false) × (dfs_each call (d ∷ ds) m ≡ dfs_each call ds (call d m).1)

  dfs_each-cases :
      (call : String → Marks → Bool × Marks) (d : String) (ds : List String) (m : Marks)
      → (dfs_each call (d ∷ ds) m).0 ≡ false
      → (elem d m.stack ≡ false) × Goes call d ds m
  unfolding dfs_each Goes
  dfs_each-cases call d ds m h = ground arith

  -- What a search over `ds` from `m` has come to, where it finds no cycle.
  abbrev Outcome : List String → Marks → Bool × Marks → Type 0
  Outcome ds m x = x.0 ≡ false → Searched m x.1 × Followed ds x.1

  each_seen :
      (call : String → Marks → Bool × Marks) (d : String) (ds : List String) (m : Marks)
      → same d root ≡ false
      → elem d m.visited ≡ true
      → Outcome ds m (dfs_each call ds m)
      → Outcome (d ∷ ds) m (dfs_each call ds m)
  each_seen call d ds m o seen rest h =
      let (s, f) = rest h in (s, followed d ds (dfs_each call ds m).1 o (s.kept d seen) f)

  each_fresh :
      (call : String → Marks → Bool × Marks) (d : String) (ds : List String) (m : Marks)
      → same d root ≡ false
      → Searched m (call d m).1 × (elem d (call d m).1.visited ≡ true)
      → Outcome ds (call d m).1 (dfs_each call ds (call d m).1)
      → Outcome (d ∷ ds) m (dfs_each call ds (call d m).1)
  each_fresh call d ds m o (s1, v) rest h =
      let m1 = (call d m).1 in
      let (s, f) = rest h in
      let m2 = (dfs_each call ds m1).1 in (joined m m1 m2 s1 s, followed d ds m2 o (s.kept d v) f)

  pub dfs_each-Outcome :
      (call : String → Marks → Bool × Marks) (ds : List String) (m : Marks)
      → Sound call
      → elem root m.stack ≡ true
      → Outcome ds m (dfs_each call ds m)
  unfolding dfs_each Goes
  dfs_each-Outcome call [] m sound r h = (nowhere m r, λ d e. absurd (none_in d e))
  dfs_each-Outcome call (d ∷ ds) m sound r h =
      let (off, goes) = dfs_each-cases call d ds m h in
      let o = not_root d m.stack r off in
      elim goes [
        | inl (seen, e) ↦
            subst (Outcome (d ∷ ds) m) (sym e)
              (each_seen call d ds m o seen (dfs_each-Outcome call ds m sound r)) h
        | inr (miss, e) ↦
            let found = sound d m r o miss in
            subst (Outcome (d ∷ ds) m) (sym e)
              (each_fresh call d ds m o found
                (dfs_each-Outcome call ds (call d m).1 sound found.0.on_stack))
              h
      ]
