-- ===== src/Tests/Memory.antt =====
-- A store that keeps jobs, workers and dead letters in maps and never fails, as an instance of the
-- interface that internal/store implements.
use mathlib.Core.List.{Memᴰ}
use mathlib.Core.List.Memᴰ
use mathlib.Core.Option.{some-injective}
use distsched.Base.{
  All2-map, Distinct, All2, elem, Bool-cases, Option-cases, ◌∙◌, ◌⊎◌, ◌≡◌, refl, sym, subst, ap,
  inl, inr, Bool, true, false, ◌&&◌, List, [], ◌∷◌, Option, none, some, String, Dict, lookup,
  insert, erase, lookup-insert, lookup-erase, same, String_discrete, if◌then◌else◌, length, arith,
}
use distsched.Api.{Job, WorkerInfo}
use distsched.Store.{Found, found, not_found}
use distsched.Store.Interface.{Storage}

pub record Tables : Type 0 where
  pub jobs : Dict Job
  pub workers : Dict WorkerInfo
  pub dead : Dict Job

abbrev pub found_of : Option Job → Found Job
found_of none = not_found
found_of (some j) = found j

abbrev pub cons_some : {V : Type 0} → Option V → List V → List V
cons_some none xs = xs
cons_some (some v) xs = v ∷ xs

cons_some_sound :
    {V : Type 0} (o : Option V) (xs : List V) (v : V)
    → Memᴰ v (cons_some o xs)
    → (o ≡ some v) ⊎ Memᴰ v xs
cons_some_sound none xs v h = inr h
cons_some_sound (some w) xs v h = elim (Memᴰ.cases_cons h) [
  | inl e ↦ inl (ap some (sym e))
  | inr m ↦ inr m
]

cons_some_tail :
    {V : Type 0} (o : Option V) (xs : List V) (v : V) → Memᴰ v xs → Memᴰ v (cons_some o xs)
cons_some_tail none xs v m = m
cons_some_tail (some w) xs v m = Memᴰ.tail m

cons_some_head :
    {V : Type 0} (o : Option V) (xs : List V) (v : V) → o ≡ some v → Memᴰ v (cons_some o xs)
cons_some_head o xs v e = rw e (Memᴰ.head refl)

abbrev pub in_dict : {V : Type 0} → String → Dict V → Bool
in_dict k m = elim (lookup k m) [ none ↦ false | some _ ↦ true ]

-- The current value of each key of the first map.
unfoldable pub listing : {V : Type 0} → Dict V → Dict V → List V
listing [] m = []
listing ((k, v) ∷ rest) m =
    let more = listing rest m in if in_dict k rest then more else cons_some (lookup k m) more

pub listing_sound :
    {V : Type 0} (ks m : Dict V) (v : V)
    → Memᴰ v (listing ks m)
    → (k : String) × (lookup k m ≡ some v)
unfolding listing
listing_sound [] m v h = absurd (Memᴰ.not-nil h)
listing_sound ((k, w) ∷ ks) m v h = elim (Bool-cases (in_dict k ks)) [
  | inl again ↦ listing_sound ks m v (rw again at h)
  | inr last ↦ elim (cons_some_sound (lookup k m) (listing ks m) v (rw last at h)) [
    | inl e ↦ (k, e)
    | inr later ↦ listing_sound ks m v later
  ]
]

pub listing_complete :
    {V : Type 0} (ks m : Dict V) (k : String) (v w : V)
    → lookup k ks ≡ some w
    → lookup k m ≡ some v
    → Memᴰ v (listing ks m)
unfolding listing lookup
listing_complete [] m k v w h e = absurd (ground arith)
listing_complete ((i, u) ∷ ks) m k v w h e = elim (String_discrete i k) [
  | yes x ↦ elim (Option-cases (lookup i ks)) [
    | inl last ↦
        let out : in_dict i ks ≡ false = rw (last, in_dict) refl in
        rw (out, listing) (cons_some_head (lookup i m) (listing ks m) v (rw x e))
    | inr (u', again) ↦
        let known : in_dict i ks ≡ true = rw (again, in_dict) refl in
        rw (known, listing) (listing_complete ks m k v u' (ap (λ y. lookup y ks) (sym x) ∙ again) e)
  ]
  | no x ↦
      let later = listing_complete ks m k v w (ground arith) e in
      elim (Bool-cases (in_dict i ks)) [
        | inl again ↦ rw (again, listing) later
        | inr last ↦ rw (last, listing) (cons_some_tail (lookup i m) (listing ks m) v later)
      ]
]

-- The keys of a listing, each once.
pub listing_keys :
    {V : Type 0} (ks m : Dict V)
    → (is : List String) × Distinct is
      × All2 (λ i v. lookup i m ≡ some v) is (listing ks m)
      × ((i : String) → elem i is ≡ true → in_dict i ks ≡ true)
unfolding listing lookup elem
listing_keys [] m = ([], tt, tt, λ i e. absurd (ground arith))
listing_keys ((k, w) ∷ ks) m =
    let (is, once, there, within) = listing_keys ks m in
    elim (Bool-cases (in_dict k ks)) [
      | inl again ↦ rw again (is, once, there, λ i e. ground (arith, within i e))
      | inr last ↦ rw last (elim (Option-cases (lookup k m)) [
        | inl gone ↦ rw gone (is, once, there, λ i e. ground (arith, within i e))
        | inr (v, e) ↦
            rw e (
              k ∷ is,
              (ground (arith, within k), once),
              (e, there),
              λ i h. ground (arith, within i),
            )
      ])
    ]

pub jobs_keys :
    (m : Dict Job) (js : List Job)
    → some (listing m m) ≡ some js
    → (ks : List String) × Distinct ks × All2 (λ k j. found_of (lookup k m) ≡ found j) ks js
jobs_keys m js h =
    let (is, once, there, within) = listing_keys m m in
    (
      is,
      once,
      subst (All2 (λ k j. found_of (lookup k m) ≡ found j) is) (some-injective _ _ h)
          (All2-map (λ k j e. ap found_of e) is (listing m m) there),
    )

pub found_of-put :
    (k : String) (i : String) (j : Job) (m : Dict Job)
    → found_of (lookup k (insert i j m))
      ≡ (if true && same i k then found j else found_of (lookup k m))
found_of-put k i j m = ground (arith, lookup-insert i k j m)

pub found_of-delete :
    (k : String) (i : String) (m : Dict Job)
    → found_of (lookup k (erase i m))
      ≡ (if true && same i k then not_found else found_of (lookup k m))
found_of-delete k i m = ground (arith, lookup-erase i k m)

pub in_dict-put :
    (k : String) (i : String) (j : Job) (m : Dict Job)
    → in_dict k (insert i j m) ≡ (if true && same i k then true else in_dict k m)
in_dict-put k i j m = ground (arith, lookup-insert i k j m)

found_of-some : (o : Option Job) (j : Job) → found_of o ≡ found j → o ≡ some j
found_of-some o j e = ground arith

pub jobs_iff :
    (m : Dict Job) (js : List Job) (j : Job)
    → some (listing m m) ≡ some js
    → (Memᴰ j js → (k : String) × (found_of (lookup k m) ≡ found j))
      × ((k : String) → found_of (lookup k m) ≡ found j → Memᴰ j js)
jobs_iff m js j h =
    let same_list = some-injective _ _ h in
    (
      λ mem.
          let (k, e) = listing_sound m m j (subst (Memᴰ j) (sym same_list) mem) in
          (k, ap found_of e),
      λ k g.
          let e = found_of-some (lookup k m) j g in
          subst (Memᴰ j) same_list (listing_complete m m k j j e e),
    )

abbrev pub memory : Storage
memory = record {
  Db = Tables;
  put_job = λ j d. (record d { jobs = insert j.id j d.jobs }, true);
  get_job = λ d k. found_of (lookup k d.jobs);
  delete_job = λ k d. (record d { jobs = erase k d.jobs }, true);
  list_jobs = λ d. some (listing d.jobs d.jobs);
  put_worker = λ w d. (record d { workers = insert w.id w d.workers }, true);
  list_workers = λ d. some (listing d.workers d.workers);
  put_dead_letter = λ j d. (record d { dead = insert j.id j d.dead }, true);
  is_dead_lettered = λ d k. in_dict k d.dead;
  count_dead_letter = λ d. length d.dead;
  get_job-put_job = λ d j k. found_of-put k j.id j d.jobs;
  get_job-put_worker = λ d w k. refl;
  get_job-put_dead_letter = λ d j k. refl;
  get_job-delete_job = λ d i k. found_of-delete k i d.jobs;
  list_jobs_iff = λ d js j h. jobs_iff d.jobs js j h;
  list_jobs_keys = λ d js h. jobs_keys d.jobs js h;
  is_dead_lettered-put_job = λ d j k. refl;
  is_dead_lettered-put_worker = λ d w k. refl;
  is_dead_lettered-put_dead_letter = λ d j k. in_dict-put k j.id j d.dead;
}

-- The same store over a medium that takes no more jobs.
abbrev pub broken : Storage
broken = record {
  Db = Tables;
  put_job = λ j d. (d, false);
  get_job = λ d k. found_of (lookup k d.jobs);
  delete_job = λ k d. (d, false);
  list_jobs = λ d. some (listing d.jobs d.jobs);
  put_worker = λ w d. (record d { workers = insert w.id w d.workers }, true);
  list_workers = λ d. some (listing d.workers d.workers);
  put_dead_letter = λ j d. (record d { dead = insert j.id j d.dead }, true);
  is_dead_lettered = λ d k. in_dict k d.dead;
  count_dead_letter = λ d. length d.dead;
  get_job-put_job = λ d j k. refl;
  get_job-put_worker = λ d w k. refl;
  get_job-put_dead_letter = λ d j k. refl;
  get_job-delete_job = λ d i k. refl;
  list_jobs_iff = λ d js j h. jobs_iff d.jobs js j h;
  list_jobs_keys = λ d js h. jobs_keys d.jobs js h;
  is_dead_lettered-put_job = λ d j k. refl;
  is_dead_lettered-put_worker = λ d w k. refl;
  is_dead_lettered-put_dead_letter = λ d j k. in_dict-put k j.id j d.dead;
}
