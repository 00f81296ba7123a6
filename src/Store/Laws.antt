-- ===== src/Store/Laws.antt =====
-- internal/store/store.go: what is read after a write.
use mathlib.Core.List.{Memᴰ}
use mathlib.Core.List.Memᴰ
use mathlib.Core.Option.{some-injective}
use native.Mathlib.Nat.{pow-suc}
use distsched.Base.{
  Distinct, All2, ℕ, suc, zero, ◌+◌, ◌*◌, ◌/◌, ◌%◌, ◌^◌, ◌<◌, ◌≡◌, refl, sym, subst, ap, ◌∙◌, true,
  ◌&&◌, List, [], ◌∷◌, Option, none, some, String, same, String_discrete, if◌then◌else◌, arith, inl,
  inr, Option-cases,
}
use distsched.Api.{Job, WorkerInfo}
use distsched.Store.{
  Bolt, Bucket, jobs, workers, dead_letter, meta, Bytes, found, not_found, put, delete, decode,
  decode_all, put_uint, get_uint, be64, put_job, get_job, delete_job, list_jobs, put_worker,
  get_worker, put_dead_letter, save_election_state, load_election_state, is_dead_lettered,
  election_writes, write_message, same_bucket,
}

-- A write of one message, committed or not, as a lookup sees it.
write_message-get :
    (bolt : Bolt) (b : Bucket) (k : String) (o : Option Bytes) (d : bolt.Db) (b' : Bucket)
    (k' : String)
    → bolt.get (write_message bolt b k o d).0 b' k' ≡ (
        if (write_message bolt b k o d).1 && (same_bucket b b' && same k k')
        then o
        else bolt.get d b' k')
write_message-get bolt b k none d b' k' = refl
write_message-get bolt b k (some v) d b' k' =
    ground (arith, bolt.get-update (put b k v ∷ []) d b' k')

module _ (bolt : Bolt) (d : bolt.Db) where
  -- A lookup of a job after `PutJob` gives the job if the write went through, and else what it gave.
  pub get_job-put_job :
      (j : Job) (k : String)
      → get_job bolt (put_job bolt j d).0 k
        ≡ (if (put_job bolt j d).1 && same j.id k then found j else get_job bolt d k)
  unfolding put_job get_job
  get_job-put_job j k = elim (Option-cases (bolt.marshal_job j)) [
    | inl e ↦ rw e
    | inr (v, e) ↦
        rw e
          (ground (arith, write_message-get bolt jobs j.id (some v) d jobs k, bolt.job_codec j v e))
  ]

  pub get_job-put_worker :
      (w : WorkerInfo) (k : String) → get_job bolt (put_worker bolt w d).0 k ≡ get_job bolt d k
  unfolding put_worker get_job
  get_job-put_worker w k =
      ground (arith, write_message-get bolt workers w.id (bolt.marshal_worker w) d jobs k)

  pub get_job-put_dead_letter :
      (j : Job) (k : String) → get_job bolt (put_dead_letter bolt j d).0 k ≡ get_job bolt d k
  unfolding put_dead_letter get_job
  get_job-put_dead_letter j k =
      ground (arith, write_message-get bolt dead_letter j.id (bolt.marshal_job j) d jobs k)

  pub get_job-delete_job :
      (i k : String)
      → get_job bolt (delete_job bolt i d).0 k
        ≡ (if (delete_job bolt i d).1 && same i k then not_found else get_job bolt d k)
  unfolding delete_job get_job
  get_job-delete_job i k = ground (arith, bolt.get-update (delete jobs i ∷ []) d jobs k)

  pub get_worker-put_worker :
      (w : WorkerInfo) (k : String)
      → get_worker bolt (put_worker bolt w d).0 k
        ≡ (if (put_worker bolt w d).1 && same w.id k then found w else get_worker bolt d k)
  unfolding put_worker get_worker
  get_worker-put_worker w k = elim (Option-cases (bolt.marshal_worker w)) [
    | inl e ↦ rw e
    | inr (v, e) ↦ rw e (
        ground (
          arith,
          write_message-get bolt workers w.id (some v) d workers k,
          bolt.worker_codec w v e,
        ))
  ]

-- The digits, read back, are the number, if there are enough of them.
get_uint-put_uint :
    (k n acc : ℕ) (rest : Bytes)
    → n < 256 ^ k
    → get_uint acc (put_uint k n rest) ≡ get_uint (acc * 256 ^ k + n) rest
unfolding get_uint put_uint
get_uint-put_uint zero n acc rest h = ap (λ (x : ℕ). get_uint x rest) (omega arith)
get_uint-put_uint (suc k) n acc rest h =
    get_uint-put_uint k (n / 256) acc (n % 256 ∷ rest) (omega (arith, pow-suc 256 k))
    ∙ ap (λ (x : ℕ). get_uint x rest)
        (omega (arith, pow-suc 256 k, ap (λ (x : ℕ). acc * x) (pow-suc 256 k)))

get_uint-be64 : (n : ℕ) → n < 2 ^ 63 → get_uint 0 (be64 n) ≡ n
unfolding be64 get_uint
get_uint-be64 n h = get_uint-put_uint 8 n 0 [] (omega arith) ∙ omega arith

-- A saved election state is loaded back, for every term that an int64 holds; a save that did not go
-- through leaves what was loaded before.
pub load-save_election_state :
    (bolt : Bolt) (d : bolt.Db) (term : ℕ) (voted_for : String)
    → term < 2 ^ 63
    → load_election_state bolt (save_election_state bolt term voted_for d).0 ≡ (
        if (save_election_state bolt term voted_for d).1
        then (term, voted_for)
        else load_election_state bolt d)
unfolding load_election_state save_election_state String_discrete
load-save_election_state bolt d term voted_for h = ground (
  arith,
  get_uint-be64 term h,
  bolt.text_codec voted_for,
  bolt.get-update (election_writes bolt term voted_for) d meta "election_term",
  bolt.get-update (election_writes bolt term voted_for) d meta "election_voted_for",
)

decode-found :
    {A : Type 0} (read : Bytes → Option A) (o : Option Bytes) (v : Bytes) (x : A)
    → o ≡ some v
    → read v ≡ some x
    → decode read o ≡ found x
decode-found read o v x e r = rw (e, decode) (rw (r, decode))

decode_all_sound :
    {A : Type 0} (read : Bytes → Option A) (vs : List Bytes) (xs : List A) (x : A)
    → decode_all read vs ≡ some xs
    → Memᴰ x xs
    → (v : Bytes) × Memᴰ v vs × (read v ≡ some x)
decode_all_sound read [] xs x h m =
    absurd (Memᴰ.not-nil (subst (Memᴰ x) (sym (some-injective _ _ h)) m))
decode_all_sound read (v ∷ vs) xs x h m = elim (Option-cases (read v)) [
  | inl e ↦ absurd (ground arith)
  | inr (a, e) ↦ elim (Option-cases (decode_all read vs)) [
    | inl e' ↦ absurd (ground arith)
    | inr (rest, e') ↦
        let whole : a ∷ rest ≡ xs = ground arith in
        elim (Memᴰ.cases_cons (subst (Memᴰ x) (sym whole) m)) [
          | inl e'' ↦ (v, Memᴰ.head refl, rw e'' e)
          | inr later ↦
              let (v', m', r') = decode_all_sound read vs rest x e' later in (v', Memᴰ.tail m', r')
        ]
  ]
]

decode_all_complete :
    {A : Type 0} (read : Bytes → Option A) (vs : List Bytes) (xs : List A) (v : Bytes) (x : A)
    → decode_all read vs ≡ some xs
    → Memᴰ v vs
    → read v ≡ some x
    → Memᴰ x xs
decode_all_complete read [] xs v x h m r = absurd (Memᴰ.not-nil m)
decode_all_complete read (w ∷ vs) xs v x h m r = elim (Option-cases (read w)) [
  | inl e ↦ absurd (ground arith)
  | inr (a, e) ↦ elim (Option-cases (decode_all read vs)) [
    | inl e' ↦ absurd (ground arith)
    | inr (rest, e') ↦
        let whole : a ∷ rest ≡ xs = ground arith in
        elim (Memᴰ.cases_cons m) [
          | inl e'' ↦ subst (Memᴰ x) whole (Memᴰ.head (some-injective _ _ (sym r ∙ rw e'' e)))
          | inr later ↦
              subst (Memᴰ x) whole (Memᴰ.tail (decode_all_complete read vs rest v x e' later r))
        ]
  ]
]

decode_all-All2 :
    {A : Type 0} (read : Bytes → Option A) (get : String → Option Bytes) (ks : List String)
    (vs : List Bytes) (xs : List A)
    → decode_all read vs ≡ some xs
    → All2 (λ k v. get k ≡ some v) ks vs
    → All2 (λ k x. decode read (get k) ≡ found x) ks xs
decode_all-All2 read get [] [] [] h a = tt
decode_all-All2 read get [] [] (x ∷ xs) h a = absurd (ground arith)
decode_all-All2 read get [] (v ∷ vs) xs h a = elim a [ ]
decode_all-All2 read get (k ∷ ks) [] xs h a = elim a [ ]
decode_all-All2 read get (k ∷ ks) (v ∷ vs) [] h a = absurd (ground arith)
decode_all-All2 read get (k ∷ ks) (v ∷ vs) (x ∷ xs) h a =
    let e : (read v ≡ some x) × (decode_all read vs ≡ some xs) = ground arith in
    (decode-found read (get k) v x a.0 e.0, decode_all-All2 read get ks vs xs e.1 a.1)

module _ (bolt : Bolt) (d : bolt.Db) where
  -- `ListJobs` returns exactly the jobs that some lookup finds.
  pub list_jobs_iff :
      (js : List Job) (j : Job)
      → list_jobs bolt d ≡ some js
      → (Memᴰ j js → (k : String) × (get_job bolt d k ≡ found j))
        × ((k : String) → get_job bolt d k ≡ found j → Memᴰ j js)
  unfolding list_jobs get_job
  list_jobs_iff js j h = (
    λ m.
        let (v, mv, r) = decode_all_sound bolt.unmarshal_job _ js j h m in
        let (k, g) = bolt.values_sound d jobs v mv in
        (k, decode-found bolt.unmarshal_job _ v j g r),
    λ k g. elim (Option-cases (bolt.get d jobs k)) [
      | inl e ↦ absurd (ground arith)
      | inr (v, e) ↦
          decode_all_complete bolt.unmarshal_job _ js v j h (bolt.values_complete d jobs v k e)
            (ground arith)
    ],
  )

  -- `ListJobs` takes up each key once.
  pub list_jobs_keys :
      (js : List Job)
      → list_jobs bolt d ≡ some js
      → (ks : List String) × Distinct ks × All2 (λ k j. get_job bolt d k ≡ found j) ks js
  unfolding list_jobs get_job
  list_jobs_keys js h =
      let (ks, once, there) = bolt.values_keys d jobs in
      (
        ks,
        once,
        decode_all-All2 bolt.unmarshal_job (λ k. bolt.get d jobs k) ks (bolt.values d jobs) js h
            there,
      )

  pub is_dead_lettered-put_job :
      (j : Job) (k : String)
      → is_dead_lettered bolt (put_job bolt j d).0 k ≡ is_dead_lettered bolt d k
  unfolding put_job is_dead_lettered
  is_dead_lettered-put_job j k =
      ground (arith, write_message-get bolt jobs j.id (bolt.marshal_job j) d dead_letter k)

  pub is_dead_lettered-put_worker :
      (w : WorkerInfo) (k : String)
      → is_dead_lettered bolt (put_worker bolt w d).0 k ≡ is_dead_lettered bolt d k
  unfolding put_worker is_dead_lettered
  is_dead_lettered-put_worker w k =
      ground (arith, write_message-get bolt workers w.id (bolt.marshal_worker w) d dead_letter k)

  -- A dead letter that was written is found; the others stay.
  pub is_dead_lettered-put_dead_letter :
      (j : Job) (k : String)
      → is_dead_lettered bolt (put_dead_letter bolt j d).0 k
        ≡ (if (put_dead_letter bolt j d).1 && same j.id k then true else is_dead_lettered bolt d k)
  unfolding put_dead_letter is_dead_lettered
  is_dead_lettered-put_dead_letter j k = elim (Option-cases (bolt.marshal_job j)) [
    | inl e ↦ rw e
    | inr (v, e) ↦
        rw e (ground (arith, write_message-get bolt dead_letter j.id (some v) d dead_letter k))
  ]
