-- ===== src/Store.antt =====
-- internal/store/store.go: jobs, workers, dead letters and the election state, as bytes in buckets of
-- a bbolt database. `Bolt` is what the store relies on: a transaction that commits all of its writes
-- or none, reads of what was committed, and a codec that reads back what it wrote.
pub mod Laws
pub mod Interface
use distsched.Base.{
  Distinct, All2, ℕ, suc, zero, ◌+◌, ◌*◌, ◌/◌, ◌%◌, ◌≡◌, ◌↔◌, Bool, true, false, ◌&&◌, List, [],
  ◌∷◌, Option, none, some, String, same, if◌then◌else◌, length,
}
use mathlib.Core.List.{Memᴰ}
use distsched.Api.{Job, WorkerInfo}

pub data Bucket : Type 0 where
  jobs workers dead_letter meta : Bucket

abbrev pub same_bucket : Bucket → Bucket → Bool
same_bucket jobs jobs = true
same_bucket workers workers = true
same_bucket dead_letter dead_letter = true
same_bucket meta meta = true
same_bucket _ _ = false

abbrev pub Bytes : Type 0
Bytes = List ℕ

pub data Write : Type 0 where
  put : Bucket → String → Bytes → Write
  delete : Bucket → String → Write

abbrev pub Contents : Type 0
Contents = Bucket → String → Option Bytes

-- The effect of a transaction's writes, in order, on what the buckets hold.
abbrev pub apply_write : Write → Contents → Contents
apply_write (put b k v) c b' k' = if same_bucket b b' && same k k' then some v else c b' k'
apply_write (delete b k) c b' k' = if same_bucket b b' && same k k' then none else c b' k'

abbrev pub apply_writes : List Write → Contents → Contents
apply_writes [] c = c
apply_writes (w ∷ ws) c = apply_writes ws (apply_write w c)

pub record Bolt : Type 1 where
  pub Db : Type 0
  pub get : Db → Contents
  -- The values of a bucket, in key order.
  pub values : Db → Bucket → List Bytes
  -- `db.Update`: the database after it, and whether it committed.
  pub update : List Write → Db → Db × Bool
  pub marshal_job : Job → Option Bytes
  pub unmarshal_job : Bytes → Option Job
  pub marshal_worker : WorkerInfo → Option Bytes
  pub unmarshal_worker : Bytes → Option WorkerInfo
  -- `[]byte(s)` and `string(v)`.
  pub text_bytes : String → Bytes
  pub text_of : Bytes → String
  pub text_codec : (s : String) → text_of (text_bytes s) ≡ s
  pub get-update :
      (ws : List Write) (d : Db) (b : Bucket) (k : String)
      → get (update ws d).0 b k
        ≡ (if (update ws d).1 then apply_writes ws (get d) b k else get d b k)
  pub values_sound :
      (d : Db) (b : Bucket) (v : Bytes) → Memᴰ v (values d b) → (k : String) × (get d b k ≡ some v)
  pub values_complete :
      (d : Db) (b : Bucket) (v : Bytes) (k : String) → get d b k ≡ some v → Memᴰ v (values d b)
  -- A bucket holds a key once.
  pub values_keys :
      (d : Db) (b : Bucket)
      → (ks : List String) × Distinct ks × All2 (λ k v. get d b k ≡ some v) ks (values d b)
  pub job_codec : (j : Job) (v : Bytes) → marshal_job j ≡ some v → unmarshal_job v ≡ some j
  pub worker_codec :
      (w : WorkerInfo) (v : Bytes) → marshal_worker w ≡ some v → unmarshal_worker v ≡ some w

-- What a lookup answers: the message, `ErrNotFound`, or an error of the codec.
pub data Found {ℓ} (A : Type ℓ) : Type ℓ where
  found : A → Found A
  not_found : Found A
  failed : Found A

abbrev pub decode : {A : Type 0} → (Bytes → Option A) → Option Bytes → Found A
decode read none = not_found
decode read (some v) = elim (read v) [ none ↦ failed | some a ↦ found a ]

-- The loop of a listing: it stops at the first value that does not decode.
abbrev pub decode_all : {A : Type 0} → (Bytes → Option A) → List Bytes → Option (List A)
decode_all read [] = some []
decode_all read (v ∷ vs) = elim (read v) [
  | none ↦ none
  | some a ↦ elim (decode_all read vs) [ none ↦ none | some rest ↦ some (a ∷ rest) ]
]

-- `binary.BigEndian.PutUint64`, and `Uint64` of the bytes: the digits in base 256, the highest first.
unfoldable pub put_uint : ℕ → ℕ → Bytes → Bytes
put_uint zero n rest = rest
put_uint (suc k) n rest = put_uint k (n / 256) (n % 256 ∷ rest)

unfoldable pub be64 : ℕ → Bytes
unfolding put_uint
be64 n = put_uint 8 n []

unfoldable pub get_uint : ℕ → Bytes → ℕ
get_uint acc [] = acc
get_uint acc (b ∷ bs) = get_uint (acc * 256 + b) bs

module _ (bolt : Bolt) where
  open bolt use {Db}

  -- A marshal error returns before the transaction.
  abbrev pub write_message : Bucket → String → Option Bytes → Db → Db × Bool
  write_message b k none d = (d, false)
  write_message b k (some v) d = bolt.update (put b k v ∷ []) d

  unfoldable pub put_job : Job → Db → Db × Bool
  put_job j d = write_message jobs j.id (bolt.marshal_job j) d

  unfoldable pub get_job : Db → String → Found Job
  get_job d id = decode bolt.unmarshal_job (bolt.get d jobs id)

  unfoldable pub delete_job : String → Db → Db × Bool
  delete_job id d = bolt.update (delete jobs id ∷ []) d

  unfoldable pub list_jobs : Db → Option (List Job)
  list_jobs d = decode_all bolt.unmarshal_job (bolt.values d jobs)

  unfoldable pub put_worker : WorkerInfo → Db → Db × Bool
  put_worker w d = write_message workers w.id (bolt.marshal_worker w) d

  unfoldable pub get_worker : Db → String → Found WorkerInfo
  get_worker d id = decode bolt.unmarshal_worker (bolt.get d workers id)

  unfoldable pub list_workers : Db → Option (List WorkerInfo)
  list_workers d = decode_all bolt.unmarshal_worker (bolt.values d workers)

  unfoldable pub delete_worker : String → Db → Db × Bool
  delete_worker id d = bolt.update (delete workers id ∷ []) d

  unfoldable pub put_dead_letter : Job → Db → Db × Bool
  put_dead_letter j d = write_message dead_letter j.id (bolt.marshal_job j) d

  unfoldable pub list_dead_letter : Db → Option (List Job)
  list_dead_letter d = decode_all bolt.unmarshal_job (bolt.values d dead_letter)

  -- Whether the bucket has the key: what an operator looks up.
  unfoldable pub is_dead_lettered : Db → String → Bool
  is_dead_lettered d id = elim (bolt.get d dead_letter id) [ none ↦ false | some v ↦ true ]

  -- `Stats().KeyN` of the bucket.
  unfoldable pub count_dead_letter : Db → ℕ
  count_dead_letter d = length (bolt.values d dead_letter)

  abbrev pub election_writes : ℕ → String → List Write
  election_writes term voted_for =
      put meta "election_term" (be64 term)
      ∷ put meta "election_voted_for" (bolt.text_bytes voted_for)
      ∷ []

  -- One transaction for both values.
  unfoldable pub save_election_state : ℕ → String → Db → Db × Bool
  save_election_state term voted_for d = bolt.update (election_writes term voted_for) d

  abbrev uint_or : Option Bytes → ℕ
  uint_or none = 0
  uint_or (some v) = get_uint 0 v

  abbrev text_or : Option Bytes → String
  text_or none = ""
  text_or (some v) = bolt.text_of v

  unfoldable pub load_election_state : Db → ℕ × String
  load_election_state d =
      (uint_or (bolt.get d meta "election_term"), text_or (bolt.get d meta "election_voted_for"))
