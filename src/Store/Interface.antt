-- ===== src/Store/Interface.antt =====
-- internal/store/store.go as the scheduler sees it: operations on jobs, workers and dead letters, and
-- what they promise. `bolt_storage` is the store's implementation.
use mathlib.Core.List.{Memᴰ}
use distsched.Base.{
  Distinct, All2, ℕ, ◌≡◌, Bool, true, ◌&&◌, List, Option, some, String, same, if◌then◌else◌,
}
use distsched.Api.{Job, WorkerInfo}
use distsched.Store.{Bolt, Found, found, not_found}
use distsched.Store
use distsched.Store.Laws

pub record Storage : Type 1 where
  pub Db : Type 0
  pub put_job : Job → Db → Db × Bool
  pub get_job : Db → String → Found Job
  pub delete_job : String → Db → Db × Bool
  pub list_jobs : Db → Option (List Job)
  pub put_worker : WorkerInfo → Db → Db × Bool
  pub list_workers : Db → Option (List WorkerInfo)
  pub put_dead_letter : Job → Db → Db × Bool
  pub is_dead_lettered : Db → String → Bool
  pub count_dead_letter : Db → ℕ
  pub get_job-put_job :
      (d : Db) (j : Job) (k : String)
      → get_job (put_job j d).0 k
        ≡ (if (put_job j d).1 && same j.id k then found j else get_job d k)
  pub get_job-put_worker :
      (d : Db) (w : WorkerInfo) (k : String) → get_job (put_worker w d).0 k ≡ get_job d k
  pub get_job-put_dead_letter :
      (d : Db) (j : Job) (k : String) → get_job (put_dead_letter j d).0 k ≡ get_job d k
  pub get_job-delete_job :
      (d : Db) (i k : String)
      → get_job (delete_job i d).0 k
        ≡ (if (delete_job i d).1 && same i k then not_found else get_job d k)
  pub list_jobs_iff :
      (d : Db) (js : List Job) (j : Job)
      → list_jobs d ≡ some js
      → (Memᴰ j js → (k : String) × (get_job d k ≡ found j))
        × ((k : String) → get_job d k ≡ found j → Memᴰ j js)
  pub list_jobs_keys :
      (d : Db) (js : List Job)
      → list_jobs d ≡ some js
      → (ks : List String) × Distinct ks × All2 (λ k j. get_job d k ≡ found j) ks js
  pub is_dead_lettered-put_job :
      (d : Db) (j : Job) (k : String) → is_dead_lettered (put_job j d).0 k ≡ is_dead_lettered d k
  pub is_dead_lettered-put_worker :
      (d : Db) (w : WorkerInfo) (k : String)
      → is_dead_lettered (put_worker w d).0 k ≡ is_dead_lettered d k
  pub is_dead_lettered-put_dead_letter :
      (d : Db) (j : Job) (k : String)
      → is_dead_lettered (put_dead_letter j d).0 k
        ≡ (if (put_dead_letter j d).1 && same j.id k then true else is_dead_lettered d k)

-- The store keeps the promises, over every database that does what bbolt documents.
pub bolt_storage : Bolt → Storage
bolt_storage bolt = record {
  Db = bolt.Db;
  put_job = Store.put_job bolt;
  get_job = Store.get_job bolt;
  delete_job = Store.delete_job bolt;
  list_jobs = Store.list_jobs bolt;
  put_worker = Store.put_worker bolt;
  list_workers = Store.list_workers bolt;
  put_dead_letter = Store.put_dead_letter bolt;
  is_dead_lettered = Store.is_dead_lettered bolt;
  count_dead_letter = Store.count_dead_letter bolt;
  get_job-put_job = Laws.get_job-put_job bolt;
  get_job-put_worker = Laws.get_job-put_worker bolt;
  get_job-put_dead_letter = Laws.get_job-put_dead_letter bolt;
  get_job-delete_job = Laws.get_job-delete_job bolt;
  list_jobs_iff = Laws.list_jobs_iff bolt;
  list_jobs_keys = Laws.list_jobs_keys bolt;
  is_dead_lettered-put_job = Laws.is_dead_lettered-put_job bolt;
  is_dead_lettered-put_worker = Laws.is_dead_lettered-put_worker bolt;
  is_dead_lettered-put_dead_letter = Laws.is_dead_lettered-put_dead_letter bolt;
}
