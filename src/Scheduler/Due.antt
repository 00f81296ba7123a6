-- ===== src/Scheduler/Due.antt =====
-- internal/scheduler: when a stored job that is queued is due: it waits in the ready queue, or has a
-- timer that will put it there. What a write and a push do to that.
use distsched.Base.{
  ap, sym, ◌∙◌, ◌≡◌, ◌⊎◌, inl, inr, ℤ, Bool, true, false, some, String, Dict, lookup, insert, erase,
  lookup-insert, lookup-erase, same, arith, Bool-cases,
}
use distsched.Api.{Job, Time, Duration}
use distsched.Store.{found}
use distsched.Queue
use distsched.Queue.{PriorityQueue}
use distsched.Queue.Ends.{IsQueue}
use distsched.Queue.Index.{view}
use distsched.Queue.Waiting.{waits}
use distsched.Queue.Awaits.{waits-push, waits-remove}
use distsched.Scheduler.State.{Backend, leads}
use distsched.Scheduler.Replication.{S, put_job, append_repl}
use distsched.Scheduler.Deps.{is_queued}
use distsched.Scheduler.Writes.{put_job-store, put_job_failed}

abbrev pub Due : String → PriorityQueue → Dict Duration → Type 0
Due k q timers = (waits (view q) k ≡ true) ⊎ ((t : Duration) × (lookup k timers ≡ some t))

pub Due-armed :
    (id k : String) (t : Duration) (q : PriorityQueue) (timers : Dict Duration)
    → Due k q timers
    → Due k q (insert id t timers)
Due-armed id k t q timers (inl w) = inl w
Due-armed id k t q timers (inr (u, e)) = elim (Bool-cases (same id k)) [
  | inl h ↦ inr (t, ground (arith, lookup-insert id k t timers))
  | inr h ↦ inr (u, ground (arith, lookup-insert id k t timers))
]

pub Due-fired :
    (id k : String) (q : PriorityQueue) (timers : Dict Duration)
    → same id k ≡ false
    → Due k q timers
    → Due k q (erase id timers)
Due-fired id k q timers h (inl w) = inl w
Due-fired id k q timers h (inr (u, e)) = inr (u, ground (arith, lookup-erase id k timers))

pub Due-pushed :
    (id k : String) (p : ℤ) (t : Time) (q : PriorityQueue) (timers : Dict Duration)
    → IsQueue q
    → Due k q timers
    → Due k (Queue.push id p t q).0 timers
Due-pushed id k p t q timers v (inl w) = inl (waits-push id k p t q v w)
Due-pushed id k p t q timers v (inr u) = inr u

pub Due-removed :
    (id k : String) (q : PriorityQueue) (timers : Dict Duration)
    → IsQueue q
    → same id k ≡ false
    → Due k q timers
    → Due k (Queue.remove id q).0 timers
Due-removed id k q timers v h (inl w) = inl (waits-remove id k q v h w)
Due-removed id k q timers v h (inr u) = inr u

-- A job, and whether it is said of it that it is due.
pub record Watch : Type 0 where
  pub id : String
  pub said : Bool

module _ (b : Backend) where
  abbrev pub NotQueued : b.storage.Db → String → Type 0
  NotQueued d k = (j : Job) → b.storage.get_job d k ≡ found j → is_queued j.state ≡ false

  abbrev pub IsDue : Watch → PriorityQueue → Dict Duration → b.storage.Db → Type 0
  IsDue k q timers d =
      k.said ≡ true
      → (j : Job) → b.storage.get_job d k.id ≡ found j
      → is_queued j.state ≡ true
      → Due k.id q timers

  -- A node that leads and is not shut down.
  pub record Steady (lead closed : Bool) (q : PriorityQueue) (d : b.storage.Db) : Type 0 where
    pub leading : lead ≡ true
    pub running : closed ≡ false
    pub queue : IsQueue q
    pub keyed : (i : String) (j : Job) → b.storage.get_job d i ≡ found j → j.id ≡ i

  abbrev pub IsSteady : S b → Type 0
  IsSteady s = Steady (leads s) s.closed s.queue s.store

  -- The node is steady, and the job `k` is due if it is stored as queued.
  pub record Tended (k : Watch) (lead closed : Bool) (q : PriorityQueue) (timers : Dict Duration)
      (d : b.storage.Db) : Type 0 where
    pub steady : Steady lead closed q d
    pub due : IsDue k q timers d

  abbrev pub Tends : Watch → S b → Type 0
  Tends k s = Tended k (leads s) s.closed s.queue s.retry_timers s.store

  -- The write changes the store and the replication log only.
  put_job-frame :
      (j : Job) (s : S b)
      → (leads (put_job b j s).0 ≡ leads s)
        × ((put_job b j s).0.closed ≡ s.closed)
        × ((put_job b j s).0.queue ≡ s.queue)
        × ((put_job b j s).0.retry_timers ≡ s.retry_timers)
  unfolding put_job append_repl
  put_job-frame j s = ground arith

  put_db-keyed :
      (j : Job) (d : b.storage.Db)
      → ((i : String) (j' : Job) → b.storage.get_job d i ≡ found j' → j'.id ≡ i)
      → (i : String) (j' : Job) → b.storage.get_job (b.storage.put_job j d).0 i ≡ found j'
      → j'.id ≡ i
  put_db-keyed j d h i j' e = ground (arith, b.storage.get_job-put_job d j i, h i j')

  pub put_job-IsSteady : (j : Job) (s : S b) → IsSteady s → IsSteady (put_job b j s).0
  put_job-IsSteady j s h =
      let (l, c, q, t) = put_job-frame j s in
      rw (l, c, q, put_job-store b j s)
        (record {
          leading = h.leading;
          running = h.running;
          queue = h.queue;
          keyed = put_db-keyed j s.store h.keyed;
        })

  pub put_job-get :
      (j : Job) (s : S b) (k : String)
      → b.storage.get_job (put_job b j s).0.store k
        ≡ b.storage.get_job (b.storage.put_job j s.store).0 k
  put_job-get j s k = ap (λ d. b.storage.get_job d k) (put_job-store b j s)

  -- A write of a job that is not queued, or is another one.
  pub put_job-Tends :
      (k : Watch) (j : Job) (s : S b)
      → (same j.id k.id ≡ true → is_queued j.state ≡ false)
      → Tends k s
      → Tends k (put_job b j s).0
  put_job-Tends k j s n h =
      let (l, c, q, t) = put_job-frame j s in
      record {
        steady = put_job-IsSteady j s h.steady;
        due =
            rw (q, t)
              (λ o j' e w. elim (Bool-cases (same j.id k.id)) [
                | inl here ↦
                    let off = n here in
                    let seen = sym (put_job-get j s k.id) ∙ e in
                    h.due o j' (ground (arith, b.storage.get_job-put_job s.store j k.id)) w
                | inr there ↦
                    let seen = sym (put_job-get j s k.id) ∙ e in
                    h.due o j' (ground (arith, b.storage.get_job-put_job s.store j k.id)) w
              ]);
      }

  pub put_job_failed-Tends :
      (k : Watch) (j : Job) (s : S b)
      → (put_job b j s).1 ≡ false
      → Tends k s
      → Tends k (put_job b j s).0
  put_job_failed-Tends k j s p h =
      let (l, c, q, t) = put_job-frame j s in
      record {
        steady = put_job-IsSteady j s h.steady;
        due = rw (q, t) (λ o j' e w. h.due o j' (sym (put_job_failed b j s k.id p).0 ∙ e) w);
      }
