-- ===== src/Scheduler/Armed.antt =====
-- internal/scheduler: that a job is due after the calls that put it in the ready queue or take it out.
use distsched.Base.{
  ◌≡◌, inl, inr, ℤ, Bool, true, false, String, lookup-insert, erase, same, arith, Bool-cases, leb_ℤ,
  not, ◌||◌, pos,
}
use distsched.Api.{Job, Time, Duration, as_time}
use distsched.Store.{failed}
use distsched.Queue
use distsched.Queue.Refines.{push_refines, remove_refines}
use distsched.Queue.Awaits.{waits-push_self}
use distsched.Scheduler.State.{Backend, Reply, leads, require_leader}
use distsched.Scheduler.Replication.{S, put_job}
use distsched.Scheduler.Deps.{is_queued, enqueue_job, arm_enqueue, timer_fired}
use distsched.Scheduler.Keeps.{Found-cases}
use distsched.Scheduler.Due.{
  Watch, Due-armed, Due-fired, Due-pushed, Due-removed, NotQueued, IsDue, IsSteady, Tends,
  put_job-IsSteady, put_job-Tends,
}

same_eq : (x y : String) → same x y ≡ true → x ≡ y
same_eq x y h = ground arith

stays_open : (c l : Bool) → c ≡ false → l ≡ true → (c || not l) ≡ false
stays_open c l h e = ground arith

module _ (b : Backend) where
  abbrev pushed : String → ℤ → Time → S b → S b
  pushed id p t s = record s { queue = (Queue.push id p t s.queue).0 }

  abbrev pub dropped : String → S b → S b
  dropped id s = record s { queue = (Queue.remove id s.queue).0 }

  pub pushed-IsSteady :
      (id : String) (p : ℤ) (t : Time) (s : S b) → IsSteady b s → IsSteady b (pushed id p t s)
  pushed-IsSteady id p t s h = record {
    leading = h.leading;
    running = h.running;
    queue = (push_refines id p t s.queue h.queue).0;
    keyed = h.keyed;
  }

  -- The push makes the job `id` due, and every other stays so.
  pub pushed-Tends :
      (k : Watch) (id : String) (p : ℤ) (t : Time) (s : S b)
      → IsSteady b s
      → (same id k.id ≡ false → IsDue b k s.queue s.retry_timers s.store)
      → Tends b k (pushed id p t s)
  pushed-Tends k id p t s h due = record {
    steady = pushed-IsSteady id p t s h;
    due = λ o j e w. elim (Bool-cases (same id k.id)) [
      | inl here ↦ inl (waits-push_self id k.id p t s.queue h.queue here)
      | inr there ↦ Due-pushed id k.id p t s.queue s.retry_timers h.queue (due there o j e w)
    ];
  }

  -- A job that is no longer queued may leave the queue.
  pub dropped-Tends :
      (k : Watch) (id : String) (s : S b)
      → (same id k.id ≡ true → NotQueued b s.store k.id)
      → Tends b k s
      → Tends b k (dropped id s)
  dropped-Tends k id s off h = record {
    steady = record {
      leading = h.steady.leading;
      running = h.steady.running;
      queue = (remove_refines id s.queue h.steady.queue).0;
      keyed = h.steady.keyed;
    };
    due = λ o j e w. elim (Bool-cases (same id k.id)) [
      | inl here ↦ let no = off here j e in absurd cc
      | inr there ↦ Due-removed id k.id s.queue s.retry_timers h.steady.queue there (h.due o j e w)
    ];
  }

  -- A job that is not queued need not be due.
  pub spared :
      (k : Watch) (id : String) (s : S b)
      → NotQueued b s.store id
      → (same id k.id ≡ false → IsDue b k s.queue s.retry_timers s.store)
      → IsDue b k s.queue s.retry_timers s.store
  spared k id s off due o j e w = elim (Bool-cases (same id k.id)) [
    | inl here ↦ let at_k = same_eq id k.id here in let no = off j (rw at_k e) in absurd cc
    | inr there ↦ due there o j e w
  ]

  -- A handler behind `requireLeader`.
  pub led-Tends :
      {A : Type 0} (k : Watch) (s : S b) (r : S b × Reply A)
      → Tends b k s
      → Tends b k r.0
      → Tends b k (require_leader s r).0
  led-Tends k s r h g = elim (Bool-cases (leads s)) [
    | inl e ↦ rw (e, require_leader) g
    | inr e ↦ rw (e, require_leader) h
  ]

  -- Reading the job goes through.
  abbrev pub IsReadable : Type 0
  IsReadable = (d : b.storage.Db) (k : String) → b.storage.get_job d k ≡ failed → ⊥

  module _ (readable : IsReadable) where
    -- After the call, the job `id` is due if it is stored as queued.
    pub enqueue_job-Tends :
        (k : Watch) (id : String) (s : S b)
        → IsSteady b s
        → (same id k.id ≡ false → IsDue b k s.queue s.retry_timers s.store)
        → Tends b k (enqueue_job b id s)
    unfolding enqueue_job
    enqueue_job-Tends k id s h due =
        let go = stays_open s.closed (leads s) h.running h.leading in
        elim (Found-cases b (b.storage.get_job s.store id)) [
          | inl (j, g) ↦ elim (Bool-cases (is_queued j.state)) [
            | inl q ↦
                let named = h.keyed id j g in
                rw (go, enqueue_job)
                  (rw (g, enqueue_job)
                    (rw (q, enqueue_job)
                      (pushed-Tends k j.id j.priority (as_time j.created_at) s h
                        (λ x. due (rw named at x)))))
            | inr q ↦
                rw (go, enqueue_job)
                  (rw (g, enqueue_job)
                    (rw (q, enqueue_job)
                      (record { steady = h; due = spared k id s (λ j' e. ground arith) due })))
          ]
          | inr (inl g) ↦
              rw (go, enqueue_job)
                (rw (g, enqueue_job)
                  (record { steady = h; due = spared k id s (λ j' e. absurd (ground arith)) due }))
          | inr (inr g) ↦ absurd (readable s.store id g)
        ]

    pub arm_enqueue-Tends :
        (k : Watch) (id : String) (delay : Duration) (s : S b)
        → IsSteady b s
        → (same id k.id ≡ false → IsDue b k s.queue s.retry_timers s.store)
        → Tends b k (arm_enqueue b id delay s)
    unfolding arm_enqueue
    arm_enqueue-Tends k id delay s h due = elim (Bool-cases (leb_ℤ delay (pos 0))) [
      | inl now ↦ rw (now, arm_enqueue) (enqueue_job-Tends k id s h due)
      | inr later ↦
          rw (later, arm_enqueue)
            (record {
              steady = h;
              due = λ o j e w. elim (Bool-cases (same id k.id)) [
                | inl here ↦ inr (delay, ground (arith, lookup-insert id k.id delay s.retry_timers))
                | inr there ↦ Due-armed id k.id delay s.queue s.retry_timers (due there o j e w)
              ];
            })
    ]

    -- The timer of the job `id` fires.
    pub timer_fired-Tends :
        (k : Watch) (id : String) (s : S b) → Tends b k s → Tends b k (timer_fired b id s)
    unfolding timer_fired
    timer_fired-Tends k id s h =
        enqueue_job-Tends k id (record s { retry_timers = erase id s.retry_timers }) h.steady
          (λ there o j e w. Due-fired id k.id s.queue s.retry_timers there (h.due o j e w))

    -- A queued job is written, and armed where the write went through.
    pub written-Tends :
        (k : Watch) (j : Job) (s : S b)
        → Tends b k s
        → same j.id k.id ≡ false
        → Tends b k (put_job b j s).0
    written-Tends k j s h there = put_job-Tends b k j s (λ here. absurd (ground arith)) h

    pub put_armed-Tends :
        (k : Watch) (j : Job) (delay : Duration) (s : S b)
        → Tends b k s
        → Tends b k (arm_enqueue b j.id delay (put_job b j s).0)
    put_armed-Tends k j delay s h =
        arm_enqueue-Tends k j.id delay (put_job b j s).0 (put_job-IsSteady b j s h.steady)
          (λ there. (written-Tends k j s h there).due)
