-- ===== src/Scheduler/Idle.antt =====
-- internal/scheduler: a server that has stepped down.
use distsched.Base.{
  ◌≡◌, refl, ap, sym, ◌∙◌, false, true, not, ◌||◌, List, [], ◌∷◌, none, some, String, arith, Bool,
  erase,
}
use distsched.Scheduler.State.{Backend, leads}
use distsched.Scheduler.Replication.{S}
use distsched.Scheduler.Deps.{enqueue_job, timer_fired}
use distsched.Scheduler.Jobs.{submit_job, cancel_job}
use distsched.Scheduler.Dispatch.{poll_task, report_task}
use distsched.Scheduler.Recovery.{reaper_tick, on_step_down, clear_scheduling_state}
use distsched.Scheduler.Workers.{register_worker, heartbeat}
use distsched.Scheduler.History.{
  Call, submit, cancel, poll, report, register, beat, reap, timer, serve, run,
}
use distsched.Scheduler.Refuses.{led_only}

-- A call of a client or of a worker, a tick of the reaper, or a timer that fires.
abbrev IsOrdinary : Call → Type 0
IsOrdinary (submit j now) = Unit {0}
IsOrdinary (cancel id now) = Unit {0}
IsOrdinary (poll w n now) = Unit {0}
IsOrdinary (report t r msg now) = Unit {0}
IsOrdinary (register w now) = Unit {0}
IsOrdinary (beat w ids now) = Unit {0}
IsOrdinary (reap now) = Unit {0}
IsOrdinary (timer id) = Unit {0}
IsOrdinary _ = ⊥

abbrev pub AllOrdinary : List Call → Type 0
AllOrdinary [] = Unit {0}
AllOrdinary (c ∷ cs) = IsOrdinary c × AllOrdinary cs

closed_off : (c l : Bool) → l ≡ false → (c || not l) ≡ true
closed_off c l h = ground arith

module _ (b : Backend) where
  fires_idly :
      (id : String) (s : S b) → leads s ≡ false → s.retry_timers ≡ [] → timer_fired b id s ≡ s
  unfolding timer_fired enqueue_job erase
  fires_idly id s h t =
      rw (closed_off s.closed (leads s) h, enqueue_job)
        (ap (λ ts. record s { retry_timers = erase id ts }) t
          ∙ ap (λ ts. record s { retry_timers = ts }) (sym t))

  serves_idly :
      (c : Call) (s : S b) → IsOrdinary c → leads s ≡ false → s.retry_timers ≡ [] → serve b c s ≡ s
  unfolding serve submit_job cancel_job poll_task report_task register_worker heartbeat reaper_tick
  serves_idly (submit none now) s o h t = ap (λ r. r.0) (led_only b s _ h)
  serves_idly (submit (some j) now) s o h t = ap (λ r. r.0) (led_only b s _ h)
  serves_idly (cancel id now) s o h t = ap (λ r. r.0) (led_only b s _ h)
  serves_idly (poll w n now) s o h t = ap (λ r. r.0) (led_only b s _ h)
  serves_idly (report task_id r msg now) s o h t = ap (λ r. r.0) (led_only b s _ h)
  serves_idly (register none now) s o h t = ap (λ r. r.0) (led_only b s _ h)
  serves_idly (register (some w) now) s o h t = ap (λ r. r.0) (led_only b s _ h)
  serves_idly (beat w ids now) s o h t = ap (λ r. r.0) (led_only b s _ h)
  serves_idly (reap now) s o h t = rw (h, reaper_tick) refl
  serves_idly (timer id) s o h t = fires_idly id s h t
  serves_idly (Call.vote e t' c) s o h t = elim o [ ]
  serves_idly (Call.replicated e p r) s o h t = elim o [ ]
  serves_idly (Call.stand e) s o h t = elim o [ ]
  serves_idly (Call.counted e el p rest r) s o h t = elim o [ ]
  serves_idly (Call.lead now) s o h t = elim o [ ]
  serves_idly Call.step_down s o h t = elim o [ ]

  runs_idly :
      (cs : List Call) (s : S b)
      → AllOrdinary cs
      → leads s ≡ false
      → s.retry_timers ≡ []
      → run b cs s ≡ s
  unfolding run
  runs_idly [] s o h t = refl
  runs_idly (c ∷ cs) s o h t = ap (run b cs) (serves_idly c s o.0 h t) ∙ runs_idly cs s o.1 h t

  -- A server that has lost its leadership and has stepped down stays exactly as the step-down left it,
  -- its store included, through any sequence of calls of clients and workers, ticks of the reaper and
  -- timers that still fire.
  pub stays_idle :
      (cs : List Call) (s : S b)
      → leads s ≡ false
      → AllOrdinary cs
      → run b cs (on_step_down b s) ≡ on_step_down b s
  unfolding on_step_down clear_scheduling_state
  stays_idle cs s h o = runs_idly cs (on_step_down b s) o h refl
