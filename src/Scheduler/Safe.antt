-- ===== src/Scheduler/Safe.antt =====
-- internal/scheduler: the predicates on the store and on its changes.
use distsched.Base.{ℕ, ◌≤◌, ◌<◌, ◌≡◌, refl, ◌∙◌, true, false, String}
use distsched.Api.{Job, JobState}
use distsched.Retry.{max_attempts}
use distsched.Store.{found}
use distsched.Store.Interface.{Storage}
use distsched.Scheduler.Deps.{terminal}

-- A job that waits has an attempt left; one that runs is within the attempts of its policy.
abbrev pub AttemptOk : JobState → ℕ → ℕ → Type 0
AttemptOk JobState.pending n most = n < most
AttemptOk JobState.queued n most = n < most
AttemptOk JobState.running n most = n ≤ most
AttemptOk _ n most = Unit {0}

module _ (st : Storage) where
  pub record Fits (d : st.Db) (j : Job) : Type 0 where
    pub attempts : AttemptOk j.state j.attempt (max_attempts j.retry_policy)
    pub filed : j.state ≡ JobState.failed → st.is_dead_lettered d j.id ≡ true

  -- Every stored job has its key for an ID, respects its policy, and has failed only if it is in the
  -- dead-letter bucket.
  pub record Inv (d : st.Db) : Type 0 where
    pub keyed : (k : String) (j : Job) → st.get_job d k ≡ found j → j.id ≡ k
    pub fits : (k : String) (j : Job) → st.get_job d k ≡ found j → Fits d j

  -- No job that has ended is changed.
  abbrev pub Kept : st.Db → st.Db → Type 0
  Kept d d' =
      (k : String) (j : Job)
      → st.get_job d k ≡ found j
      → terminal j.state ≡ true
      → st.get_job d' k ≡ found j

  -- No job is new, and none has other dependencies than before.
  abbrev pub Stays : st.Db → st.Db → Type 0
  Stays d d' =
      (k : String) (j' : Job)
      → st.get_job d' k ≡ found j'
      → (j : Job) × (st.get_job d k ≡ found j) × (j'.depends_on ≡ j.depends_on)

  pub record Safe (d d' : st.Db) : Type 0 where
    pub inv : Inv d'
    pub kept : Kept d d'
    pub stays : Stays d d'

  -- A job is stored under the ID of `j` that has not ended and has the dependencies of `j`.
  abbrev pub IsLive : st.Db → Job → Type 0
  IsLive d j =
      (i : Job) × (st.get_job d j.id ≡ found i)
      × (terminal i.state ≡ false)
      × (i.depends_on ≡ j.depends_on)

  pub Safe-refl : (d : st.Db) → Inv d → Safe d d
  Safe-refl d i = record { inv = i; kept = λ k j h t. h; stays = λ k j h. (j, h, refl) }

  pub Safe-trans : (d e f : st.Db) → Safe d e → (Inv e → Safe e f) → Safe d f
  Safe-trans d e f s t = record {
    inv = (t s.inv).inv;
    kept = λ k j h w. (t s.inv).kept k j (s.kept k j h w) w;
    stays = λ k j h.
        let (j1, h1, e1) = (t s.inv).stays k j h in
        let (j0, h0, e0) = s.stays k j1 h1 in (j0, h0, e1 ∙ e0);
  }
