-- ===== src/Scheduler/Converges.antt =====
-- internal/scheduler/server.go and cluster.go: the jobs of a follower that applies the leader's log.
use distsched.Base.{
  ℕ, ◌≡◌, refl, ap, sym, ◌∙◌, ◌⊎◌, inl, inr, true, List, [], ◌∷◌, ◌++◌, String, arith, same,
  if◌then◌else◌, Bool-cases, ltb,
}
use distsched.Api.{
  Job, Mutation, ReplicationEntry, delete_job_id, unset_mutation, upsert_job, upsert_worker,
}
use distsched.Store.{Found, found, not_found}
use distsched.Scheduler.State.{Backend}
use distsched.Scheduler.Replication.{S, apply_entry, apply_loop}

-- What the entries make of the job under a key.
abbrev pub replayed_one : String → Mutation → Found Job → Found Job
replayed_one k (upsert_job j) o = if same j.id k then found j else o
replayed_one k (upsert_worker w) o = o
replayed_one k unset_mutation o = o
replayed_one k (delete_job_id i) o = if same i k then not_found else o

unfoldable pub replayed : String → List ReplicationEntry → Found Job → Found Job
replayed k [] o = o
replayed k (e ∷ es) o = replayed k es (replayed_one k e.mutation o)

pub replayed-append :
    (k : String) (xs ys : List ReplicationEntry) (o : Found Job)
    → replayed k (xs ++ ys) o ≡ replayed k ys (replayed k xs o)
unfolding replayed
replayed-append k [] ys o = refl
replayed-append k (e ∷ es) ys o = replayed-append k es ys (replayed_one k e.mutation o)

-- The entries decide on the job under a key, or leave it alone.
abbrev Decides : String → List ReplicationEntry → Type 0
Decides k es = (o p : Found Job) → replayed k es o ≡ replayed k es p

abbrev Leaves : String → List ReplicationEntry → Type 0
Leaves k es = (o : Found Job) → replayed k es o ≡ o

one_decides :
    (k : String) (m : Mutation)
    → ((o p : Found Job) → replayed_one k m o ≡ replayed_one k m p)
      ⊎ ((o : Found Job) → replayed_one k m o ≡ o)
one_decides k (upsert_job j) = elim (Bool-cases (same j.id k)) [
  | inl e ↦ inl (λ o p. rw (e) refl)
  | inr e ↦ inr (λ o. rw (e) refl)
]
one_decides k (upsert_worker w) = inr (λ o. refl)
one_decides k unset_mutation = inr (λ o. refl)
one_decides k (delete_job_id i) = elim (Bool-cases (same i k)) [
  | inl e ↦ inl (λ o p. rw (e) refl)
  | inr e ↦ inr (λ o. rw (e) refl)
]

decides : (k : String) (es : List ReplicationEntry) → Decides k es ⊎ Leaves k es
unfolding replayed
decides k [] = inr (λ o. refl)
decides k (e ∷ es) = elim (decides k es) [
  | inl d ↦ inl (λ o p. d (replayed_one k e.mutation o) (replayed_one k e.mutation p))
  | inr l ↦ elim (one_decides k e.mutation) [
    | inl d ↦ inl (λ o p. ap (replayed k es) (d o p))
    | inr m ↦ inr (λ o. l (replayed_one k e.mutation o) ∙ m o)
  ]
]

replayed_again :
    (k : String) (es : List ReplicationEntry) (o : Found Job)
    → replayed k es (replayed k es o) ≡ replayed k es o
replayed_again k es o = elim (decides k es) [
  | inl d ↦ d (replayed k es o) o
  | inr l ↦ l (replayed k es o)
]

-- A part of the log that is sent again does no harm.
pub replayed-overlap :
    (k : String) (xs ys zs : List ReplicationEntry) (o : Found Job)
    → replayed k (ys ++ zs) (replayed k (xs ++ ys) o) ≡ replayed k (xs ++ (ys ++ zs)) o
replayed-overlap k xs ys zs o =
    replayed-append k ys zs (replayed k (xs ++ ys) o)
    ∙ ap (λ p. replayed k zs (replayed k ys p)) (replayed-append k xs ys o)
    ∙ ap (replayed k zs) (replayed_again k ys (replayed k xs o))
    ∙ sym (replayed-append k ys zs (replayed k xs o))
    ∙ sym (replayed-append k xs (ys ++ zs) o)

module _ (b : Backend) where
  -- The store takes every write.
  abbrev pub IsReliable : Type 0
  IsReliable =
      ((j : Job) (d : b.storage.Db) → (b.storage.put_job j d).1 ≡ true)
      × ((i : String) (d : b.storage.Db) → (b.storage.delete_job i d).1 ≡ true)

  apply_entry-replayed :
      (m : Mutation) (f : S b) (k : String)
      → IsReliable
      → b.storage.get_job (apply_entry b m f).store k
        ≡ replayed_one k m (b.storage.get_job f.store k)
  unfolding apply_entry
  apply_entry-replayed (upsert_job j) f k h =
      ground (arith, h.0 j f.store, b.storage.get_job-put_job f.store j k)
  apply_entry-replayed (upsert_worker w) f k h =
      ground (arith, b.storage.get_job-put_worker f.store w k)
  apply_entry-replayed unset_mutation f k h = refl
  apply_entry-replayed (delete_job_id i) f k h =
      ground (arith, h.1 i f.store, b.storage.get_job-delete_job f.store i k)

  pub apply_loop-replayed :
      (es : List ReplicationEntry) (last : ℕ) (f : S b) (k : String)
      → IsReliable
      → b.storage.get_job (apply_loop b last es f).0.store k
        ≡ replayed k es (b.storage.get_job f.store k)
  unfolding apply_loop replayed
  apply_loop-replayed [] last f k h = refl
  apply_loop-replayed (e ∷ es) last f k h =
      apply_loop-replayed es (if ltb last e.seq then e.seq else last) (apply_entry b e.mutation f) k
        h
      ∙ ap (replayed k es) (apply_entry-replayed e.mutation f k h)
