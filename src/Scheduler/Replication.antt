-- ===== src/Scheduler/Replication.antt =====
-- internal/scheduler/server.go and internal/scheduler/cluster.go: durable writes, and the shipping of
-- what was written to the followers.
use distsched.Base.{
  ℕ, ◌+◌, Bool, true, false, List, [], ◌∷◌, ◌++◌, Option, none, some, String, ltb, leb,
  if◌then◌else◌, lookup, insert, map, length,
}
use distsched.Api.{
  Job, WorkerInfo, Mutation, upsert_job, upsert_worker, delete_job_id, unset_mutation,
  ReplicationEntry,
}
use distsched.Scheduler.State.{Backend, Server, leads}

-- The entry takes the next sequence number.
unfoldable pub append_repl : {Db : Type 0} → Mutation → Server Db → Server Db
append_repl m s =
    if leads s
    then record s {
      repl_seq = s.repl_seq + 1;
      repl_log = s.repl_log ++ record { seq = s.repl_seq + 1; mutation = m } ∷ [];
    }
    else s

-- Entries for a snapshot, numbered on from `n`.
unfoldable pub number_from : ℕ → List Mutation → List ReplicationEntry
number_from n [] = []
number_from n (m ∷ ms) = record { seq = n + 1; mutation = m } ∷ number_from (n + 1) ms

unfoldable pub unacked : ℕ → List ReplicationEntry → List ReplicationEntry
unacked acked [] = []
unacked acked (e ∷ es) = let rest = unacked acked es in if ltb acked e.seq then e ∷ rest else rest

abbrev pub or_zero : Option ℕ → ℕ
or_zero none = 0
or_zero (some n) = n

unfoldable pub entries_for_peer : {Db : Type 0} → String → Server Db → List ReplicationEntry
entries_for_peer peer s = unacked (or_zero (lookup peer s.peer_acked)) s.repl_log

unfoldable pub ack_peer : {Db : Type 0} → String → ℕ → Server Db → Server Db
ack_peer peer applied s =
    if leb applied 0
    then s
    else if ltb (or_zero (lookup peer s.peer_acked)) applied
    then record s { peer_acked = insert peer applied s.peer_acked }
    else s

module _ (b : Backend) where
  abbrev pub S : Type 0
  S = Server b.storage.Db

  unfoldable pub put_job : Job → S → S × Bool
  put_job j s =
      let (db, ok) = b.storage.put_job j s.store in
      if ok
      then (append_repl (upsert_job j) (record s { store = db }), true)
      else (record s { store = db }, false)

  unfoldable pub put_worker : WorkerInfo → S → S × Bool
  put_worker w s =
      let (db, ok) = b.storage.put_worker w s.store in
      if ok
      then (let s1 = append_repl (upsert_worker w) (record s { store = db }) in
          (record s1 { workers = insert w.id w s1.workers }, true))
      else (record s { store = db }, false)

  abbrev or_empty : {A : Type 0} → Option (List A) → List A
  or_empty none = []
  or_empty (some xs) = xs

  -- A listing that fails counts as empty.
  unfoldable pub seed_replication : S → S
  seed_replication s =
      let js = map upsert_job (or_empty (b.storage.list_jobs s.store)) in
      let ws = map upsert_worker (or_empty (b.storage.list_workers s.store)) in
      record s {
        repl_log = number_from 0 (js ++ ws);
        repl_seq = length (js ++ ws);
        peer_acked = [];
      }

  -- One entry on a follower. An error of the store is logged only, and an entry whose mutation is not
  -- set is passed over.
  unfoldable pub apply_entry : Mutation → S → S
  apply_entry (upsert_job j) s = record s { store = (b.storage.put_job j s.store).0 }
  apply_entry (upsert_worker w) s =
      let (db, ok) = b.storage.put_worker w s.store in
      if ok
      then record s { store = db; workers = insert w.id w s.workers }
      else record s { store = db }
  apply_entry unset_mutation s = s
  apply_entry (delete_job_id i) s = record s { store = (b.storage.delete_job i s.store).0 }

  -- The loop of `applyEntries`, with the highest sequence number so far.
  unfoldable pub apply_loop : ℕ → List ReplicationEntry → S → S × ℕ
  apply_loop last [] s = (s, last)
  apply_loop last (e ∷ es) s =
      apply_loop (if ltb last e.seq then e.seq else last) es (apply_entry e.mutation s)

  unfoldable pub apply_entries : List ReplicationEntry → S → S × ℕ
  apply_entries es s = apply_loop 0 es s
