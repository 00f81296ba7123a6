-- ===== src/Tests/Graphs.antt =====
-- The search for a cycle over one stored job.
use distsched.Base.{
  ◌≡◌, refl, true, false, [], ◌∷◌, some, lookup, insert, elem, without, String_discrete,
}
use distsched.Scheduler.Replication.{S}
use distsched.Scheduler.Jobs.{
  add_jobs, neighbors, dfs, dfs_each, has_cycle_from, would_create_cycle,
}
use distsched.Tests.Memory.{memory, listing}
use distsched.Tests.Fixture.{backend, server, job}

abbrev holder : S backend
holder = record server { store = record { jobs = ("j1", job) ∷ []; workers = []; dead = [] } }

held : memory.list_jobs holder.store ≡ some (job ∷ [])
unfolding listing lookup String_discrete
held = refl

after_first : would_create_cycle backend "j2" ("j1" ∷ []) holder ≡ false
unfolding would_create_cycle has_cycle_from dfs dfs_each neighbors add_jobs insert lookup elem
    without listing String_discrete
after_first = refl

after_itself : would_create_cycle backend "j1" ("j1" ∷ []) holder ≡ true
unfolding would_create_cycle has_cycle_from dfs dfs_each neighbors add_jobs insert lookup elem
    without listing String_discrete
after_itself = refl
