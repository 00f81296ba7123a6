-- ===== src/Tests/Queues.antt =====
-- A queue of three jobs, of which the last one pushed goes first.
use distsched.Base.{◌≡◌, pos, negsuc, not}
use distsched.Queue
use distsched.Queue.{Item, PriorityQueue}
use distsched.Queue.Index.{view}
use distsched.Queue.Ends.{IsQueue}
use distsched.Queue.Waiting.{with_item, without_item, waits, Popped}
use distsched.Queue.Refines.{push_refines, pop_refines, remove_refines, empty-IsQueue}

abbrev one : PriorityQueue
one = (Queue.push "j1" (pos 0) (pos 5) Queue.empty).0

abbrev two : PriorityQueue
two = (Queue.push "j2" (negsuc 2) (pos 6) one).0

abbrev three : PriorityQueue
three = (Queue.push "j3" (pos 9) (pos 7) two).0

two-IsQueue : IsQueue two
two-IsQueue =
    (push_refines "j2" (negsuc 2) (pos 6) one
      (push_refines "j1" (pos 0) (pos 5) Queue.empty empty-IsQueue).0).0

three-IsQueue : IsQueue three
three-IsQueue = (push_refines "j3" (pos 9) (pos 7) two two-IsQueue).0

push_refines_example :
    IsQueue three
    × (view three
        ≡ with_item (record { job_id = "j3"; priority = pos 9; created_at = pos 7 }) (view two))
    × ((Queue.push "j3" (pos 9) (pos 7) two).1 ≡ not (waits (view two) "j3"))
push_refines_example = push_refines "j3" (pos 9) (pos 7) two two-IsQueue

pop_refines_example :
    IsQueue (Queue.pop three).0 × Popped (view three) (view (Queue.pop three).0) (Queue.pop three).1
pop_refines_example = pop_refines three three-IsQueue

remove_refines_example :
    IsQueue (Queue.remove "j1" three).0
    × (view (Queue.remove "j1" three).0 ≡ without_item "j1" (view three))
    × ((Queue.remove "j1" three).1 ≡ waits (view three) "j1")
remove_refines_example = remove_refines "j1" three three-IsQueue
