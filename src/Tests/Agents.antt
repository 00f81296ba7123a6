-- ===== src/Tests/Agents.antt =====
-- A worker with room for two tasks.
use distsched.Base.{◌≡◌, refl, pos, true, [], elem, lookup}
use distsched.Worker.{Agent, try_start}

abbrev idle_agent : Agent
idle_agent = record { capacity = pos 2; running = []; done = [] }

starts : (try_start "t1" idle_agent).1 ≡ true
unfolding try_start elem lookup
starts = refl
