-- ===== src/Tests/Commands.antt =====
-- Flags of the commands.
use distsched.Base.{String_discrete, ◌≡◌, refl, List, [], ◌∷◌, some, none, pos, All}
use distsched.Api.{JobState}
use distsched.Scheduler.State.{Member}
use distsched.Cmd.Show.{get_term, scheduler_rows, short_state, state_name, table_of, worker_rows}
use distsched.Cmd.{SubmitFlags, parse_members, parse_state, submit_params, to_int32}
use distsched.Cmd.Text.{is_space, trim_prefix, trim_space}
use distsched.Cmd.Members.{IsProper, parse_members-format}
use distsched.Queue.{Item}

abbrev members : List Member
members = record { id = "n1"; address = "a:1" } ∷ record { id = "n2"; address = "a=2" } ∷ []

proper : All IsProper members
unfolding is_space
proper = (
  record {
    id_plain = (refl, refl, refl, (refl, refl, refl, tt));
    id_there = refl;
    address_plain = (refl, refl, refl, (refl, refl, refl, (refl, refl, refl, tt)));
    address_there = refl;
  },
  (
    record {
      id_plain = (refl, refl, refl, (refl, refl, refl, tt));
      id_there = refl;
      address_plain = (refl, refl, refl, (refl, refl, refl, (refl, refl, refl, tt)));
      address_there = refl;
    },
    tt,
  ),
)

parse_members-format_example : parse_members "n1=a:1,n2=a=2" ≡ some members
parse_members-format_example = parse_members-format members proper

abbrev urgent : SubmitFlags
urgent = record {
  id = "";
  name = "";
  command = "true";
  args = [];
  priority = pos 2_147_483_648;
  depends_on = "";
  cron = "";
  after = pos 0;
  max_attempts = pos 0;
}

abbrev relaxed : SubmitFlags
relaxed = record urgent { priority = pos 1 }

-- The item that the ready queue has for a submission.
abbrev item_of : SubmitFlags → Item
item_of f = record { job_id = f.name; priority = (submit_params f).priority; created_at = pos 0 }

filter_parsed :
    (parse_state (λ s. s) " running " ≡ JobState.running)
    × (parse_state (λ s. s) "runnin" ≡ JobState.unspecified)
unfolding parse_state String_discrete trim_space distsched.Cmd.Text.trim_right
    distsched.Cmd.Text.trim_left is_space
filter_parsed = (refl, refl)

state_shown : short_state JobState.running ≡ "RUNNING"
unfolding short_state state_name trim_prefix
state_shown = refl

no_leader_shown :
    table_of (record { lease = none; schedulers = []; workers = [] })
    ≡ record { leader = "(none)"; term = 0; schedulers = []; workers = [] }
unfolding table_of scheduler_rows worker_rows get_term String_discrete
no_leader_shown = refl
