-- ===== src/Worker/Executor.antt =====
-- internal/worker/executor.go: a task is run as a subprocess. A Go string that holds output is a list
-- of bytes.
use distsched.Base.{
  ℕ, List, [], ◌∷◌, ◌++◌, Option, none, some, String, pos, length, take, ltb, if◌then◌else◌, ltb_ℤ,
  same, cat,
}
use distsched.Api.{Duration, TaskResult, TaskSpec, as_duration}

abbrev pub max_output_bytes : ℕ
max_output_bytes = 8192

-- "...(truncated)"
abbrev pub suffix : List ℕ
suffix = 46 ∷ 46 ∷ 46 ∷ 40 ∷ 116 ∷ 114 ∷ 117 ∷ 110 ∷ 99 ∷ 97 ∷ 116 ∷ 101 ∷ 100 ∷ 41 ∷ []

unfoldable pub truncate : List ℕ → List ℕ
truncate s = if ltb max_output_bytes (length s) then take max_output_bytes s ++ suffix else s

-- What `exec.CommandContext` is given; `env` is `none` where the process inherits the agent's, and
-- what is added to it otherwise.
pub record Command : Type 0 where
  pub path : String
  pub args : List String
  pub env : Option (List String)
  pub timeout : Option Duration

abbrev pub assignments : List (String × String) → List String
assignments [] = []
assignments ((k, v) ∷ kvs) = cat k (cat "=" v) ∷ assignments kvs

abbrev pub env_of : List (String × String) → Option (List String)
env_of [] = none
env_of (kv ∷ kvs) = some (assignments (kv ∷ kvs))

unfoldable pub command_of : TaskSpec → Command
command_of spec = record {
  path = spec.command;
  args = spec.args;
  env = env_of spec.env;
  timeout =
      if ltb_ℤ (pos 0) (as_duration spec.timeout) then some (as_duration spec.timeout) else none;
}

-- `execute`, over what running a process gives: its output, and the text of its error if it has one.
unfoldable pub execute :
    (Command → List ℕ × Option String) → Option TaskSpec → TaskResult × List ℕ × String
execute run none = (TaskResult.failed, [], "empty command")
execute run (some spec) =
    let (output, e) = run (command_of spec) in
    let out = truncate output in
    if same spec.command "" then (TaskResult.failed, [], "empty command") else elim e [
      | none ↦ (TaskResult.succeeded, out, "")
      | some msg ↦ (TaskResult.failed, out, msg)
    ]
