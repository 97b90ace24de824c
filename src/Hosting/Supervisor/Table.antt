-- ===== src/Hosting/Supervisor/Table.antt =====
-- The state of src/hosting/launch-supervisor.ts: the records, the table, and what the calls do outside.
use examples_service.Common.{
  ℕ, String, ◌<>◌, Bool, true, false, not, Option, none, some, List, [], ◌∷◌, ◌++◌,
}
use examples_service.Common.{◌==◌, nat_eq, string_eq, if◌then◌else◌}
use examples_service.Common.Dict.{Dict, lookup}

pub data HealthStatus : Type 0 where
  starting healthy unhealthy stopped unknown : HealthStatus

pub record PreparedLaunch : Type 0 where
  pub command : String
  pub args : List String
  pub env : Dict String
  pub cwd : String
  pub startup_timeout_ms : ℕ

-- `exit` has the code and the signal. `key` is what the callbacks of the child keep.
pub record SupervisedProcess : Type 0 where
  pub key : String
  pub run_id : String
  pub participant_id : String
  pub pid : Option ℕ
  pub framework : String
  pub launched_at : String
  pub command : String
  pub args : List String
  pub bootstrap_file_path : String
  pub health_status : HealthStatus
  pub exit : Option (Option ℕ × Option String)

pub data Effect : Type 0 where
  spawn : ℕ → String → List String → String → Dict String → Effect
  kill : ℕ → String → Effect
  unlink : String → Effect

-- `waiting` lists the calls of `stop` that wait for an exit, by key and record.
pub record State : Type 0 where
  pub objects : List (ℕ × SupervisedProcess)
  pub next : ℕ
  pub processes : Dict ℕ
  pub waiting : List (String × ℕ)
  pub effects : List Effect

abbrev pub initial : State
initial = record { objects = []; next = 0; processes = []; waiting = []; effects = [] }

unfoldable pub find : ℕ → List (ℕ × SupervisedProcess) → Option SupervisedProcess
find id [] = none
find id ((j, r) ∷ rs) = if j == id then some r else find id rs

unfoldable pub update :
    ℕ
    → (SupervisedProcess → SupervisedProcess)
    → List (ℕ × SupervisedProcess)
    → List (ℕ × SupervisedProcess)
update id f [] = []
update id f ((j, r) ∷ rs) =
    let rest = update id f rs in if j == id then (j, f r) ∷ rest else (j, r) ∷ rest

abbrev pub make_key : String → String → String
make_key run participant = run <> ":" <> participant

abbrev pub is_stopped : HealthStatus → Bool
is_stopped stopped = true
is_stopped _ = false

abbrev pub is_starting : HealthStatus → Bool
is_starting starting = true
is_starting _ = false

-- `child.pid`, which no child has as 0.
abbrev pub has_pid : Option ℕ → Bool
has_pid none = false
has_pid (some n) = not (n == 0)

abbrev pub with_health : HealthStatus → SupervisedProcess → SupervisedProcess
with_health h r = record r { health_status = h }

abbrev pub emit : Effect → State → State
emit e s = record s { effects = s.effects ++ (e ∷ []) }

abbrev pub paired : ℕ → Option SupervisedProcess → Option (ℕ × SupervisedProcess)
paired id none = none
paired id (some r) = some (id, r)

-- The record in the table.
abbrev pub entry_of : Option ℕ → State → Option (ℕ × SupervisedProcess)
entry_of none s = none
entry_of (some id) s = paired id (find id s.objects)

abbrev pub get_entry : String → State → Option (ℕ × SupervisedProcess)
get_entry key s = entry_of (lookup key s.processes) s

pub record Launch : Type 0 where
  pub prepared : PreparedLaunch
  pub framework : String
  pub run_id : String
  pub participant_id : String
  pub bootstrap_file_path : String
  pub now : String

abbrev pub started_process : Launch → Option ℕ → SupervisedProcess
started_process l pid = record {
  key = make_key l.run_id l.participant_id;
  run_id = l.run_id;
  participant_id = l.participant_id;
  pid = pid;
  framework = l.framework;
  launched_at = l.now;
  command = l.prepared.command;
  args = l.prepared.args;
  bootstrap_file_path = l.bootstrap_file_path;
  health_status = starting;
  exit = none;
}
