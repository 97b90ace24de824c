-- ===== src/Hosting/Tests.antt =====
-- The theorems of the supervisor at concrete inputs.
use examples_service.Common.{◌≡◌, refl, none, some, List, [], ◌∷◌}
use examples_service.Common.Dict.{lookup, insert, erase, keys}
use examples_service.Common.Text.{split}
use examples_service.Hosting.Supervisor.{
  Launch, Event, launched, stop_asked, stop_run_asked, stop_keys, exited, startup_elapsed, initial,
  run, step, launch, find, update, finish_stops,
}
use examples_service.Hosting.Supervisor.Alive.{IsAlive}
use examples_service.Hosting.Supervisor.Laws.{table-IsAlive}

abbrev fraud : Launch
fraud = record {
  prepared = record {
    command = "node";
    args = "worker.js" ∷ [];
    env = [];
    cwd = "/srv";
    startup_timeout_ms = 5000;
  };
  framework = "custom";
  run_id = "r1";
  participant_id = "fraud";
  bootstrap_file_path = "/tmp/b.json";
  now = "2024-01-01T00:00:00.000Z";
}

abbrev history : List Event
history = launched fraud (some 7) ∷ startup_elapsed "r1:fraud" ∷ launched fraud (some 8) ∷ []

still_there : lookup "r1:fraud" (run history initial).processes ≡ some 0
unfolding run step launch lookup insert find update
still_there = refl

table-IsAlive_example : IsAlive "r1:fraud" 0 (run history initial)
table-IsAlive_example = table-IsAlive history "r1:fraud" 0 still_there

-- The exit of a child that was told to stop takes the entry of its successor away.
abbrev replaced : List Event
replaced =
    launched fraud (some 7)
    ∷ stop_asked "r1" "fraud"
    ∷ launched fraud (some 8)
    ∷ exited 0 (some 0) none
    ∷ []

successor_lost : lookup "r1:fraud" (run replaced initial).processes ≡ none
unfolding run step launch lookup insert erase find update finish_stops
successor_lost = refl

-- All processes of a run are asked to stop, and those of another run are not.
abbrev two_runs : List Event
two_runs =
    launched fraud (some 7)
    ∷ launched (record fraud { run_id = "r2" }) (some 8)
    ∷ stop_run_asked "r1"
    ∷ []

one_asked : (run two_runs initial).waiting ≡ ("r1:fraud", 0) ∷ []
unfolding run step launch lookup insert find update stop_keys keys split
one_asked = refl
