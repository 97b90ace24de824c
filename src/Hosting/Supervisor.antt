-- ===== src/Hosting/Supervisor.antt =====
-- src/hosting/launch-supervisor.ts as a machine: the calls of the service, and what happens to the
-- children. The records are shared objects, known by a number each: the table of the processes and
-- the callbacks of a child refer to the same record.
mod Table
pub mod Alive
pub mod Laws
pub mod Launching
pub mod Repeated
unfoldable pub use Table.*
use examples_service.Common.{
  ℕ, suc, String, ◌<>◌, Bool, true, false, not, ◌&&◌, Option, none, some, List, [], ◌∷◌, ◌++◌, map,
}
use examples_service.Common.{◌==◌, nat_eq, string_eq, if◌then◌else◌, filter, any, starts_with}
use examples_service.Common.Dict.{Dict, lookup, erase, insert, keys, values}
use examples_service.Common.Text.{split}

-- `launch` from the spawn on; `pid` is what the child gets.
abbrev pub spawn_process : Launch → Option ℕ → State → State × ℕ
spawn_process l pid s =
    let key = make_key l.run_id l.participant_id in
    (
      emit
          (spawn s.next l.prepared.command l.prepared.args l.prepared.cwd
            (insert "MACP_BOOTSTRAP_FILE" l.bootstrap_file_path l.prepared.env))
          (record s {
            objects = (s.next, started_process l pid) ∷ s.objects;
            next = suc s.next;
            processes = insert key s.next s.processes;
          }),
      s.next,
    )

abbrev pub launch_over : Launch → Option ℕ → Option (ℕ × SupervisedProcess) → State → State × ℕ
launch_over l pid none s = spawn_process l pid s
launch_over l pid (some (id, r)) s =
    if has_pid r.pid && not (is_stopped r.health_status) then (s, id) else spawn_process l pid s

unfoldable pub launch : Launch → Option ℕ → State → State × ℕ
launch l pid s = launch_over l pid (get_entry (make_key l.run_id l.participant_id) s) s

abbrev health_of : Option (ℕ × SupervisedProcess) → HealthStatus
health_of none = unknown
health_of (some (id, r)) = r.health_status

unfoldable pub health : String → String → State → HealthStatus
health run participant s = health_of (get_entry (make_key run participant) s)

-- `stop` up to its wait.
abbrev pub stop_entry : String → Option (ℕ × SupervisedProcess) → State → State
stop_entry key none s = s
stop_entry key (some (id, r)) s = emit (kill id "SIGTERM") (record s {
  objects = update id (with_health stopped) s.objects;
  waiting = s.waiting ++ ((key, id) ∷ []);
})

abbrev pub stop : String → String → State → State
stop run participant s = let key = make_key run participant in stop_entry key (get_entry key s) s

-- `processKey.split(':')[1]`
abbrev pub second_part : List String → String
second_part (x ∷ y ∷ rest) = y
second_part _ = "undefined"

unfoldable pub stop_keys : String → List String → State → State
stop_keys run [] s = s
stop_keys run (k ∷ ks) s =
    stop_keys run ks
      (if starts_with k (run <> ":") then stop run (second_part (split ":" k)) s else s)

abbrev pub stop_run : String → State → State
stop_run run s = stop_keys run (keys s.processes) s

-- The rest of `stop`, when its wait is over.
abbrev pub finish_stop : String → String → State → State
finish_stop key path s = emit (unlink path) (record s { processes = erase key s.processes })

unfoldable pub finish_stops : ℕ → String → List (String × ℕ) → State → State
finish_stops id path [] s = s
finish_stops id path ((key, j) ∷ ws) s =
    finish_stops id path ws (if j == id then finish_stop key path s else s)

abbrev pub still_waiting : ℕ → List (String × ℕ) → List (String × ℕ)
still_waiting id = filter (λ (key, j). not (j == id))

abbrev pub on_exit : ℕ → Option ℕ → Option String → Option SupervisedProcess → State → State
on_exit id code signal none s = s
on_exit id code signal (some r) s = finish_stops id r.bootstrap_file_path s.waiting (
    emit (unlink r.bootstrap_file_path) (record s {
      objects =
          update id (λ q. record q { health_status = stopped; exit = some (code, signal) })
            s.objects;
      processes = erase r.key s.processes;
      waiting = still_waiting id s.waiting;
    }))

abbrev pub on_error : ℕ → Option SupervisedProcess → State → State
on_error id none s = s
on_error id (some r) s = record s {
  objects = update id (with_health unhealthy) s.objects;
  processes = erase r.key s.processes;
}

-- One call of `stop` less.
unfoldable pub without_one : ℕ → List (String × ℕ) → List (String × ℕ)
without_one id [] = []
without_one id ((key, j) ∷ ws) =
    let rest = without_one id ws in if j == id then ws else (key, j) ∷ rest

-- The timer of `stop`, which an exit clears.
abbrev pub on_stop_timeout : String → ℕ → Option SupervisedProcess → State → State
on_stop_timeout key id none s = s
on_stop_timeout key id (some r) s =
    if any (λ (k, j). k == key && j == id) s.waiting
    then finish_stop key r.bootstrap_file_path
        (emit (kill id "SIGKILL") (record s { waiting = without_one id s.waiting }))
    else s

-- The timer of `setupStartupTimeout`.
abbrev pub on_startup : Option (ℕ × SupervisedProcess) → State → State
on_startup none s = s
on_startup (some (id, r)) s =
    if is_starting r.health_status
    then record s { objects = update id (with_health healthy) s.objects }
    else s

abbrev pub shut_down_entry : Option SupervisedProcess → ℕ → List Effect
shut_down_entry none id = []
shut_down_entry (some r) id = kill id "SIGTERM" ∷ unlink r.bootstrap_file_path ∷ []

unfoldable pub shut_down_all : List ℕ → State → List Effect
shut_down_all [] s = []
shut_down_all (id ∷ ids) s = shut_down_entry (find id s.objects) id ++ shut_down_all ids s

-- `onModuleDestroy`
abbrev pub shut_down : State → State
shut_down s = record s {
  effects = s.effects ++ shut_down_all (values s.processes) s;
  processes = [];
}

pub data Event : Type 0 where
  launched : Launch → Option ℕ → Event
  stop_asked : String → String → Event
  stop_run_asked : String → Event
  exited : ℕ → Option ℕ → Option String → Event
  errored : ℕ → Event
  stop_timed_out : String → ℕ → Event
  startup_elapsed : String → Event
  destroyed : Event

unfoldable pub step : Event → State → State
step (launched l pid) s = (launch l pid s).0
step (stop_asked run participant) s = stop run participant s
step (stop_run_asked run) s = stop_run run s
step (exited id code signal) s = on_exit id code signal (find id s.objects) s
step (errored id) s = on_error id (find id s.objects) s
step (stop_timed_out key id) s = on_stop_timeout key id (find id s.objects) s
step (startup_elapsed key) s = on_startup (get_entry key s) s
step destroyed s = shut_down s

unfoldable pub run : List Event → State → State
run [] s = s
run (e ∷ es) s = run es (step e s)
