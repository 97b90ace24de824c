-- ===== src/Hosting/Supervisor/Laws.antt =====
-- The table of the processes holds no child that has ended.
use examples_service.Common.{ℕ, ◌≡◌, refl, String, inl, inr}
use examples_service.Common.{
  Option, none, some, List, [], ◌∷◌, ◌==◌, nat_eq, string_eq, Bool-cases, starts_with, ◌<>◌, ◌&&◌,
  any,
}
use examples_service.Common.Dict.{keys, lookup}
use examples_service.Hosting.Supervisor.{
  SupervisedProcess, State, Event, launched, stop_asked, stop_run_asked, exited, errored,
  stop_timed_out, startup_elapsed, destroyed,
}
use examples_service.Hosting.Supervisor.{
  shut_down, initial, find, step, run, launch, make_key, is_starting, stopped, healthy, unhealthy,
  with_health, stop_entry, stop_keys, finish_stop, finish_stops, on_exit, on_error, on_stop_timeout,
  on_startup, get_entry,
}
use examples_service.Hosting.Supervisor.Alive.{
  IsAlive, IsSound, IsSound-of, IsAlive-same, erase-IsSound, launch_over-IsSound, update-IsSound,
  ended-IsSound,
}

stop_entry-IsSound :
    (key : String) (o : Option (ℕ × SupervisedProcess)) (s : State)
    → IsSound s
    → IsSound (stop_entry key o s)
stop_entry-IsSound key none s sound = sound
stop_entry-IsSound key (some (id, r)) s sound =
    update-IsSound id (with_health stopped) s (stop_entry key (some (id, r)) s) (λ q. (refl, refl))
      refl refl refl sound

stop_keys-IsSound :
    (name : String) (ks : List String) (s : State) → IsSound s → IsSound (stop_keys name ks s)
unfolding stop_keys
stop_keys-IsSound name [] s sound = sound
stop_keys-IsSound name (k ∷ ks) s sound = elim (Bool-cases (starts_with k (name <> ":"))) [
  | inl e ↦ rw e (stop_keys-IsSound name ks _ (stop_entry-IsSound _ _ s sound))
  | inr e ↦ rw e (stop_keys-IsSound name ks s sound)
]

finish_stops-IsSound :
    (id : ℕ) (path : String) (ws : List (String × ℕ)) (s : State)
    → IsSound s
    → IsSound (finish_stops id path ws s)
unfolding finish_stops
finish_stops-IsSound id path [] s sound = sound
finish_stops-IsSound id path ((key, j) ∷ ws) s sound = elim (Bool-cases (j == id)) [
  | inl e ↦ rw e (
      finish_stops-IsSound id path ws (finish_stop key path s)
        (erase-IsSound key s (finish_stop key path s) refl refl refl sound))
  | inr e ↦ rw e (finish_stops-IsSound id path ws s sound)
]

on_exit-IsSound :
    (id : ℕ) (code : Option ℕ) (signal : Option String) (o : Option SupervisedProcess) (s : State)
    → find id s.objects ≡ o
    → IsSound s
    → IsSound (on_exit id code signal o s)
on_exit-IsSound id code signal none s found sound = sound
on_exit-IsSound id code signal (some r) s found sound =
    finish_stops-IsSound id r.bootstrap_file_path s.waiting _ (
      ended-IsSound id (λ q. record q { health_status = stopped; exit = some (code, signal) }) r s _
        found refl refl refl sound)

on_error-IsSound :
    (id : ℕ) (o : Option SupervisedProcess) (s : State)
    → find id s.objects ≡ o
    → IsSound s
    → IsSound (on_error id o s)
on_error-IsSound id none s found sound = sound
on_error-IsSound id (some r) s found sound =
    ended-IsSound id (with_health unhealthy) r s (on_error id (some r) s) found refl refl refl sound

on_stop_timeout-IsSound :
    (key : String) (id : ℕ) (o : Option SupervisedProcess) (s : State)
    → IsSound s
    → IsSound (on_stop_timeout key id o s)
on_stop_timeout-IsSound key id none s sound = sound
on_stop_timeout-IsSound key id (some r) s sound =
    elim (Bool-cases (any (λ (k, j). k == key && j == id) s.waiting)) [
      | inl e ↦ rw e (erase-IsSound key s _ refl refl refl sound)
      | inr e ↦ rw e sound
    ]

on_startup-IsSound :
    (o : Option (ℕ × SupervisedProcess)) (s : State) → IsSound s → IsSound (on_startup o s)
on_startup-IsSound none s sound = sound
on_startup-IsSound (some (id, r)) s sound = elim (Bool-cases (is_starting r.health_status)) [
  | inl e ↦
      rw e (update-IsSound id (with_health healthy) s _ (λ q. (refl, refl)) refl refl refl sound)
  | inr e ↦ rw e sound
]

step-IsSound : (e : Event) (s : State) → IsSound s → IsSound (step e s)
unfolding step launch lookup
step-IsSound (launched l pid) s sound =
    launch_over-IsSound l pid (get_entry (make_key l.run_id l.participant_id) s) s sound
step-IsSound (stop_asked name participant) s sound = stop_entry-IsSound _ _ s sound
step-IsSound (stop_run_asked name) s sound = stop_keys-IsSound name (keys s.processes) s sound
step-IsSound (exited id code signal) s sound =
    on_exit-IsSound id code signal (find id s.objects) s refl sound
step-IsSound (errored id) s sound = on_error-IsSound id (find id s.objects) s refl sound
step-IsSound (stop_timed_out key id) s sound =
    on_stop_timeout-IsSound key id (find id s.objects) s sound
step-IsSound (startup_elapsed key) s sound = on_startup-IsSound (get_entry key s) s sound
step-IsSound destroyed s sound =
    IsSound-of s (shut_down s) (λ k j h. absurd cc)
      (λ k j. IsAlive-same k j s (shut_down s) refl refl) sound

run-IsSound : (es : List Event) (s : State) → IsSound s → IsSound (run es s)
unfolding run
run-IsSound [] s sound = sound
run-IsSound (e ∷ es) s sound = run-IsSound es (step e s) (step-IsSound e s sound)

-- Whatever is called and whatever happens to the children, in whatever order: each entry of the table
-- stands for a record of its own key, whose child has not ended.
pub table-IsAlive :
    (es : List Event) (key : String) (id : ℕ)
    → lookup key (run es initial).processes ≡ some id
    → IsAlive key id (run es initial)
unfolding IsSound lookup
table-IsAlive es key id h = run-IsSound es initial (λ k j e. absurd cc) key id h
