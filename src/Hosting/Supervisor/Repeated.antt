-- ===== src/Hosting/Supervisor/Repeated.antt =====
-- A participant that is launched twice.
use examples_service.Common.{
  ℕ, ◌<◌, ◌≡◌, ◌≢◌, refl, ap, subst, ◌∙◌, sym, not, true, false, Bool, ◌&&◌, arith, inl, inr,
  Option, none, some, List, [], ◌∷◌, All, Bool-cases, nat_eq, string_eq, ◌==◌, String,
}
use text.Mathlib.TextEquality.{eq_iff}
use examples_service.Common.Dict.{lookup, lookup-insert}
use examples_service.Hosting.Supervisor.{
  SupervisedProcess, State, Launch, Event, launched, startup_elapsed, launch, launch_over,
  spawn_process, started_process, make_key, get_entry, entry_of, paired, find, has_pid, is_stopped,
  is_starting, with_health, healthy, on_startup, initial, step, run,
}
use examples_service.Hosting.Supervisor.Launching.{spawn_process-lookup, entry_of-eq}
use examples_service.Hosting.Supervisor.Alive.{IsSound, find-update, map_found}
use examples_service.Hosting.Supervisor.Laws.{table-IsAlive}

-- The table has the record under the key, and its child has started and is not to stop.
record IsRunning (key : String) (id : ℕ) (s : State) : Type 0 where
  process : SupervisedProcess
  listed : lookup key s.processes ≡ some id
  found : find id s.objects ≡ some process
  going : (has_pid process.pid && not (is_stopped process.health_status)) ≡ true
  known : id < s.next

IsRunning-entry :
    (key : String) (id : ℕ) (s : State) (r : IsRunning key id s)
    → get_entry key s ≡ some (id, r.process)
IsRunning-entry key id s r = ap (λ o. entry_of o s) r.listed ∙ ap (paired id) r.found

launch_running :
    (l : Launch) (pid : Option ℕ) (s : State) (id : ℕ) (r : SupervisedProcess)
    → get_entry (make_key l.run_id l.participant_id) s ≡ some (id, r)
    → (has_pid r.pid && not (is_stopped r.health_status)) ≡ true
    → launch l pid s ≡ (s, id)
unfolding launch
launch_running l pid s id r e h = ap (λ o. launch_over l pid o s) e ∙ rw h refl

spawn_process-IsRunning :
    (key : String) (id : ℕ) (l : Launch) (pid : Option ℕ) (s : State)
    → (make_key l.run_id l.participant_id == key) ≡ false
    → IsRunning key id s
    → IsRunning key id (spawn_process l pid s).0
unfolding find
spawn_process-IsRunning key id l pid s other r =
    let k = make_key l.run_id l.participant_id in
    record {
      process = r.process;
      listed = ground (arith, lookup-insert k key s.next s.processes, r.listed, other);
      found = ground (arith, r.found, r.known);
      going = r.going;
      known = ground (arith, r.known);
    }

launch_over-IsRunning :
    (key : String) (id : ℕ) (l : Launch) (pid : Option ℕ) (o : Option (ℕ × SupervisedProcess))
    (s : State)
    → (make_key l.run_id l.participant_id == key) ≡ false
    → IsRunning key id s
    → IsRunning key id (launch_over l pid o s).0
launch_over-IsRunning key id l pid none s other r = spawn_process-IsRunning key id l pid s other r
launch_over-IsRunning key id l pid (some (j, q)) s other r =
    elim (Bool-cases (has_pid q.pid && not (is_stopped q.health_status))) [
      | inl e ↦ rw e r
      | inr e ↦ rw e (spawn_process-IsRunning key id l pid s other r)
    ]

launch-IsRunning :
    (key : String) (id : ℕ) (l : Launch) (pid : Option ℕ) (s : State)
    → IsRunning key id s
    → IsRunning key id (launch l pid s).0
unfolding launch
launch-IsRunning key id l pid s r = elim (Bool-cases (make_key l.run_id l.participant_id == key)) [
  | inl same ↦
      let k = (eq_iff (make_key l.run_id l.participant_id) key).0 same in
      subst (λ (x : State × ℕ). IsRunning key id x.0)
        (sym (
          launch_running l pid s id r.process
            (ap (λ x. get_entry x s) k ∙ IsRunning-entry key id s r) r.going))
        r
  | inr other ↦
      launch_over-IsRunning key id l pid (get_entry (make_key l.run_id l.participant_id) s) s other
        r
]

on_startup-IsRunning :
    (key : String) (id : ℕ) (o : Option (ℕ × SupervisedProcess)) (s : State)
    → IsRunning key id s
    → IsRunning key id (on_startup o s)
unfolding map_found
on_startup-IsRunning key id none s r = r
on_startup-IsRunning key id (some (j, q)) s r = elim (Bool-cases (is_starting q.health_status)) [
  | inr e ↦ rw e r
  | inl e ↦ rw e (elim (Bool-cases (j == id)) [
    | inl same ↦ record {
      process = with_health healthy r.process;
      listed = r.listed;
      found = find-update j id (with_health healthy) s.objects ∙ rw (same, r.found) refl;
      going = ground (arith, r.going);
      known = r.known;
    }
    | inr other ↦ record {
      process = r.process;
      listed = r.listed;
      found = find-update j id (with_health healthy) s.objects ∙ rw (other, r.found) refl;
      going = r.going;
      known = r.known;
    }
  ])
]

-- A launch, of any participant, or the end of a time of starting.
abbrev pub is_starting_up : Event → Bool
is_starting_up (launched l pid) = true
is_starting_up (startup_elapsed key) = true
is_starting_up _ = false

run-IsRunning :
    (key : String) (id : ℕ) (es : List Event) (s : State)
    → All (λ e. is_starting_up e ≡ true) es
    → IsRunning key id s
    → IsRunning key id (run es s)
unfolding run step
run-IsRunning key id [] s a r = r
run-IsRunning key id (launched l pid ∷ es) s (h, a) r =
    run-IsRunning key id es _ a (launch-IsRunning key id l pid s r)
run-IsRunning key id (startup_elapsed k ∷ es) s (h, a) r =
    run-IsRunning key id es _ a (on_startup-IsRunning key id (get_entry k s) s r)
run-IsRunning key id (e ∷ es) s (h, a) r = absurd (ground arith)

paired-process :
    (i : ℕ) (o : Option SupervisedProcess) (id : ℕ) (q : SupervisedProcess)
    → paired i o ≡ some (id, q)
    → (i ≡ id) × (o ≡ some q)
paired-process i none id q h = absurd cc
paired-process i (some p) id q h = (cc, cc)

-- What the table has of a key, as a record that runs.
entry-IsRunning :
    (key : String) (id : ℕ) (q : SupervisedProcess) (s : State)
    → IsSound s
    → get_entry key s ≡ some (id, q)
    → (has_pid q.pid && not (is_stopped q.health_status)) ≡ true
    → IsRunning key id s
unfolding IsSound
entry-IsRunning key id q s sound e going =
    let listed = entry_of-eq (lookup key s.processes) s id q e in
    let at : paired id (find id s.objects) ≡ some (id, q) =
      ap (λ o. entry_of o s) (sym listed) ∙ e in
    record {
      process = q;
      listed = listed;
      found = (paired-process id (find id s.objects) id q at).1;
      going = going;
      known = (sound key id listed).known;
    }

spawned-IsRunning :
    (l : Launch) (pid : ℕ) (s : State)
    → pid ≢ 0
    → IsRunning (make_key l.run_id l.participant_id) s.next (spawn_process l (some pid) s).0
unfolding find
spawned-IsRunning l pid s h = record {
  process = started_process l (some pid);
  listed = spawn_process-lookup l (some pid) s;
  found = ground arith;
  going = ground arith;
  known = omega arith;
}

launched-IsRunning :
    (l : Launch) (pid : ℕ) (o : Option (ℕ × SupervisedProcess)) (s : State)
    → pid ≢ 0
    → IsSound s
    → get_entry (make_key l.run_id l.participant_id) s ≡ o
    → IsRunning
        (make_key l.run_id l.participant_id)
        (launch_over l (some pid) o s).1
        (launch_over l (some pid) o s).0
launched-IsRunning l pid none s h sound e = spawned-IsRunning l pid s h
launched-IsRunning l pid (some (id, q)) s h sound e =
    elim (Bool-cases (has_pid q.pid && not (is_stopped q.health_status))) [
      | inl going ↦ rw going (entry-IsRunning _ id q s sound e going)
      | inr ended ↦ rw ended (spawned-IsRunning l pid s h)
    ]

-- Whatever came before, a participant that is launched is not launched again as long as, since then,
-- children have only been launched, of this or of any other participant, and times of starting have
-- ended: a later launch of the participant in the run, with whatever command and bootstrap file,
-- changes nothing, so that it starts no child, and returns the record of the first. So of two
-- attachments that both wait for a token, the one that comes second starts no child.
pub launch-once :
    (before between : List Event) (l k : Launch) (pid : ℕ) (other : Option ℕ)
    → All (λ e. is_starting_up e ≡ true) between
    → k.run_id ≡ l.run_id
    → k.participant_id ≡ l.participant_id
    → pid ≢ 0
    → launch k other (run between (launch l (some pid) (run before initial)).0) ≡ (
      run between (launch l (some pid) (run before initial)).0,
      (launch l (some pid) (run before initial)).1,
    )
unfolding launch IsSound
launch-once before between l k pid other starting r p h =
    let s = run before initial in
    let first =
      launched-IsRunning l pid (get_entry (make_key l.run_id l.participant_id) s) s h
        (table-IsAlive before) refl in
    let later = run-IsRunning _ _ between _ starting first in
    launch_running k other _ _ later.process (rw (r, p) (IsRunning-entry _ _ _ later)) later.going
