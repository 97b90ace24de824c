-- ===== src/Hosting/Supervisor/Launching.antt =====
-- What a launch leaves in the table.
use examples_service.Common.{ℕ, ◌≡◌, refl, ap, not, ◌&&◌, arith, inl, inr}
use examples_service.Common.{Option, none, some, string_eq, Bool-cases}
use examples_service.Common.Dict.{lookup, lookup-insert}
use examples_service.Hosting.Supervisor.{
  SupervisedProcess, State, Launch, find, launch, launch_over, spawn_process, make_key, get_entry,
  entry_of, paired, has_pid, is_stopped,
}
use text.Mathlib.TextEquality.{eq_iff}

pub spawn_process-lookup :
    (l : Launch) (pid : Option ℕ) (s : State)
    → lookup (make_key l.run_id l.participant_id) (spawn_process l pid s).0.processes
      ≡ some (spawn_process l pid s).1
spawn_process-lookup l pid s =
    let k = make_key l.run_id l.participant_id in
    ground (arith, lookup-insert k k s.next s.processes, eq_iff k k)

launch_over-lookup :
    (l : Launch) (pid : Option ℕ) (o : Option (ℕ × SupervisedProcess)) (s : State)
    → ((id : ℕ) (r : SupervisedProcess)
        → o ≡ some (id, r)
        → lookup (make_key l.run_id l.participant_id) s.processes ≡ some id)
    → lookup (make_key l.run_id l.participant_id) (launch_over l pid o s).0.processes
      ≡ some (launch_over l pid o s).1
launch_over-lookup l pid none s h = spawn_process-lookup l pid s
launch_over-lookup l pid (some (id, r)) s h =
    elim (Bool-cases (has_pid r.pid && not (is_stopped r.health_status))) [
      | inl e ↦ rw e (h id r refl)
      | inr e ↦ rw e (spawn_process-lookup l pid s)
    ]

paired-eq :
    (i : ℕ) (o : Option SupervisedProcess) (id : ℕ) (r : SupervisedProcess)
    → paired i o ≡ some (id, r)
    → i ≡ id
paired-eq i none id r h = absurd cc
paired-eq i (some q) id r h = cc

pub entry_of-eq :
    (o : Option ℕ) (s : State) (id : ℕ) (r : SupervisedProcess)
    → entry_of o s ≡ some (id, r)
    → o ≡ some id
entry_of-eq none s id r h = absurd cc
entry_of-eq (some i) s id r h = ap some (paired-eq i (find i s.objects) id r h)

-- Whether it finds a running process or starts one, a launch returns the record that the table then
-- has under the key of the run and the participant.
pub launch-lookup :
    (l : Launch) (pid : Option ℕ) (s : State)
    → lookup (make_key l.run_id l.participant_id) (launch l pid s).0.processes
      ≡ some (launch l pid s).1
unfolding launch
launch-lookup l pid s =
    let k = make_key l.run_id l.participant_id in
    launch_over-lookup l pid (get_entry k s) s
      (λ id r h. entry_of-eq (lookup k s.processes) s id r h)
