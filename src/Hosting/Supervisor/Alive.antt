-- ===== src/Hosting/Supervisor/Alive.antt =====
-- A table of the processes that holds no child that has ended, and what keeps it such.
use examples_service.Common.{ℕ, ◌<◌, ◌≡◌, ◌≢◌, refl, sym, ap, ◌∙◌, String, not, arith, inl, inr}
use examples_service.Common.{
  Option, none, some, List, [], ◌∷◌, ◌==◌, nat_eq, string_eq, if◌then◌else◌, Bool-cases, ◌&&◌,
}
use examples_service.Common.Dict.{Dict, lookup, erase, lookup-insert, lookup-erase}
use examples_service.Hosting.Supervisor.{SupervisedProcess, State}
use examples_service.Hosting.Supervisor.{
  started_process, find, update, Launch, spawn_process, launch_over, make_key, has_pid, is_stopped,
}
use mathlib.Core.Option.{some-injective}
use text.Mathlib.TextEquality.{eq_iff}

-- The record of the number has the key, and its child has not ended.
pub record IsAlive (key : String) (id : ℕ) (s : State) : Type 0 where
  pub known : id < s.next
  pub process : SupervisedProcess
  pub found : find id s.objects ≡ some process
  pub keyed : process.key ≡ key
  pub running : process.exit ≡ none

unfoldable pub IsSound : State → Type 0
IsSound s = (key : String) (id : ℕ) → lookup key s.processes ≡ some id → IsAlive key id s

unfoldable pub map_found :
    (SupervisedProcess → SupervisedProcess) → Option SupervisedProcess → Option SupervisedProcess
map_found f none = none
map_found f (some r) = some (f r)

pub find-update :
    (id j : ℕ) (f : SupervisedProcess → SupervisedProcess) (rs : List (ℕ × SupervisedProcess))
    → find j (update id f rs) ≡ (if id == j then map_found f (find j rs) else find j rs)
unfolding find update map_found
find-update id j f [] = ground arith
find-update id j f ((i, r) ∷ rs) = ground (arith, find-update id j f rs)

-- The objects keep their keys and ends under an update that does.
IsAlive-update :
    (id : ℕ) (f : SupervisedProcess → SupervisedProcess) (key : String) (j : ℕ) (s t : State)
    → ((r : SupervisedProcess) → ((f r).key ≡ r.key) × ((f r).exit ≡ r.exit))
    → t.objects ≡ update id f s.objects
    → t.next ≡ s.next
    → IsAlive key j s
    → IsAlive key j t
unfolding map_found
IsAlive-update id f key j s t keeps objects next a = elim (Bool-cases (id == j)) [
  | inl same ↦ record {
    known = ground (arith, a.known, next);
    process = f a.process;
    found = ap (find j) objects ∙ find-update id j f s.objects ∙ rw (same, a.found) refl;
    keyed = (keeps a.process).0 ∙ a.keyed;
    running = (keeps a.process).1 ∙ a.running;
  }
  | inr other ↦ record {
    known = ground (arith, a.known, next);
    process = a.process;
    found = ap (find j) objects ∙ find-update id j f s.objects ∙ rw (other, a.found) refl;
    keyed = a.keyed;
    running = a.running;
  }
]

-- A table with fewer entries, over the same objects.
erased :
    (k key : String) (id : ℕ) (d : Dict ℕ)
    → lookup key (erase k d) ≡ some id
    → (lookup key d ≡ some id) × (k ≢ key)
erased k key id d h = (
  ground (arith, h, lookup-erase k key d, eq_iff k key),
  λ e. absurd (ground (arith, h, lookup-erase k key d, eq_iff k key, e)),
)

pub IsSound-of :
    (s t : State)
    → ((key : String) (j : ℕ) → lookup key t.processes ≡ some j → lookup key s.processes ≡ some j)
    → ((key : String) (j : ℕ) → IsAlive key j s → IsAlive key j t)
    → IsSound s
    → IsSound t
unfolding IsSound
IsSound-of s t fewer lives sound key j h = lives key j (sound key j (fewer key j h))

pub IsAlive-same :
    (key : String) (j : ℕ) (s t : State)
    → t.objects ≡ s.objects
    → t.next ≡ s.next
    → IsAlive key j s
    → IsAlive key j t
IsAlive-same key j s t objects next a = record {
  known = ground (arith, a.known, next);
  process = a.process;
  found = ap (find j) objects ∙ a.found;
  keyed = a.keyed;
  running = a.running;
}

pub erase-IsSound :
    (k : String) (s t : State)
    → t.processes ≡ erase k s.processes
    → t.objects ≡ s.objects
    → t.next ≡ s.next
    → IsSound s
    → IsSound t
erase-IsSound k s t processes objects next =
    IsSound-of s t (λ key j h. (erased k key j s.processes (ap (lookup key) (sym processes) ∙ h)).0)
      (λ key j. IsAlive-same key j s t objects next)

pub spawn_process-IsSound :
    (l : Launch) (pid : Option ℕ) (s : State) → IsSound s → IsSound (spawn_process l pid s).0
unfolding IsSound find
spawn_process-IsSound l pid s sound key id h =
    let k = make_key l.run_id l.participant_id in
    elim (Bool-cases (k == key)) [
      | inl same ↦
          let at : s.next ≡ id = ground (arith, h, same, lookup-insert k key s.next s.processes) in
          record {
            known = ground (arith, at);
            process = started_process l pid;
            found = ground (arith, at);
            keyed = (eq_iff k key).0 same;
            running = refl;
          }
      | inr other ↦
          let there : lookup key s.processes ≡ some id =
            ground (arith, h, other, lookup-insert k key s.next s.processes) in
          let a = sound key id there in
          record {
            known = ground (arith, a.known);
            process = a.process;
            found = ground (arith, a.known, a.found);
            keyed = a.keyed;
            running = a.running;
          }
    ]

pub launch_over-IsSound :
    (l : Launch) (pid : Option ℕ) (o : Option (ℕ × SupervisedProcess)) (s : State)
    → IsSound s
    → IsSound (launch_over l pid o s).0
launch_over-IsSound l pid none s sound = spawn_process-IsSound l pid s sound
launch_over-IsSound l pid (some (id, r)) s sound =
    elim (Bool-cases (has_pid r.pid && not (is_stopped r.health_status))) [
      | inl e ↦ rw e sound
      | inr e ↦ rw e (spawn_process-IsSound l pid s sound)
    ]

pub update-IsSound :
    (id : ℕ) (f : SupervisedProcess → SupervisedProcess) (s t : State)
    → ((r : SupervisedProcess) → ((f r).key ≡ r.key) × ((f r).exit ≡ r.exit))
    → t.objects ≡ update id f s.objects
    → t.next ≡ s.next
    → t.processes ≡ s.processes
    → IsSound s
    → IsSound t
update-IsSound id f s t keeps objects next processes =
    IsSound-of s t (λ key j h. ap (lookup key) (sym processes) ∙ h)
      (λ key j. IsAlive-update id f key j s t keeps objects next)

-- The table without the key of a record whose child has ended.
pub ended-IsSound :
    (id : ℕ) (f : SupervisedProcess → SupervisedProcess) (r : SupervisedProcess) (s t : State)
    → find id s.objects ≡ some r
    → t.objects ≡ update id f s.objects
    → t.next ≡ s.next
    → t.processes ≡ erase r.key s.processes
    → IsSound s
    → IsSound t
unfolding IsSound
ended-IsSound id f r s t found objects next processes sound key j h =
    let (there, other_key) = erased r.key key j s.processes (ap (lookup key) (sym processes) ∙ h) in
    let a = sound key j there in
    elim (Bool-cases (id == j)) [
      | inl same ↦
          let at : id ≡ j = ground (arith, same) in
          let one : r ≡ a.process =
            some-injective r a.process (sym found ∙ ap (λ i. find i s.objects) at ∙ a.found) in
          absurd (other_key (ap (λ q. q.key) one ∙ a.keyed))
      | inr other ↦ record {
        known = ground (arith, a.known, next);
        process = a.process;
        found = ap (find j) objects ∙ find-update id j f s.objects ∙ rw (other, a.found) refl;
        keyed = a.keyed;
        running = a.running;
      }
    ]
