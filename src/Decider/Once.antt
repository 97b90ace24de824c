-- ===== src/Decider/Once.antt =====
-- A run of the coordinator votes once and commits once, and both announce one decision.
use examples_service.Common.{ℕ, ◌≤◌, ◌≡◌, refl, Bool, true, false}
use examples_service.Common.{List, [], ◌∷◌, arith, inl, inr}
use examples_service.Common.{string_eq, count, count-snoc}
use examples_service.Js.{Value}
use examples_service.Policy.Number.{Number}
use examples_service.Policy.Strategy.{SpecialistSignal}
use examples_service.Decider.Guards.{try_commit-cases}
use examples_service.Decider.{Effect, vote, commit}
use examples_service.Decider.{
  Phase, collecting, suspending, holding, resuming, committing, cancelling, finished,
}
use examples_service.Decider.{
  Event, proposal, deadline, held, returned, refused, IncomingMessage, HandlerContext,
}
use examples_service.Decider.{Bootstrap, State, initial, decide_now}
use examples_service.Decider.{begin_commit, try_commit, on_proposal, record_signal}
use examples_service.Decider.{step, run}

abbrev pub is_vote : Effect → Bool
is_vote (vote p v r) = true
is_vote _ = false

abbrev pub is_commit : Effect → Bool
is_commit (commit a r c o) = true
is_commit _ = false

-- How many votes and commitments have been sent at most, by phase.
abbrev pub votes_by : Phase → ℕ
votes_by collecting = 0
votes_by suspending = 0
votes_by holding = 0
votes_by resuming = 0
votes_by _ = 1

abbrev pub commits_by : Phase → ℕ
commits_by (committing d) = 1
commits_by (cancelling d) = 1
commits_by (finished d) = 1
commits_by _ = 0

abbrev pub has_begun : Phase → Bool
has_begun collecting = false
has_begun _ = true

pub record IsOrderly {F : Number} (s : State F) : Type 0 where
  pub begun : s.committed ≡ has_begun s.phase
  pub votes : count is_vote s.effects ≤ votes_by s.phase
  pub commits : count is_commit s.effects ≤ commits_by s.phase

module _ {F : Number} (b : Bootstrap F) where
  pub initial-IsOrderly : IsOrderly (initial b)
  initial-IsOrderly = record { begun = refl; votes = omega arith; commits = omega arith }

  decide_now-IsOrderly :
      (s : State F)
      → s.committed ≡ true
      → count is_vote s.effects ≤ 0
      → count is_commit s.effects ≤ 0
      → IsOrderly (decide_now b s)
  unfolding decide_now
  decide_now-IsOrderly s c v k = grind (arith, count-snoc)

  begin_commit-IsOrderly :
      (ctx : HandlerContext) (s : State F)
      → s.committed ≡ false
      → IsOrderly s
      → IsOrderly (begin_commit b ctx s)
  begin_commit-IsOrderly ctx s c o = grind (arith, count-snoc, decide_now-IsOrderly)

  try_commit-IsOrderly :
      (ctx : HandlerContext) (force : Bool) (s : State F)
      → IsOrderly s
      → IsOrderly (try_commit b ctx force s)
  try_commit-IsOrderly ctx force s o = elim (try_commit-cases b ctx force s) [
    | inl same ↦ rw same o
    | inr (may, begins) ↦ rw begins (begin_commit-IsOrderly ctx s may.still_open o)
  ]

  on_proposal-IsOrderly :
      (m : IncomingMessage) (s : State F) → IsOrderly s → IsOrderly (on_proposal b m s)
  unfolding on_proposal
  on_proposal-IsOrderly m s o = grind (arith, count-snoc)

  record_signal-IsOrderly :
      (m : IncomingMessage) (ctx : HandlerContext) (x : SpecialistSignal F) (s : State F)
      → IsOrderly s
      → IsOrderly (record_signal b m ctx x s)
  unfolding record_signal
  record_signal-IsOrderly m ctx x s o = grind (arith, try_commit-IsOrderly)

module _ {F : Number} (to_number : Value → F.Carrier) (b : Bootstrap F) where
  pub step-IsOrderly : (e : Event) (s : State F) → IsOrderly s → IsOrderly (step to_number b e s)
  unfolding step
  step-IsOrderly (proposal m) s o = on_proposal-IsOrderly b m s o
  step-IsOrderly (Event.evaluation m ctx) s o = record_signal-IsOrderly b m ctx _ s o
  step-IsOrderly (Event.vote m ctx) s o = record_signal-IsOrderly b m ctx _ s o
  step-IsOrderly (Event.objection m ctx) s o = record_signal-IsOrderly b m ctx _ s o
  step-IsOrderly deadline s o = grind (arith, try_commit-IsOrderly)
  step-IsOrderly held s o = grind (arith, count-snoc)
  step-IsOrderly returned s o = grind (arith, count-snoc, decide_now-IsOrderly)
  step-IsOrderly (refused why) s o = grind (arith, count-snoc, decide_now-IsOrderly)

  pub run-IsOrderly :
      (es : List Event) (s : State F) → IsOrderly s → IsOrderly (run to_number b es s)
  unfolding run
  run-IsOrderly [] s o = o
  run-IsOrderly (e ∷ es) s o = run-IsOrderly es (step to_number b e s) (step-IsOrderly e s o)

  -- Whatever arrives, and in whatever order, the coordinator sends one vote at most and one
  -- commitment at most.
  pub run_once :
      (es : List Event)
      → let s = run to_number b es (initial b) in
        (count is_vote s.effects ≤ 1) × (count is_commit s.effects ≤ 1)
  run_once es = let o = run-IsOrderly es (initial b) (initial-IsOrderly b) in grind arith
