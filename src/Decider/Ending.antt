-- ===== src/Decider/Ending.antt =====
-- Once the coordinator has begun to commit, it comes to an end, whatever the runtime answers.
use examples_service.Common.{ℕ, ◌≤◌, ◌-◌, ◌≡◌, refl, String, true, false, Option, none, some}
use examples_service.Common.{List, [], ◌∷◌, arith, length}
use examples_service.Js.{Value}
use examples_service.Policy.Number.{Number}
use examples_service.Policy.Strategy.{PolicyDecision, decide}
use examples_service.Decider.Once.{has_begun}
use examples_service.Decider.{
  Phase, collecting, suspending, holding, resuming, voting, committing, cancelling, finished,
}
use examples_service.Decider.Guards.{MayCommit}
use examples_service.Decider.{HandlerContext, deadline, try_commit}
use examples_service.Decider.{Event, held, returned, refused, Bootstrap, State, step, decide_now}

-- How many answers are still to come at most.
abbrev pub rank : Phase → ℕ
rank collecting = 7
rank suspending = 6
rank holding = 5
rank resuming = 4
rank (voting d) = 3
rank (committing d) = 2
rank (cancelling d) = 1
rank (finished d) = 0

-- What the environment does next: the hold ends, or the awaited call returns (`none`) or is refused
-- with a message.
abbrev pub answer : Option String → Phase → Event
answer r holding = held
answer none p = returned
answer (some why) p = refused why

module _ {F : Number} (to_number : Value → F.Carrier) (b : Bootstrap F) where
  pub settle : List (Option String) → State F → State F
  settle [] s = s
  settle (r ∷ rs) s = settle rs (step to_number b (answer r s.phase) s)

  decide_now-phase :
      (s : State F) → (decide_now b s).phase ≡ voting (decide b.policy_hints s.signals)
  unfolding decide_now
  decide_now-phase s = ground arith

  step-rank :
      (r : Option String) (s : State F)
      → has_begun s.phase ≡ true
      → let t = step to_number b (answer r s.phase) s in
        (has_begun t.phase ≡ true) × (rank t.phase ≤ rank s.phase - 1)
  unfolding step
  step-rank none s h = ground (arith, decide_now-phase s)
  step-rank (some why) s h = ground (arith, decide_now-phase s)

  -- Six answers of any kind bring a commit that has begun to its end.
  rank-settle :
      (rs : List (Option String)) (s : State F)
      → has_begun s.phase ≡ true
      → rank (settle rs s).phase ≤ rank s.phase - length rs
  unfolding settle
  rank-settle [] s h = omega arith
  rank-settle (r ∷ rs) s h =
      let (g, l) = step-rank r s h in
      omega (arith, l, rank-settle rs (step to_number b (answer r s.phase) s) g)

  ends_of_rank : (p : Phase) → rank p ≤ 0 → (d : PolicyDecision) × (p ≡ finished d)
  ends_of_rank (finished d) h = (d, refl)
  ends_of_rank collecting h = absurd (omega arith)
  ends_of_rank suspending h = absurd (omega arith)
  ends_of_rank holding h = absurd (omega arith)
  ends_of_rank resuming h = absurd (omega arith)
  ends_of_rank (voting d) h = absurd (omega arith)
  ends_of_rank (committing d) h = absurd (omega arith)
  ends_of_rank (cancelling d) h = absurd (omega arith)

  rank_begun : (p : Phase) → has_begun p ≡ true → rank p ≤ 6
  rank_begun collecting h = ground arith
  rank_begun _ h = omega arith

  step_deadline-begins :
      (ctx : HandlerContext) (s : State F)
      → s.pending ≡ some ctx
      → MayCommit b true s
      → has_begun (step to_number b deadline s).phase ≡ true
  unfolding step try_commit
  step_deadline-begins ctx s p may =
      ground (
        arith,
        may,
        decide_now-phase (record s { committed = true; wait_timer = false; ctx = ctx }),
      )

  -- When the deadline passes, a handler's context is at hand, the proposal is known, nothing has been
  -- committed and the quorum is met, then six answers of the environment, whatever they are, bring
  -- the coordinator to its end with a decision.
  pub deadline_ends :
      (ctx : HandlerContext) (s : State F) (rs : List (Option String))
      → s.pending ≡ some ctx
      → MayCommit b true s
      → 6 ≤ length rs
      → (d : PolicyDecision) × ((settle rs (step to_number b deadline s)).phase ≡ finished d)
  deadline_ends ctx s rs p may enough =
      let t = step to_number b deadline s in
      let g = step_deadline-begins ctx s p may in
      ends_of_rank _ (omega (arith, rank-settle rs t g, rank_begun t.phase g))
