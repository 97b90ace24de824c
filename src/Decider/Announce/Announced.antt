-- ===== src/Decider/Announce/Announced.antt =====
-- What it means that the coordinator has announced its decision.
use examples_service.Common.{◌≡◌, refl, false}
use examples_service.Common.{Option, none, some, arith}
use examples_service.Common.{string_eq, All}
use examples_service.Js.{Fields}
use examples_service.Policy.Number.{Number}
use examples_service.Policy.Strategy.{PolicyDecision}
use examples_service.Policy.Strategy.Outcomes.{IsConsistent}
use examples_service.Decider.Once.{has_begun}
use examples_service.Decider.{Effect, send_context, vote, commit}
use examples_service.Decider.{Phase, collecting, voting, committing, cancelling, finished}
use examples_service.Decider.{State, outcome_positive}

abbrev pub decision_of : Phase → Option PolicyDecision
decision_of (voting d) = some d
decision_of (committing d) = some d
decision_of (cancelling d) = some d
decision_of (finished d) = some d
decision_of _ = none

-- A vote or a commitment that has been sent announces the decision.
abbrev pub Announces : Option PolicyDecision → Effect → Type 0
Announces none (vote p v r) = ⊥
Announces none (commit a r c o) = ⊥
Announces (some d) (vote p v r) = (v ≡ d.vote) × (r ≡ d.reason)
Announces (some d) (commit a r c o) =
    (a ≡ d.action) × (r ≡ d.reason) × (o ≡ outcome_positive d.action)
Announces _ _ = Unit

abbrev pub IsSound : Option PolicyDecision → Type 0
IsSound none = Unit
IsSound (some d) = IsConsistent d

pub record IsAnnounced {F : Number} (s : State F) : Type 0 where
  pub announced : All (Announces (decision_of s.phase)) s.effects
  pub sound : IsSound (decision_of s.phase)

pub Announces-any : (d : PolicyDecision) (e : Effect) → Announces none e → Announces (some d) e
Announces-any d (vote p v r) h = absurd h
Announces-any d (commit a r c o) h = absurd h
Announces-any d _ h = tt

pub decision_of_unbegun : (p : Phase) → has_begun p ≡ false → decision_of p ≡ none
decision_of_unbegun collecting h = refl
decision_of_unbegun _ h = ground arith

pub context_quiet : (d : Option PolicyDecision) (fs : Fields) → Announces d (send_context fs)
context_quiet none fs = tt
context_quiet (some d) fs = tt
