-- ===== src/Policy/Strategy/Outcomes.antt =====
-- What the decisions of the policy strategy mean.
use examples_service.Common.{◌≡◌, ◌↔◌, ◌≢◌, ◌⊎◌, true, false, arith}
use examples_service.Common.{List, ℕ}
use examples_service.Common.{nat_eq, string_eq, length}
use examples_service.Common.Dict.{Dict, values}
use examples_service.Common.{String, Option, sym, ◌∙◌}
use text.Mathlib.TextEquality.{eq_iff}
use examples_service.Policy.Strategy.{says}
use examples_service.Policy.Number.{Number}
use examples_service.Policy.Strategy.{approve, decline, reject}
use examples_service.Policy.Strategy.{
  PolicyDecision, PolicyHints, SpecialistSignal, decide, decide_all,
}
use examples_service.Policy.Strategy.{unanimous_vote, majority_vote, pass_through}

pub says_unique : (v w : String) (r : Option String) → says v r ≡ true → says w r ≡ true → v ≡ w
unfolding says
says_unique v w r hv hw = sym ((eq_iff _ v).0 hv) ∙ (eq_iff _ w).0 hw

pub approve-ne-reject :
    (r : Option String)
    → says "APPROVE" r ≡ true
    → (says "BLOCK" r ≡ false) × (says "REJECT" r ≡ false)
approve-ne-reject r h = ground (
  arith,
  says_unique "APPROVE" "BLOCK" r h,
  says_unique "APPROVE" "REJECT" r h,
  eq_iff "APPROVE" "BLOCK",
  eq_iff "APPROVE" "REJECT",
)

-- The vote is `reject` exactly where the action is `decline`.
abbrev pub IsConsistent : PolicyDecision → Type 0
IsConsistent d = (d.vote ≡ reject) ↔ (d.action ≡ decline)

module _ {F : Number} (hints : PolicyHints F) where
  unanimous_vote-IsConsistent : (a r o l t : ℕ) → IsConsistent (unanimous_vote hints a r o l t)
  unfolding unanimous_vote
  unanimous_vote-IsConsistent a r o l t = ground arith

  majority_vote-IsConsistent :
      (a r o : ℕ) (rate : F.Carrier) → IsConsistent (majority_vote hints a r o rate)
  unfolding majority_vote
  majority_vote-IsConsistent a r o rate = ground arith

  pass_through-IsConsistent : (r o : ℕ) → IsConsistent (pass_through hints r o)
  unfolding pass_through
  pass_through-IsConsistent r o = ground arith

  decide_all-IsConsistent :
      (all : List (SpecialistSignal F)) (total : ℕ) → IsConsistent (decide_all hints all total)
  unfolding decide_all
  decide_all-IsConsistent all total =
      grind
        (arith, unanimous_vote-IsConsistent, majority_vote-IsConsistent, pass_through-IsConsistent)

  -- Whatever the policy and the signals, the coordinator votes `reject` exactly when the action is
  -- `decline`.
  pub decide-IsConsistent :
      (signals : Dict (SpecialistSignal F)) → IsConsistent (decide hints signals)
  unfolding decide
  decide-IsConsistent signals = decide_all-IsConsistent (values signals) (length signals)

  pub unanimous_vote-eq-approve_iff :
      (a r o l t : ℕ)
      → ((unanimous_vote hints a r o l t).action ≡ approve)
        ↔ ((r ≡ 0) × (o ≡ 0) × (l ≡ 0) × (a ≡ t))
  unfolding unanimous_vote
  unanimous_vote-eq-approve_iff a r o l t = ground arith

  pub pass_through-eq-decline_iff :
      (r o : ℕ) → ((pass_through hints r o).action ≡ decline) ↔ ((r ≢ 0) ⊎ (o ≢ 0))
  unfolding pass_through
  pass_through-eq-decline_iff r o = ground arith
