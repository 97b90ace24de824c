-- ===== src/Policy/Strategy/Tests.antt =====
-- Runs of the policy strategy, and its theorems at concrete signals.
use mathlib.Core.List.Perm
use examples_service.Common.{◌≡◌, ◌↔◌, refl, true, false, none, some, [], ◌∷◌, ℕ, String}
use examples_service.Common.{All}
use examples_service.Common.Dict.{Dict, values}
use examples_service.Common.Text.{upper}
use examples_service.Policy.Number.Hundredths.{hundredths, hundredths-IsOrdered}
use examples_service.Policy.Strategy.{PolicyHints, SpecialistSignal, evaluation, decide, is_vetoed}
use examples_service.Policy.Strategy.{approve, says}
use examples_service.Policy.Strategy.Outcomes.{IsConsistent, decide-IsConsistent}
use examples_service.Policy.Strategy.Verdicts.{IsApproval, decide-approve_of_unanimous}
use examples_service.Policy.Strategy.Order.{decide_of_perm, IsAbstention}

abbrev hints : String → PolicyHints hundredths
hints name = record {
  type = some name;
  description = none;
  threshold = some 67;
  veto_enabled = some true;
  critical_severity_vetoes = none;
  veto_roles = none;
  veto_threshold = none;
  minimum_confidence = some 60;
  designated_roles = none;
}

abbrev evaluates : String → String → ℕ → SpecialistSignal hundredths
evaluates who what c = record {
  participant_id = who;
  message_type = evaluation;
  recommendation = some what;
  confidence = some c;
  severity = none;
  reason = none;
}

abbrev growth : SpecialistSignal hundredths
growth = evaluates "growth" "Approve" 90

abbrev fraud : SpecialistSignal hundredths
fraud = evaluates "fraud" "BLOCK" 80

abbrev silent : SpecialistSignal hundredths
silent = evaluates "compliance" "abstain" 70

abbrev signals : Dict (SpecialistSignal hundredths)
signals = ("growth", growth) ∷ ("fraud", fraud) ∷ []

abbrev swapped : Dict (SpecialistSignal hundredths)
swapped = ("fraud", fraud) ∷ ("growth", growth) ∷ []

majority_run :
    (decide (hints "majority") (("growth", growth) ∷ ("compliance", silent) ∷ [])).action ≡ approve
unfolding decide says upper values
majority_run = refl

decide-IsConsistent_example : IsConsistent (decide (hints "none") signals)
decide-IsConsistent_example = decide-IsConsistent (hints "none") signals

decide-approve_of_unanimous_example : ((decide (hints "unanimous") signals).action ≡ approve) ↔ (
    (is_vetoed (hints "unanimous") (values signals) ≡ false)
    × All (IsApproval {F = hundredths} 60) (values signals))
decide-approve_of_unanimous_example =
    decide-approve_of_unanimous (hints "unanimous") hundredths-IsOrdered signals refl

decide_of_perm_example : decide (hints "majority") signals ≡ decide (hints "majority") swapped
unfolding values
decide_of_perm_example =
    decide_of_perm (hints "majority") signals swapped (Perm.swap fraud growth [])

silent-IsAbstention : IsAbstention (hints "majority") silent
unfolding says upper
silent-IsAbstention = record { confident = refl; abstains = refl }
