-- ===== src/Policy/Strategy.antt =====
-- src/example-agents/runtime/policy-strategy.ts
mod Signals
pub mod Outcomes
pub mod Verdicts
pub mod Order
mod Tests
unfoldable pub use Signals.*
use examples_service.Common.{ℕ, ◌+◌, ◌-◌, max, String, ◌<>◌, Bool, true, false, ◌&&◌, ◌||◌}
use examples_service.Common.{Option, none, some, List, [], ◌∷◌}
use examples_service.Common.{leb, ltb, ◌==◌, nat_eq, string_eq, if◌then◌else◌, length, filter}
use examples_service.Common.Dict.{Dict, values}
use examples_service.Common.Text.{upper}
use examples_service.Policy.Number.{Number}

module _ {F : Number} (hints : PolicyHints F) where
  abbrev number : ℕ → String
  number n = F.show (F.of_ℕ n)

  unfoldable pub is_quorum_met : Dict (SpecialistSignal F) → ℕ → Bool
  is_quorum_met signals total_expected =
      if type_of hints == "unanimous"
      then leb total_expected (length signals)
      else if type_of hints == "none"
      then leb total_expected (length signals)
      else leb (max 1 (F.ceil (F.mul (F.of_ℕ total_expected) (threshold_of hints))))
          (length signals)

  -- `blocking.length >= vetoThreshold`, where the veto is enabled
  pub is_vetoed : List (SpecialistSignal F) → Bool
  is_vetoed all =
      veto_enabled_of hints
      && F.ge (F.of_ℕ (length (filter is_blocking all))) (veto_threshold_of hints)

  abbrev vetoed : List (SpecialistSignal F) → PolicyDecision
  vetoed all =
      decision decline reject
        ("policy "
          <> type_of hints
          <> ": "
          <> number (length (filter is_blocking all))
          <> " critical objection(s) met veto threshold of "
          <> F.show (veto_threshold_of hints))
        (type_of hints)

  pub unanimous_vote : ℕ → ℕ → ℕ → ℕ → ℕ → PolicyDecision
  unanimous_vote approved rejected objected low total =
      if ltb 0 rejected || ltb 0 objected
      then decision decline reject
          ("policy unanimous: "
            <> number rejected
            <> " rejection(s), "
            <> number objected
            <> " objection(s)")
          "unanimous"
      else if ltb 0 low
      then decision step_up Vote.approve
          ("policy unanimous: "
            <> number low
            <> " evaluation(s) below minimum confidence "
            <> F.show (minimum_confidence_of hints))
          "unanimous"
      else if approved == total
      then decision approve Vote.approve "policy unanimous: all participants approved" "unanimous"
      else decision step_up Vote.approve "policy unanimous: mixed signals, stepping up" "unanimous"

  pub approval_rate : ℕ → ℕ → F.Carrier
  approval_rate approved effective =
      if ltb 0 effective then F.div (F.of_ℕ approved) (F.of_ℕ effective) else F.of_ℕ 0

  abbrev percent : F.Carrier → String
  percent x = F.to_fixed (F.mul x (F.of_ℕ 100))

  pub majority_vote : ℕ → ℕ → ℕ → F.Carrier → PolicyDecision
  majority_vote approved rejected objected rate =
      if F.ge rate (threshold_of hints)
      then decision approve Vote.approve
          ("policy "
            <> type_of hints
            <> ": "
            <> percent rate
            <> "% approval meets "
            <> percent (threshold_of hints)
            <> "% threshold")
          (type_of hints)
      else if ltb approved (rejected + objected)
      then decision decline reject ("policy " <> type_of hints <> ": majority rejected or objected")
          (type_of hints)
      else decision step_up Vote.approve
          ("policy "
            <> type_of hints
            <> ": approval below "
            <> percent (threshold_of hints)
            <> "% threshold, stepping up")
          (type_of hints)

  pub pass_through : ℕ → ℕ → PolicyDecision
  pass_through rejected objected =
      if ltb 0 rejected || ltb 0 objected
      then decision decline reject "default policy: blocking signals observed" "none"
      else decision approve Vote.approve "default policy: no blocking signals" "none"

  -- `decide` over `all`, the values of the map, and `total`, its size
  pub decide_all : List (SpecialistSignal F) → ℕ → PolicyDecision
  decide_all all total =
      let least = minimum_confidence_of hints in
      if is_vetoed all
      then vetoed all
      else if type_of hints == "unanimous"
      then unanimous_vote (approvals least all) (rejections least all) (objections all)
          (disqualified least all) total
      else if type_of hints == "supermajority" || type_of hints == "majority"
      then majority_vote (approvals least all) (rejections least all) (objections all)
          (approval_rate (approvals least all) (total - abstentions least all))
      else pass_through (rejections least all) (objections all)

  unfoldable pub decide : Dict (SpecialistSignal F) → PolicyDecision
  unfolding decide_all is_vetoed unanimous_vote majority_vote approval_rate pass_through
  decide signals = decide_all (values signals) (length signals)
