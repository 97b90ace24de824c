-- ===== src/Policy/Strategy/Signals.antt =====
-- The signals, the hints of the policy and the tests of src/example-agents/runtime/policy-strategy.ts.
use examples_service.Common.{ℕ, String, Bool, true, false, ◌&&◌, ◌||◌}
use examples_service.Common.{Option, none, some, List}
use examples_service.Common.{◌==◌, nat_eq, string_eq, length, filter}
use examples_service.Common.Text.{upper}
use examples_service.Policy.Number.{Number}

pub data MessageType : Type 0 where
  evaluation objection : MessageType

pub data Action : Type 0 where
  approve step_up decline : Action

-- The two votes; `approve` is that of `Vote`.
pub data Vote : Type 0 where
  approve reject : Vote

pub record PolicyDecision : Type 0 where
  pub action : Action
  pub vote : Vote
  pub reason : String
  pub policy_applied : String

-- `o ?? d`
abbrev pub or_default {ℓ} : {A : Type ℓ} → Option A → A → A
or_default none d = d
or_default (some a) d = a

abbrev pub decision : Action → Vote → String → String → PolicyDecision
decision a v why policy = record { action = a; vote = v; reason = why; policy_applied = policy }

module _ (F : Number) where
  pub record PolicyHints : Type 0 where
    pub type : Option String
    pub description : Option String
    pub threshold : Option F.Carrier
    pub veto_enabled : Option Bool
    pub critical_severity_vetoes : Option Bool
    pub veto_roles : Option (List String)
    pub veto_threshold : Option F.Carrier
    pub minimum_confidence : Option F.Carrier
    pub designated_roles : Option (List String)

  pub record SpecialistSignal : Type 0 where
    pub participant_id : String
    pub message_type : MessageType
    pub recommendation : Option String
    pub confidence : Option F.Carrier
    pub severity : Option String
    pub reason : Option String

-- The settings that `createPolicyStrategy` reads from the hints.
module _ {F : Number} where
  abbrev pub type_of : PolicyHints F → String
  type_of h = or_default h.type "none"

  abbrev pub threshold_of : PolicyHints F → F.Carrier
  threshold_of h = or_default h.threshold F.half

  abbrev pub veto_enabled_of : PolicyHints F → Bool
  veto_enabled_of h = or_default h.veto_enabled (or_default h.critical_severity_vetoes false)

  abbrev pub veto_threshold_of : PolicyHints F → F.Carrier
  veto_threshold_of h = or_default h.veto_threshold F.one

  abbrev pub minimum_confidence_of : PolicyHints F → F.Carrier
  minimum_confidence_of h = or_default h.minimum_confidence (F.of_ℕ 0)

abbrev pub is_evaluation : MessageType → Bool
is_evaluation evaluation = true
is_evaluation objection = false

abbrev pub is_objection : MessageType → Bool
is_objection evaluation = false
is_objection objection = true

-- `(recommendation ?? '').toUpperCase() === word`
unfoldable pub says : String → Option String → Bool
says word r = upper (or_default r "") == word

-- `severity === 'critical'`
abbrev pub is_critical : Option String → Bool
is_critical none = false
is_critical (some s) = s == "critical"

module _ {F : Number} where
  abbrev pub is_blocking : SpecialistSignal F → Bool
  is_blocking s = is_objection s.message_type && is_critical s.severity

  abbrev pub confidence_of : SpecialistSignal F → F.Carrier
  confidence_of s = or_default s.confidence F.one

  abbrev pub is_qualified : F.Carrier → SpecialistSignal F → Bool
  is_qualified least s = is_evaluation s.message_type && F.ge (confidence_of s) least

  abbrev pub is_disqualified : F.Carrier → SpecialistSignal F → Bool
  is_disqualified least s = is_evaluation s.message_type && F.lt (confidence_of s) least

  abbrev pub is_rejection : SpecialistSignal F → Bool
  is_rejection s = says "BLOCK" s.recommendation || says "REJECT" s.recommendation

  -- The tests of the filters of `decide` over `all`, and their counts.
  abbrev pub approvals : F.Carrier → List (SpecialistSignal F) → ℕ
  approvals least all =
      length (filter (λ s. says "APPROVE" s.recommendation) (filter (is_qualified least) all))

  abbrev pub rejections : F.Carrier → List (SpecialistSignal F) → ℕ
  rejections least all = length (filter is_rejection (filter (is_qualified least) all))

  abbrev pub abstentions : F.Carrier → List (SpecialistSignal F) → ℕ
  abstentions least all =
      length (filter (λ s. says "ABSTAIN" s.recommendation) (filter (is_qualified least) all))

  abbrev pub objections : List (SpecialistSignal F) → ℕ
  objections all = length (filter (λ s. is_objection s.message_type) all)

  abbrev pub disqualified : F.Carrier → List (SpecialistSignal F) → ℕ
  disqualified least all = length (filter (is_disqualified least) all)
