-- ===== src/Policy/Definition.antt =====
-- `PolicyDefinition` of src/contracts/policy.ts. A part that a file may leave out, or that the code
-- asks for, is an option; `null` counts as left out.
use examples_service.Common.{String, Bool, Option, List}
use examples_service.Common.Dict.{Dict}
use examples_service.Policy.Number.{Number}

module _ (F : Number) where
  pub record Quorum : Type 0 where
    pub type : String
    pub value : F.Carrier

  pub record Voting : Type 0 where
    pub algorithm : String
    pub threshold : Option F.Carrier
    pub quorum : Option Quorum
    pub weights : Option (Dict F.Carrier)

  pub record ObjectionHandling : Type 0 where
    pub critical_severity_vetoes : Bool
    pub veto_threshold : Option F.Carrier

  pub record Evaluation : Type 0 where
    pub minimum_confidence : Option F.Carrier
    pub required_before_voting : Bool

  pub record Commitment : Type 0 where
    pub authority : String
    pub require_vote_quorum : Bool
    pub designated_roles : Option (List String)

  pub record Rules : Type 0 where
    pub voting : Option Voting
    pub objection_handling : Option ObjectionHandling
    pub evaluation : Option Evaluation
    pub commitment : Option Commitment

  pub record PolicyDefinition : Type 0 where
    pub policy_id : String
    pub mode : String
    pub schema_version : Option F.Carrier
    pub description : Option String
    pub rules : Option Rules
