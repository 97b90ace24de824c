-- ===== src/Policy/Loader.antt =====
-- src/policy/policy-loader.service.ts: the checks of a policy, and the cache of the policies that
-- the files of a directory hold.
pub mod Laws
use examples_service.Common.{
  String, Bool, true, false, not, ◌&&◌, ◌||◌, Option, none, some, List, [], ◌∷◌, ◌++◌,
}
use examples_service.Common.{◌==◌, string_eq, if◌then◌else◌, filter}
use examples_service.Common.Dict.{Dict, lookup, insert, values}
use examples_service.Common.Text.{truthy}
use examples_service.Policy.Number.{Number}
use examples_service.Policy.Definition.{
  Voting, ObjectionHandling, Evaluation, Commitment, Rules, PolicyDefinition,
}

abbrev pub is_empty {ℓ} : {A : Type ℓ} → List A → Bool
is_empty [] = true
is_empty (x ∷ xs) = false

-- `!list || list.length === 0`
abbrev pub lacks_entries {ℓ} : {A : Type ℓ} → Option (List A) → Bool
lacks_entries none = true
lacks_entries (some xs) = is_empty xs

-- An error, if the test holds.
abbrev pub error_if : Bool → String → List String
error_if true message = message ∷ []
error_if false message = []

module _ (F : Number) where
  -- `threshold == null || threshold <= 0.5`
  abbrev pub at_most_half : Option F.Carrier → Bool
  at_most_half none = true
  at_most_half (some t) = F.ge F.half t

  abbrev pub below_one : Option F.Carrier → Bool
  below_one none = false
  below_one (some t) = F.lt t F.one

  abbrev pub no_version : Option F.Carrier → Bool
  no_version none = true
  no_version (some v) = F.lt v F.one

  abbrev pub out_of_unit : Option F.Carrier → Bool
  out_of_unit none = false
  out_of_unit (some c) = F.lt c (F.of_ℕ 0) || F.lt F.one c

module _ {F : Number} where
  abbrev pub voting_errors : Option (Voting F) → List String
  voting_errors none = []
  voting_errors (some v) =
      error_if (v.algorithm == "supermajority" && at_most_half F v.threshold)
        "supermajority algorithm requires threshold > 0.5"
      ++ error_if (v.algorithm == "weighted" && lacks_entries v.weights)
          "weighted algorithm requires a non-empty weights map"

  abbrev pub objection_errors : Option (ObjectionHandling F) → List String
  objection_errors none = []
  objection_errors (some o) = error_if (below_one F o.veto_threshold) "veto_threshold must be >= 1"

  abbrev pub evaluation_errors : Option (Evaluation F) → List String
  evaluation_errors none = []
  evaluation_errors (some e) =
      error_if (out_of_unit F e.minimum_confidence) "minimum_confidence must be between 0 and 1"

  abbrev pub commitment_errors : Option (Commitment F) → List String
  commitment_errors none = []
  commitment_errors (some c) =
      error_if (c.authority == "designated_roles" && lacks_entries c.designated_roles)
        "designated_roles authority requires a non-empty designated_roles array"

  abbrev pub rules_errors : Option (Rules F) → List String
  rules_errors none = "rules object is required" ∷ []
  rules_errors (some r) =
      voting_errors r.voting
      ++ objection_errors r.objection_handling
      ++ evaluation_errors r.evaluation
      ++ commitment_errors r.commitment

  unfoldable pub validate_policy : PolicyDefinition F → List String
  validate_policy p =
      error_if (not (truthy p.policy_id)) "policy_id is required"
      ++ error_if (no_version F p.schema_version) "schema_version must be >= 1"
      ++ rules_errors p.rules

  -- One file: `none` where it cannot be read as a policy. The errors of a policy are only logged.
  abbrev pub load_file :
      Option (PolicyDefinition F) → Dict (PolicyDefinition F) → Dict (PolicyDefinition F)
  load_file none cache = cache
  load_file (some p) cache = if truthy p.policy_id then insert p.policy_id p cache else cache

  unfoldable pub load_files :
      List (Option (PolicyDefinition F)) → Dict (PolicyDefinition F) → Dict (PolicyDefinition F)
  load_files [] cache = cache
  load_files (f ∷ fs) cache = load_files fs (load_file f cache)

  -- `ensureLoaded`: a directory that is there has files; the cache is filled once.
  abbrev pub read_directory :
      Option (List (Option (PolicyDefinition F))) → Dict (PolicyDefinition F)
  read_directory none = []
  read_directory (some files) = load_files files []

  abbrev pub ensure_loaded :
      Option (List (Option (PolicyDefinition F)))
      → Option (Dict (PolicyDefinition F))
      → Dict (PolicyDefinition F)
  ensure_loaded directory (some cache) = cache
  ensure_loaded directory none = read_directory directory

  abbrev pub load_policy : String → Dict (PolicyDefinition F) → Option (PolicyDefinition F)
  load_policy id cache = lookup id cache

  unfoldable pub list_registrable : Dict (PolicyDefinition F) → List (PolicyDefinition F)
  list_registrable cache = filter (λ p. not (p.policy_id == "policy.default")) (values cache)
