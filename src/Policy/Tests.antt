-- ===== src/Policy/Tests.antt =====
-- The theorems of the policy files and their registration at concrete inputs.
use examples_service.Common.{
  ℕ, ltb, ◌+◌, ◌≡◌, ◌≢◌, ◌↔◌, refl, String, true, false, Option, none, some, List, [], ◌∷◌, map,
  length, All,
}
use examples_service.Common.Dict.{values, insert}
use examples_service.Common.Text.{truthy}
use examples_service.Errors.{ok}
use examples_service.Policy.Number.Hundredths.{hundredths}
use examples_service.Policy.Definition.{PolicyDefinition}
use examples_service.Policy.Loader.{validate_policy, load_files, read_directory, list_registrable}
use examples_service.Policy.Loader.Laws.{AreRulesSound, validate_policy_iff}
use examples_service.Policy.Registrar.{
  Settings, Descriptor, Reply, accepted, Report, complete, to_descriptor, register_all,
  on_application_bootstrap,
}
use examples_service.Policy.Registrar.Laws.{registration_complete}

abbrev policy : String → PolicyDefinition hundredths
policy id = record {
  policy_id = id;
  mode = "macp.mode.decision.v1";
  schema_version = some 100;
  description = none;
  rules = some (record {
    voting = some (record {
      algorithm = "supermajority";
      threshold = some 66;
      quorum = none;
      weights = none;
    });
    objection_handling = none;
    evaluation = none;
    commitment = none;
  });
}

validate_policy_iff_example : (validate_policy (policy "policy.fraud") ≡ []) ↔ (
    (truthy (policy "policy.fraud").policy_id ≡ true)
    × ((v : ℕ) × ((policy "policy.fraud").schema_version ≡ some v) × (ltb v 100 ≡ false))
    × AreRulesSound {F = hundredths} (policy "policy.fraud").rules)
validate_policy_iff_example = validate_policy_iff (policy "policy.fraud")

abbrev files : List (Option (PolicyDefinition hundredths))
files = some (policy "policy.default") ∷ none ∷ some (policy "policy.fraud") ∷ []

abbrev settings : Settings
settings = record { register_policies_on_launch = true; runtime_address = "runtime:50051" }

abbrev runtime : Descriptor hundredths → Reply
runtime d = accepted

abbrev report : Report hundredths
report = record {
  registered = 1;
  already = 0;
  failed = 0;
  sent = to_descriptor (policy "policy.fraud") ∷ [];
}

registered_once :
    on_application_bootstrap runtime settings (ok "token") (read_directory (some files))
    ≡ complete report
unfolding on_application_bootstrap load_files insert list_registrable values register_all
registered_once = refl

registration_complete_example :
    (report.sent ≡ map to_descriptor (list_registrable (read_directory (some files))))
    × (report.registered + report.already + report.failed
        ≡ length (list_registrable (read_directory (some files))))
    × All (λ d. d.policy_id ≢ "policy.default") report.sent
registration_complete_example =
    registration_complete runtime settings (ok "token") (read_directory (some files)) report
      registered_once
