-- ===== src/Compiler/Compile/Laws.antt =====
-- What a compiled launch is.
use examples_service.Common.{
  String, ◌≡◌, true, false, Option, none, some, List, [], ◌∷◌, ◌++◌, Bool-cases, inl, inr, contains,
  string_eq,
}
use examples_service.Common.Unique.{IsUnique, IsUnique-snoc}
use examples_service.Js.{is_truthy}
use examples_service.Contracts.{InitiatorPayload}
use examples_service.Compiler.Outcome.{unique}
use examples_service.Compiler.Settings.{Settings}
use examples_service.Compiler.Compile.{ids_of}
use examples_service.Compiler.Compile.Contracts.{CompileLaunchResult}

pub unique-IsUnique : (seen ts : List String) → IsUnique seen → IsUnique (unique seen ts)
unfolding unique
unique-IsUnique seen [] u = u
unique-IsUnique seen (t ∷ ts) u = elim (Bool-cases (contains seen t)) [
  | inl e ↦ rw e (unique-IsUnique seen ts u)
  | inr e ↦ rw e (unique-IsUnique (seen ++ t ∷ []) ts (IsUnique-snoc seen t u e))
]

-- The initiator of the result is the participant that it names, and starts the session that the
-- descriptor describes.
abbrev pub IsStarting : CompileLaunchResult → Option InitiatorPayload → Type 0
IsStarting r none = is_truthy r.initiator_participant_id ≡ false
IsStarting r (some i) =
    (is_truthy r.initiator_participant_id ≡ true)
    × (i.participant_id ≡ r.initiator_participant_id)
    × (i.session_start.participants ≡ r.run_descriptor.session.participants)
    × (i.session_start.ttl_ms ≡ r.run_descriptor.session.ttl_ms)
    × (i.session_start.mode_version ≡ r.run_descriptor.session.mode_version)
    × (i.session_start.configuration_version ≡ r.run_descriptor.session.configuration_version)
    × (i.session_start.policy_version ≡ r.run_descriptor.session.policy_version)

abbrev pub IsCoherent : CompileLaunchResult → Type 0
IsCoherent r =
    (r.run_descriptor.session.session_id ≡ r.session_id)
    × (r.run_descriptor.session.participants ≡ ids_of r.participant_bindings)
    × IsUnique r.run_descriptor.execution.tags
    × IsStarting r r.initiator
