-- ===== src/Hosting/ProcessHost/Laws.antt =====
-- What an agent that is launched gets, and when none is.
use examples_service.Common.{
  String, ◌≡◌, refl, ap, ◌∙◌, sym, Bool, true, false, Option, none, some, ◌↔◌, string_eq, arith,
}
use text.Mathlib.TextEquality.{eq_iff}
use examples_service.Common.Dict.{lookup}
use examples_service.Js.{Value, str, bool, num, null, obj, arr, get, undefined}
use examples_service.Contracts.{
  ExampleAgentDefinition, ParticipantAgentBinding, ExampleAgentRunContext, InitiatorPayload,
}
use examples_service.Config.{AppConfig}
use examples_service.Hosting.ProcessHost.Payload.{
  is_initiator, initiates, build_bootstrap_payload, initiator_of, is_same_text, derive_scopes,
}

abbrev pub is_some {ℓ} : {A : Type ℓ} → Option A → Bool
is_some none = false
is_some (some a) = true

abbrev text_in : Value → String
text_in (str s) = s
text_in v = ""

same_text_iff : (v : Value) (t : String) → (is_same_text v t ≡ true) ↔ (v ≡ str t)
same_text_iff (str s) t = (λ h. ap str ((eq_iff s t).0 h), λ h. (eq_iff s t).1 (ap text_in h))
same_text_iff undefined t = ground arith
same_text_iff null t = ground arith
same_text_iff (bool b) t = ground arith
same_text_iff (num n) t = ground arith
same_text_iff (obj fs) t = ground arith
same_text_iff (arr xs) t = ground arith

none_not_some : {i : InitiatorPayload} → none ≡ some i → ⊥
none_not_some h = cc

same_of_some : {i j : InitiatorPayload} → some i ≡ some j → i ≡ j
same_of_some h = cc

initiator_of-some :
    (o : Option InitiatorPayload) (t : String)
    → is_some (initiator_of (initiates o t) o) ≡ initiates o t
initiator_of-some none t = refl
initiator_of-some (some i) t = ground arith

initiates_iff :
    (o : Option InitiatorPayload) (t : String)
    → (initiates o t ≡ true) ↔ ((i : InitiatorPayload) × (o ≡ some i) × (i.participant_id ≡ str t))
initiates_iff none t = (λ h. absurd (ground arith), λ (i, e, h). absurd (none_not_some e))
initiates_iff (some i) t = (
  λ h. (i, refl, (same_text_iff i.participant_id t).0 h),
  λ (j, e, h).
      (same_text_iff i.participant_id t).1 (ap (λ k. k.participant_id) (same_of_some e) ∙ h),
)

-- The payload of a session start goes to the agent that the run names as its initiator, and to no
-- other; and where the settings do not change the scopes of the agent, its token allows it to start
-- sessions exactly if it has that payload.
pub build_bootstrap-initiator :
    (config : AppConfig) (definition : ExampleAgentDefinition) (binding : ParticipantAgentBinding)
    (context : ExampleAgentRunContext) (token : String)
    → let payload = build_bootstrap_payload config definition binding context token in
      ((is_some payload.initiator ≡ true) ↔ (
        (i : InitiatorPayload) × (context.initiator ≡ some i)
        × (i.participant_id ≡ str binding.participant_id)))
      × (lookup binding.participant_id config.auth_scope_overrides ≡ none
          → get "can_start_sessions"
              (derive_scopes config binding.participant_id context (is_initiator context binding))
            ≡ bool (is_some payload.initiator))
unfolding build_bootstrap_payload derive_scopes get
build_bootstrap-initiator config definition binding context token =
    let told = initiator_of-some context.initiator binding.participant_id in
    (
      (
        λ h. (initiates_iff context.initiator binding.participant_id).0 (sym told ∙ h),
        λ h. told ∙ (initiates_iff context.initiator binding.participant_id).1 h,
      ),
      λ h. rw h (ap bool (sym told)),
    )
