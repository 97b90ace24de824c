-- ===== src/Run/Laws.antt =====
-- What a run hosts, and what it does to the result of the compiler.
use examples_service.Common.{
  String, ◌≡◌, refl, ap, ◌∙◌, sym, subst, true, Option, none, some, List, [], ◌∷◌, arith,
  Bool-cases, inl, inr, if_true, if_false, if◌then◌else◌,
}
use examples_service.Common.Text.{truthy}
use examples_service.Common.Dict.{Dict}
use examples_service.Common.Unique.{IsUnique}
use examples_service.Errors.{Result, ok, err}
use examples_service.Config.{AppConfig}
use examples_service.Contracts.{ExampleAgentDefinition, ExampleAgentRunContext, HostedExampleAgent}
use examples_service.Compiler.Outcome.{Outcome, returned, same_of_returned}
use examples_service.Compiler.Compile.{ids_of}
use examples_service.Compiler.Compile.Contracts.{CompileLaunchResult}
use examples_service.Compiler.Compile.Laws.{unique-IsUnique}
use examples_service.Hosting.Service.{
  HostProvider, attach_by, hosted_by, attach_agents, resolve_agents, apply_hosted_agents,
  materialize_hosted_agents,
}
use examples_service.Hosting.Service.Laws.{IsFaithful, hosted_ids, materialize-ids}
use examples_service.Run.{
  RunExampleRequest, RunExampleResult, Requester, add_tags, set_requester, set_label,
  apply_request_overrides, context_of, finished, attach_run, after_resolve, run_example,
  should_bootstrap,
}

-- What a step leaves as it was, and that it repeats no tag.
abbrev pub Keeps : CompileLaunchResult → CompileLaunchResult → Type 0
Keeps c d =
    (d.participant_bindings ≡ c.participant_bindings)
    × (IsUnique c.run_descriptor.execution.tags → IsUnique d.run_descriptor.execution.tags)

Keeps-trans : (c d e : CompileLaunchResult) → Keeps c d → Keeps d e → Keeps c e
Keeps-trans c d e (p, u) (q, v) = (q ∙ p, λ h. v (u h))

add_tags-Keeps : (tags : Option (List String)) (c : CompileLaunchResult) → Keeps c (add_tags tags c)
add_tags-Keeps none c = (refl, λ h. h)
add_tags-Keeps (some []) c = (refl, λ h. h)
add_tags-Keeps (some (t ∷ ts)) c = (refl, λ h. unique-IsUnique [] _ tt)

set_requester-Keeps : (r : Option Requester) (c : CompileLaunchResult) → Keeps c (set_requester r c)
set_requester-Keeps none c = (refl, λ h. h)
set_requester-Keeps (some r) c = (refl, λ h. h)

set_label-Keeps : (l : Option String) (c : CompileLaunchResult) → Keeps c (set_label l c)
set_label-Keeps none c = (refl, λ h. h)
set_label-Keeps (some l) c = elim (Bool-cases (truthy l)) [
  | inl e ↦ rw e (refl, λ h. h)
  | inr e ↦ rw e (refl, λ h. h)
]

overrides-Keeps :
    (request : RunExampleRequest) (c : CompileLaunchResult)
    → Keeps c (apply_request_overrides request c)
unfolding apply_request_overrides
overrides-Keeps request c =
    let d = add_tags request.tags c in
    let e = set_requester request.requester d in
    let f = set_label request.run_label e in
    Keeps-trans c d f (add_tags-Keeps request.tags c) (
      Keeps-trans d e f (set_requester-Keeps request.requester d)
        (set_label-Keeps request.run_label e))

abbrev outcome_of : {S : Type 0} → S × Outcome RunExampleResult → Outcome RunExampleResult
outcome_of x = x.1

-- A run of what has been compiled, whose agents are hosted.
abbrev pub IsHosted : CompileLaunchResult → RunExampleResult → Type 0
IsHosted c r =
    (hosted_ids r.hosted_agents ≡ ids_of c.participant_bindings)
    × Keeps c r.compiled
    × (r.session_id ≡ some r.compiled.session_id)

module _ {S : Type 0} (config : AppConfig) (catalog : Dict ExampleAgentDefinition)
    (provider : HostProvider S) (drawn : String) where
  finished-IsHosted :
      (c : CompileLaunchResult) (x : S × Result (List HostedExampleAgent)) (r : RunExampleResult)
      → ((agents : List HostedExampleAgent)
          → x.1 ≡ ok agents
          → hosted_ids agents ≡ ids_of c.participant_bindings)
      → (finished config catalog provider drawn c.session_id (hosted_by c x)).1 ≡ returned r
      → IsHosted c r
  unfolding apply_hosted_agents
  finished-IsHosted c (s, err e) r f h = absurd (ground arith)
  finished-IsHosted c (s, ok agents) r f h =
      subst (IsHosted c) (same_of_returned h) (f agents refl, (refl, λ u. u), refl)

  attach_run-IsHosted :
      (c : CompileLaunchResult) (s : S) (r : RunExampleResult)
      → ((context : ExampleAgentRunContext)
          → IsFaithful (attach_by provider context provider.attach))
      → (attach_run config catalog provider drawn c s).1 ≡ returned r
      → IsHosted c r
  unfolding attach_agents
  attach_run-IsHosted c s r faithful h =
      let session_id = if truthy c.session_id then c.session_id else drawn in
      let context = context_of session_id c in
      finished-IsHosted (record c { session_id = session_id })
        (materialize_hosted_agents catalog (attach_by provider context provider.attach)
          c.participant_bindings s)
        r
        (λ agents e.
          materialize-ids catalog (attach_by provider context provider.attach)
            c.participant_bindings s agents (faithful context) e)
        h

  after_resolve-IsHosted :
      (c : CompileLaunchResult) (x : S × Result (List HostedExampleAgent)) (r : RunExampleResult)
      → ((context : ExampleAgentRunContext)
          → IsFaithful (attach_by provider context provider.attach))
      → (after_resolve config catalog provider drawn (hosted_by c x)).1 ≡ returned r
      → IsHosted c r
  unfolding apply_hosted_agents
  after_resolve-IsHosted c (s, err e) r faithful h = absurd (ground arith)
  after_resolve-IsHosted c (s, ok agents) r faithful h =
      attach_run-IsHosted (apply_hosted_agents agents c) s r faithful h

  -- A run that returns has hosted, where agents are to be started, exactly one agent for each
  -- participant that the compiler has bound, in the order of the bindings, and none otherwise; with
  -- agents, the session id of the result is that of the compiled launch. The bindings are those of
  -- the compiler, and no tag stands twice, where none did. It is enough that the provider hosts an
  -- agent for the participant that it is asked for.
  pub run_example-hosts :
      (request : RunExampleRequest) (c : CompileLaunchResult) (s : S) (r : RunExampleResult)
      → ((context : ExampleAgentRunContext)
          → IsFaithful (attach_by provider context provider.attach))
      → (run_example config catalog provider drawn request (returned c) s).1 ≡ returned r
      → (hosted_ids r.hosted_agents ≡ (
          if should_bootstrap config request.bootstrap_agents
          then ids_of c.participant_bindings
          else []))
        × Keeps c r.compiled
        × (should_bootstrap config request.bootstrap_agents ≡ true
            → r.session_id ≡ some r.compiled.session_id)
  unfolding run_example resolve_agents
  run_example-hosts request c s r faithful h =
      let d = apply_request_overrides request c in
      let kept = overrides-Keeps request c in
      elim (Bool-cases (should_bootstrap config request.bootstrap_agents)) [
        | inl e ↦
            let (ids, more, session) =
              after_resolve-IsHosted d
                (materialize_hosted_agents catalog provider.resolve d.participant_bindings s) r
                faithful (ap outcome_of (sym (if_true _ e)) ∙ h) in
            (
              ids ∙ ap ids_of kept.0 ∙ sym (if_true _ e),
              Keeps-trans c d r.compiled kept more,
              λ g. session,
            )
        | inr e ↦
            let same = same_of_returned (ap outcome_of (sym (if_false _ e)) ∙ h) in
            (
              ap (λ x. hosted_ids x.hosted_agents) (sym same) ∙ sym (if_false _ e),
              subst (λ x. Keeps c x.compiled) same kept,
              λ g. absurd (ground arith),
            )
      ]
