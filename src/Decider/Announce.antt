-- ===== src/Decider/Announce.antt =====
-- What the coordinator announces: the vote and the commitment of a run carry one decision.
pub mod Announced
use examples_service.Decider.Announce.Announced.{
  IsAnnounced, decision_of, Announces-any, decision_of_unbegun, context_quiet, Announces, IsSound,
}
use examples_service.Common.{◌≡◌, ◌<>◌, refl, sym, ◌∙◌, subst, String, Bool, true, false, not, ◌||◌}
use examples_service.Common.{Option, none, some, List, [], ◌∷◌, arith, inl, inr, Bool-cases}
use examples_service.Common.{◌==◌, string_eq, if◌then◌else◌, All, All-snoc, All-mono}
use examples_service.Common.Dict.{insert}
use examples_service.Common.Text.{truthy}
use examples_service.Js.{Value, Fields, end, field}
use examples_service.Policy.Number.{Number}
use examples_service.Policy.Strategy.{PolicyDecision, SpecialistSignal, decide}
use examples_service.Policy.Strategy.Outcomes.{IsConsistent, decide-IsConsistent}
use examples_service.Decider.Guards.{try_commit-cases}
use examples_service.Decider.Once.{IsOrderly, initial-IsOrderly, step-IsOrderly, has_begun}
use examples_service.Decider.{Effect, send_context, vote, commit}
use examples_service.Decider.{
  Phase, collecting, suspending, holding, resuming, voting, committing, cancelling, finished,
}
use examples_service.Decider.{
  Event, proposal, deadline, held, returned, refused, IncomingMessage, HandlerContext,
}
use examples_service.Decider.{
  Bootstrap, State, is_set, outcome_positive, initial, emit, decide_now, wants_suspend,
}
use examples_service.Decider.{
  begin_commit, try_commit, on_proposal, record_signal, emit_context, on_deadline,
}
use examples_service.Decider.{send_commit, text_of, on_returned, on_refused, on_held, step, run}

module _ {F : Number} (b : Bootstrap F) where
  decide_now-IsAnnounced :
      (s : State F) → All (Announces none) s.effects → IsAnnounced (decide_now b s)
  unfolding decide_now
  decide_now-IsAnnounced s h =
      let d = decide b.policy_hints s.signals in
      let before = All-mono (Announces none) (Announces (some d)) (Announces-any d) s.effects h in
      let c = decide-IsConsistent b.policy_hints s.signals in
      elim (Bool-cases s.ctx.can_vote) [
        | inl can ↦
            rw can (record { announced = All-snoc _ _ s.effects before (refl, refl); sound = c })
        | inr cannot ↦ rw cannot (record { announced = before; sound = c })
      ]

  begin_commit-IsAnnounced :
      (ctx : HandlerContext) (s : State F)
      → All (Announces none) s.effects
      → IsAnnounced (begin_commit b ctx s)
  begin_commit-IsAnnounced ctx s h = elim (Bool-cases (wants_suspend b)) [
    | inl asked ↦ rw asked (record { announced = All-snoc _ _ s.effects h tt; sound = tt })
    | inr plain ↦ rw plain (decide_now-IsAnnounced _ h)
  ]

  -- Where nothing is decided yet, nothing is announced.
  undecided :
      (s : State F)
      → IsOrderly s
      → IsAnnounced s
      → s.committed ≡ false
      → All (Announces none) s.effects
  undecided s o a c =
      subst (λ d. All (Announces d) s.effects) (decision_of_unbegun s.phase (sym o.begun ∙ c))
        a.announced

  try_commit-IsAnnounced :
      (ctx : HandlerContext) (force : Bool) (s : State F)
      → IsOrderly s
      → IsAnnounced s
      → IsAnnounced (try_commit b ctx force s)
  try_commit-IsAnnounced ctx force s o a = elim (try_commit-cases b ctx force s) [
    | inl same ↦ rw same a
    | inr (may, begins) ↦
        rw begins (begin_commit-IsAnnounced ctx s (undecided s o a may.still_open))
  ]

  emit_context-IsAnnounced :
      (fs : Fields) (s : State F) → IsAnnounced s → IsAnnounced (emit_context b fs s)
  emit_context-IsAnnounced end s a = a
  emit_context-IsAnnounced (field k v fs) s a = record {
    announced = All-snoc _ _ s.effects a.announced (context_quiet (decision_of s.phase) _);
    sound = a.sound;
  }

  on_proposal-IsAnnounced :
      (m : IncomingMessage) (s : State F) → IsAnnounced s → IsAnnounced (on_proposal b m s)
  unfolding on_proposal
  on_proposal-IsAnnounced m s a = elim (Bool-cases (is_set s.proposal_id)) [
    | inl known ↦ rw known a
    | inr new ↦ rw new (elim (Bool-cases s.session_context_emitted) [
      | inl sent ↦ rw sent (record { announced = a.announced; sound = a.sound })
      | inr unsent ↦
          let t = record s { proposal_id = m.proposal_id; session_context_emitted = true } in
          let e =
            emit_context-IsAnnounced b.session_context t
              (record { announced = a.announced; sound = a.sound }) in
          rw unsent (record { announced = e.announced; sound = e.sound })
    ])
  ]

  record_signal-IsAnnounced :
      (m : IncomingMessage) (ctx : HandlerContext) (x : SpecialistSignal F) (s : State F)
      → IsOrderly s
      → IsAnnounced s
      → IsAnnounced (record_signal b m ctx x s)
  unfolding record_signal
  record_signal-IsAnnounced m ctx x s o a =
      let t = record s { signals = insert m.sender x s.signals; pending = some ctx } in
      elim (Bool-cases (not (is_set m.proposal_id) || m.sender == b.participant_id)) [
        | inl ignored ↦ rw ignored a
        | inr taken ↦ rw taken (
            try_commit-IsAnnounced ctx false t
              (record { begun = o.begun; votes = o.votes; commits = o.commits })
              (record { announced = a.announced; sound = a.sound }))
      ]

  on_deadline-IsAnnounced :
      (p : Option HandlerContext) (s : State F)
      → IsOrderly s
      → IsAnnounced s
      → IsAnnounced (on_deadline b p s)
  on_deadline-IsAnnounced none s o a = a
  on_deadline-IsAnnounced (some ctx) s o a =
      elim s.committed as (λ c. IsAnnounced (if c then s else try_commit b ctx true s)) [
        | true ↦ a
        | false ↦ try_commit-IsAnnounced ctx true s o a
      ]

  send_commit-IsAnnounced :
      (d : PolicyDecision) (s : State F)
      → All (Announces (some d)) s.effects
      → IsConsistent d
      → IsAnnounced (send_commit b d s)
  send_commit-IsAnnounced d s h c =
      elim s.ctx.can_commit
        as (λ can. IsAnnounced (
          let t = record s { phase = committing d } in
          if can
          then emit b
              (commit d.action d.reason (text_of s.proposal_id <> "-final")
                (outcome_positive d.action))
              t
          else t)) [
            | true ↦ record { announced = All-snoc _ _ s.effects h (refl, refl, refl); sound = c }
            | false ↦ record { announced = h; sound = c }
          ]

  -- The phase is matched; what it says of the effects is passed along with it.
  on_held-IsAnnounced :
      (p : Phase) (s : State F)
      → IsAnnounced s
      → All (Announces (decision_of p)) s.effects
      → IsAnnounced (on_held b p s)
  on_held-IsAnnounced holding s a h = record { announced = All-snoc _ _ s.effects h tt; sound = tt }
  on_held-IsAnnounced _ s a h = a

  on_returned-IsAnnounced :
      (p : Phase) (s : State F)
      → IsAnnounced s
      → All (Announces (decision_of p)) s.effects
      → IsSound (decision_of p)
      → IsAnnounced (on_returned b p s)
  on_returned-IsAnnounced suspending s a h c = record { announced = h; sound = tt }
  on_returned-IsAnnounced resuming s a h c = decide_now-IsAnnounced s h
  on_returned-IsAnnounced (voting d) s a h c = send_commit-IsAnnounced d s h c
  on_returned-IsAnnounced (committing d) s a h c = record { announced = h; sound = c }
  on_returned-IsAnnounced (cancelling d) s a h c = record { announced = h; sound = c }
  on_returned-IsAnnounced _ s a h c = a

  on_refused-IsAnnounced :
      (why : String) (p : Phase) (s : State F)
      → IsAnnounced s
      → All (Announces (decision_of p)) s.effects
      → IsSound (decision_of p)
      → IsAnnounced (on_refused b why p s)
  on_refused-IsAnnounced why suspending s a h c = decide_now-IsAnnounced s h
  on_refused-IsAnnounced why resuming s a h c = decide_now-IsAnnounced s h
  on_refused-IsAnnounced why (voting d) s a h c = send_commit-IsAnnounced d s h c
  on_refused-IsAnnounced why (committing d) s a h c = elim (Bool-cases (truthy b.session_id)) [
    | inl known ↦ rw known (record { announced = All-snoc _ _ s.effects h tt; sound = c })
    | inr unknown ↦ rw unknown (record { announced = h; sound = c })
  ]
  on_refused-IsAnnounced why (cancelling d) s a h c = record { announced = h; sound = c }
  on_refused-IsAnnounced why _ s a h c = a

module _ {F : Number} (to_number : Value → F.Carrier) (b : Bootstrap F) where
  step-IsAnnounced :
      (e : Event) (s : State F) → IsOrderly s → IsAnnounced s → IsAnnounced (step to_number b e s)
  unfolding step
  step-IsAnnounced (proposal m) s o a = on_proposal-IsAnnounced b m s a
  step-IsAnnounced (Event.evaluation m ctx) s o a = record_signal-IsAnnounced b m ctx _ s o a
  step-IsAnnounced (Event.vote m ctx) s o a = record_signal-IsAnnounced b m ctx _ s o a
  step-IsAnnounced (Event.objection m ctx) s o a = record_signal-IsAnnounced b m ctx _ s o a
  step-IsAnnounced deadline s o a = on_deadline-IsAnnounced b s.pending s o a
  step-IsAnnounced held s o a = on_held-IsAnnounced b s.phase s a a.announced
  step-IsAnnounced returned s o a = on_returned-IsAnnounced b s.phase s a a.announced a.sound
  step-IsAnnounced (refused why) s o a =
      on_refused-IsAnnounced b why s.phase s a a.announced a.sound

  run-IsAnnounced :
      (es : List Event) (s : State F)
      → IsOrderly s
      → IsAnnounced s
      → IsAnnounced (run to_number b es s)
  unfolding run
  run-IsAnnounced [] s o a = a
  run-IsAnnounced (e ∷ es) s o a =
      run-IsAnnounced es (step to_number b e s) (step-IsOrderly to_number b e s o)
        (step-IsAnnounced e s o a)

  -- Whatever arrives, and in whatever order: every vote and every commitment that has been sent
  -- carries the decision of the run, its reason included, a run without a decision has sent none,
  -- and the decision votes `reject` exactly where its action is `decline`.
  pub run-Announces :
      (es : List Event)
      → let s = run to_number b es (initial b) in
        All (Announces (decision_of s.phase)) s.effects × IsSound (decision_of s.phase)
  run-Announces es =
      let o : IsOrderly (initial b) = initial-IsOrderly b in
      let a = run-IsAnnounced es (initial b) o (record { announced = tt; sound = tt }) in
      (a.announced, a.sound)
