-- ===== src/Decider.antt =====
-- src/example-agents/runtime/risk-decider.worker.ts: the coordinator of a session.
mod Session
pub mod Guards
pub mod Once
pub mod Announce
pub mod Waiting
pub mod Ending
pub mod Ballots
mod Tests
unfoldable pub use Session.*
use examples_service.Common.{ℕ, ◌+◌, String, ◌<>◌, Bool, true, false, not, ◌&&◌, ◌||◌}
use examples_service.Common.{Option, none, some, List, [], ◌∷◌, ◌++◌}
use examples_service.Common.{ltb, ◌==◌, string_eq, if◌then◌else◌, length, filter}
use examples_service.Common.Dict.{Dict, insert}
use examples_service.Common.Text.{truthy, codes, upper, includes_ignoring_case}
use examples_service.Js.{Value, undefined, null, num, Fields, end, field, get, to_text}
use examples_service.Policy.Number.{Number}
use examples_service.Policy.Strategy.{Action, decline, Vote, reject, PolicyDecision, PolicyHints}
use examples_service.Policy.Strategy.{SpecialistSignal, MessageType, is_quorum_met, decide, approve}

module _ {F : Number} (b : Bootstrap F) where
  -- `recipients.length`, the number of specialists that are waited for
  abbrev pub expected : ℕ
  expected = length (filter (λ p. not (p == b.participant_id)) b.participants)

  abbrev pub initial : State F
  initial = record {
    signals = [];
    proposal_id = none;
    session_context_emitted = false;
    committed = false;
    pending = none;
    wait_timer = false;
    phase = collecting;
    ctx = record { can_vote = false; can_commit = false };
    effects = [];
  }

  abbrev pub emit : Effect → State F → State F
  emit e s = record s { effects = s.effects ++ (e ∷ []) }

  -- `emitSessionContext`; an empty context is not sent.
  abbrev pub emit_context : Fields → State F → State F
  emit_context end s = s
  emit_context (field k v fs) s = emit (send_context (field k v fs)) s

  abbrev pub emit_session_context : State F → State F
  emit_session_context s = emit_context b.session_context s

  -- The end of `tryCommit` up to its first wait: the decision over the signals of this moment,
  -- and the vote.
  pub decide_now : State F → State F
  decide_now s =
      let d = decide b.policy_hints s.signals in
      let t = record s { phase = voting d } in
      if s.ctx.can_vote then emit (vote (text_of s.proposal_id) d.vote d.reason) t else t

  abbrev pub send_commit : PolicyDecision → State F → State F
  send_commit d s =
      let t = record s { phase = committing d } in
      if s.ctx.can_commit
      then emit
          (commit d.action d.reason (text_of s.proposal_id <> "-final") (outcome_positive d.action))
          t
      else t

  -- The suspend demo is asked for by the customer's id, and needs a session id.
  pub wants_suspend : Bool
  wants_suspend =
      includes_ignoring_case (codes "suspend")
        (codes (text_or (get "customerId" b.session_context) ""))
      && truthy b.session_id

  abbrev pub begin_commit : HandlerContext → State F → State F
  begin_commit ctx s =
      let t = record s { committed = true; wait_timer = false; ctx = ctx } in
      if wants_suspend
      then emit (suspend_session b.session_id) (record t { phase = suspending })
      else decide_now t

  -- `tryCommit(ctx, force)`, up to its first wait
  pub try_commit : HandlerContext → Bool → State F → State F
  try_commit ctx force s =
      if s.committed || not (is_set s.proposal_id)
      then s
      else if not force && ltb (length s.signals) expected
      then s
      else if not (is_quorum_met b.policy_hints s.signals expected)
      then s
      else begin_commit ctx s

  pub on_proposal : IncomingMessage → State F → State F
  on_proposal m s =
      if is_set s.proposal_id
      then s
      else (let t = record s { proposal_id = m.proposal_id } in
          let u =
            if t.session_context_emitted
            then t
            else emit_session_context (record t { session_context_emitted = true }) in
          record u { wait_timer = true })

  -- The shared shape of the three handlers.
  pub record_signal : IncomingMessage → HandlerContext → SpecialistSignal F → State F → State F
  record_signal m ctx signal s =
      if not (is_set m.proposal_id) || m.sender == b.participant_id
      then s
      else try_commit ctx false
          (record s { signals = insert m.sender signal s.signals; pending = some ctx })

  abbrev pub on_deadline : Option HandlerContext → State F → State F
  on_deadline none s = s
  on_deadline (some ctx) s = if s.committed then s else try_commit ctx true s

  -- What an awaited call that returns, or that is refused, makes of `tryCommit`.
  abbrev pub on_returned : Phase → State F → State F
  on_returned suspending s = record s { phase = holding }
  on_returned resuming s = decide_now s
  on_returned (voting d) s = send_commit d s
  on_returned (committing d) s = record s { phase = finished d }
  on_returned (cancelling d) s = record s { phase = finished d }
  on_returned _ s = s

  abbrev pub on_refused : String → Phase → State F → State F
  on_refused why suspending s = decide_now s
  on_refused why resuming s = decide_now s
  on_refused why (voting d) s = send_commit d s
  on_refused why (committing d) s =
      if truthy b.session_id
      then emit (cancel_session b.session_id ("commitment rejected by runtime: " <> why))
          (record s { phase = cancelling d })
      else record s { phase = finished d }
  on_refused why (cancelling d) s = record s { phase = finished d }
  on_refused why _ s = s

  abbrev pub on_held : Phase → State F → State F
  on_held holding s = emit (resume_session b.session_id) (record s { phase = resuming })
  on_held _ s = s

module _ {F : Number} (to_number : Value → F.Carrier) (b : Bootstrap F) where
  pub step : Event → State F → State F
  step (proposal m) s = on_proposal b m s
  step (Event.evaluation m ctx) s = record_signal b m ctx (evaluation_signal to_number m) s
  step (Event.vote m ctx) s = record_signal b m ctx (vote_signal m) s
  step (Event.objection m ctx) s = record_signal b m ctx (objection_signal m) s
  step deadline s = on_deadline b s.pending s
  step held s = on_held b s.phase s
  step returned s = on_returned b s.phase s
  step (refused why) s = on_refused b why s.phase s

  pub run : List Event → State F → State F
  run [] s = s
  run (e ∷ es) s = run es (step e s)
