-- ===== src/Decider/Session.antt =====
-- The types of src/example-agents/runtime/risk-decider.worker.ts, and the signals that its handlers record.
use examples_service.Common.{String, ◌<>◌, Bool, true, false}
use examples_service.Common.{Option, none, some, List}
use examples_service.Common.{◌==◌, string_eq, if◌then◌else◌}
use examples_service.Common.Dict.{Dict}
use examples_service.Common.Text.{truthy, upper}
use examples_service.Js.{Value, undefined, null, num, Fields, get, to_text}
use examples_service.Policy.Number.{Number}
use examples_service.Policy.Strategy.{Action, decline, Vote, PolicyDecision, PolicyHints}
use examples_service.Policy.Strategy.{SpecialistSignal, MessageType}

-- `message.proposalId`, `message.sender` and `message.payload`
pub record IncomingMessage : Type 0 where
  pub proposal_id : Option String
  pub sender : String
  pub payload : Fields

-- Which of `ctx.actions.vote` and `ctx.actions.commit` are there.
pub record HandlerContext : Type 0 where
  pub can_vote : Bool
  pub can_commit : Bool

-- The calls of the coordinator on its session.
pub data Effect : Type 0 where
  send_context : Fields → Effect
  suspend_session resume_session : String → Effect
  vote : String → Vote → String → Effect
  -- `commit`: the action, its reason, `commitmentId` and `outcomePositive`
  commit : Action → String → String → Bool → Effect
  cancel_session : String → String → Effect

-- Where `tryCommit` waits, once it has passed its guards.
pub data Phase : Type 0 where
  collecting suspending holding resuming : Phase
  -- The decision is kept once it is made.
  voting committing cancelling finished : PolicyDecision → Phase

pub data Event : Type 0 where
  proposal : IncomingMessage → Event
  evaluation objection vote : IncomingMessage → HandlerContext → Event
  -- the timer of `WAIT_ALL_TIMEOUT_MS`, and that of the demo's hold
  deadline held : Event
  -- the awaited call returns, or is refused with a message
  returned : Event
  refused : String → Event

-- The fields of the bootstrap payload that the coordinator reads.
pub record Bootstrap (F : Number) : Type 0 where
  pub participant_id : String
  pub session_id : String
  pub participants : List String
  pub policy_hints : PolicyHints F
  pub session_context : Fields

pub record State (F : Number) : Type 0 where
  pub signals : Dict (SpecialistSignal F)
  pub proposal_id : Option String
  pub session_context_emitted : Bool
  pub committed : Bool
  -- `pendingHandlerCtx`
  pub pending : Option HandlerContext
  pub wait_timer : Bool
  pub phase : Phase
  -- the context that `tryCommit` was called with
  pub ctx : HandlerContext
  pub effects : List Effect

-- The truth value of an optional text.
abbrev pub is_set : Option String → Bool
is_set none = false
is_set (some s) = truthy s

abbrev pub text_of : Option String → String
text_of none = "undefined"
text_of (some s) = s

-- `String(v ?? d)`
unfoldable pub text_or : Value → String → String
text_or undefined d = d
text_or null d = d
text_or v d = to_text v

-- `v ?? d`
unfoldable pub value_or : Value → Value → Value
value_or undefined d = d
value_or null d = d
value_or v d = v

-- `inferOutcomePositive`
abbrev pub outcome_positive : Action → Bool
outcome_positive decline = false
outcome_positive _ = true

-- What a vote, in upper case, counts as among the evaluations.
unfoldable pub vote_recommendation : String → String
vote_recommendation value =
    if value == "APPROVE" then "APPROVE" else if value == "ABSTAIN" then "REVIEW" else "BLOCK"

-- The signals that the three handlers record for a sender.
module _ {F : Number} (to_number : Value → F.Carrier) where
  abbrev pub evaluation_signal : IncomingMessage → SpecialistSignal F
  evaluation_signal m = record {
    participant_id = m.sender;
    message_type = MessageType.evaluation;
    recommendation = some (text_or (get "recommendation" m.payload) "");
    confidence = some (to_number (value_or (get "confidence" m.payload) (num "0")));
    severity = none;
    reason = some (text_or (get "reason" m.payload) "");
  }

module _ {F : Number} where
  abbrev pub vote_signal : IncomingMessage → SpecialistSignal F
  vote_signal m =
      let value = upper (text_or (get "vote" m.payload) "") in
      record {
        participant_id = m.sender;
        message_type = MessageType.evaluation;
        recommendation = some (vote_recommendation value);
        confidence = some F.one;
        severity = none;
        reason = some (text_or (get "reason" m.payload) ("vote=" <> value));
      }

  abbrev pub objection_signal : IncomingMessage → SpecialistSignal F
  objection_signal m = record {
    participant_id = m.sender;
    message_type = MessageType.objection;
    recommendation = none;
    confidence = none;
    severity = some (text_or (get "severity" m.payload) "high");
    reason = some (text_or (get "reason" m.payload) "");
  }
