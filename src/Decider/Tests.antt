-- ===== src/Decider/Tests.antt =====
-- Runs of the coordinator, and its theorems at them.
use examples_service.Common.{
  ◌≢◌, ◌↔◌, ◌≡◌, ◌≤◌, ◌<◌, inl, refl, true, false, Option, none, some, List, [], ◌∷◌, arith, ℕ,
  String, All, count, length,
}
use examples_service.Common.Dict.{insert, values}
use examples_service.Common.Text.{upper, includes_ignoring_case}
use examples_service.Js.{Value, str, Fields, end, field, get}
use examples_service.Policy.Number.Hundredths.{hundredths}
use examples_service.Policy.Strategy.{
  is_rejection, PolicyHints, says, is_quorum_met, decide, PolicyDecision,
}
use examples_service.Decider.{
  vote_signal, IncomingMessage, HandlerContext, Event, proposal, deadline, returned, Bootstrap,
  State, run, step, initial, expected,
}
use examples_service.Decider.{
  finished, on_proposal, record_signal, text_or, decide_now, try_commit, wants_suspend,
}
use examples_service.Decider.Once.{is_vote, is_commit, run_once}
use examples_service.Decider.Announce.{run-Announces}
use examples_service.Decider.Announce.Announced.{Announces, IsSound, decision_of}
use examples_service.Decider.Waiting.{run_waits, deadline_without_commit}
use examples_service.Decider.Ballots.{vote_value, vote_signal-counts}
use examples_service.Decider.Guards.{MayCommit}
use examples_service.Decider.Ending.{settle, deadline_ends}

abbrev hints : String → PolicyHints hundredths
hints name = record {
  type = some name;
  description = none;
  threshold = none;
  veto_enabled = none;
  critical_severity_vetoes = none;
  veto_roles = none;
  veto_threshold = none;
  minimum_confidence = none;
  designated_roles = none;
}

abbrev boot : String → Bootstrap hundredths
boot name = record {
  participant_id = "risk";
  session_id = "s1";
  participants = "risk" ∷ "fraud" ∷ "growth" ∷ [];
  policy_hints = hints name;
  session_context = end;
}

abbrev to_number : Value → ℕ
to_number v = 100

abbrev message : String → Fields → IncomingMessage
message who fields = record { proposal_id = some "p"; sender = who; payload = fields }

abbrev ctx : HandlerContext
ctx = record { can_vote = true; can_commit = true }

abbrev says_yes : String → Event
says_yes who = Event.vote (message who (field "vote" (str "approve") end)) ctx

abbrev both : List Event
both =
    proposal (message "risk" end) ∷ says_yes "fraud" ∷ says_yes "growth" ∷ returned ∷ returned ∷ []

abbrev one_silent : List Event
one_silent = proposal (message "risk" end) ∷ says_yes "fraud" ∷ []

both_commit :
    (run {F = hundredths} to_number (boot "none") both (initial (boot "none"))).committed ≡ true
unfolding run step on_proposal record_signal text_or decide_now try_commit wants_suspend
    includes_ignoring_case insert get is_quorum_met decide says values upper
both_commit = refl

one_silent_waits :
    (run {F = hundredths} to_number (boot "none") one_silent (initial (boot "none"))).committed
    ≡ false
unfolding run step on_proposal record_signal text_or decide_now try_commit wants_suspend
    includes_ignoring_case insert get is_quorum_met decide says values upper
one_silent_waits = refl

run_once_example :
    let s = run {F = hundredths} to_number (boot "none") both (initial (boot "none")) in
    (count is_vote s.effects ≤ 1) × (count is_commit s.effects ≤ 1)
run_once_example = run_once {F = hundredths} to_number (boot "none") both

run-Announces_example :
    let s = run {F = hundredths} to_number (boot "none") both (initial (boot "none")) in
    All (Announces (decision_of s.phase)) s.effects × IsSound (decision_of s.phase)
run-Announces_example = run-Announces {F = hundredths} to_number (boot "none") both

run_waits_example :
    expected (boot "none")
    ≤ length (run {F = hundredths} to_number (boot "none") both (initial (boot "none"))).signals
run_waits_example =
    run_waits {F = hundredths} to_number (boot "none") both (tt, (tt, (tt, (tt, (tt, tt)))))
      both_commit

few :
    length (run {F = hundredths} to_number (boot "none") one_silent (initial (boot "none"))).signals
    < 2
unfolding run step on_proposal record_signal text_or decide_now try_commit wants_suspend
    includes_ignoring_case insert get is_quorum_met decide says values upper
few = omega arith

deadline_without_commit_example :
    (step {F = hundredths} to_number
      (boot "none")
      deadline
      (run {F = hundredths} to_number (boot "none") one_silent (initial (boot "none")))).committed
    ≡ false
deadline_without_commit_example =
    deadline_without_commit {F = hundredths} to_number (boot "none") one_silent (inl refl) few

abbrev majority_state : State hundredths
majority_state =
    run {F = hundredths} to_number (boot "majority") one_silent (initial (boot "majority"))

majority_pending : majority_state.pending ≡ some ctx
unfolding run step on_proposal record_signal text_or decide_now try_commit wants_suspend
    includes_ignoring_case insert get is_quorum_met decide says values upper
majority_pending = refl

majority-MayCommit : MayCommit (boot "majority") true majority_state
unfolding run step on_proposal record_signal text_or decide_now try_commit wants_suspend
    includes_ignoring_case insert get is_quorum_met decide says values upper
majority-MayCommit = record { still_open = refl; known = refl; waited = inl refl; quorum = refl }

abbrev answers : List (Option String)
answers = none ∷ some "denied" ∷ none ∷ none ∷ none ∷ none ∷ []

deadline_ends_example :
    (d : PolicyDecision) × ((settle {F = hundredths} to_number
        (boot "majority")
        answers
        (step {F = hundredths} to_number (boot "majority") deadline majority_state)).phase
      ≡ finished d)
deadline_ends_example =
    deadline_ends {F = hundredths} to_number (boot "majority") ctx majority_state answers
      majority_pending majority-MayCommit (omega arith)

abbrev abstaining : IncomingMessage
abstaining = message "fraud" (field "vote" (str "abstain") end)

vote_signal-counts_example :
    ((says "APPROVE" (vote_signal {F = hundredths} abstaining).recommendation ≡ true)
      ↔ (vote_value abstaining ≡ "APPROVE"))
    × ((is_rejection (vote_signal {F = hundredths} abstaining) ≡ true)
        ↔ ((vote_value abstaining ≢ "APPROVE") × (vote_value abstaining ≢ "ABSTAIN")))
    × (says "ABSTAIN" (vote_signal {F = hundredths} abstaining).recommendation ≡ false)
vote_signal-counts_example = vote_signal-counts hundredths abstaining
