-- ===== src/Decider/Waiting.antt =====
-- Which signals the coordinator waits for before it commits, and that it then comes to an end.
use examples_service.Common.{
  ◌≤◌, ◌<◌, ◌≡◌, ◌⊎◌, inl, inr, refl, ap, String, Bool, true, false, not, ◌||◌,
}
use examples_service.Common.{Option, none, some, List, [], ◌∷◌, arith, Bool-cases, All}
use examples_service.Common.{◌==◌, string_eq, if◌then◌else◌, length}
use examples_service.Common.Dict.{Dict, insert, length-le-insert}
use examples_service.Js.{Value, Fields, end, field}
use text.Mathlib.TextEquality.{eq_iff}
use examples_service.Policy.Number.{Number}
use examples_service.Policy.Strategy.{SpecialistSignal, is_quorum_met, type_of}
use examples_service.Decider.Guards.{MayCommit, try_commit-cases}
use examples_service.Decider.{Phase, suspending, holding, resuming}
use examples_service.Decider.{
  Event, proposal, deadline, held, returned, refused, IncomingMessage, HandlerContext,
}
use examples_service.Decider.{Bootstrap, State, is_set, initial, decide_now}
use examples_service.Decider.{
  begin_commit, try_commit, on_proposal, record_signal, emit_context, on_deadline,
}
use examples_service.Decider.{on_returned, on_refused, on_held, step, run, expected}

module _ {F : Number} (b : Bootstrap F) where
  -- A commit has waited for as many senders as there are specialists.
  abbrev IsWaited : State F → Type 0
  IsWaited s = s.committed ≡ true → expected b ≤ length s.signals

  decide_now-signals : (s : State F) → (decide_now b s).signals ≡ s.signals
  unfolding decide_now
  decide_now-signals s = ground arith

  decide_now-committed : (s : State F) → (decide_now b s).committed ≡ s.committed
  unfolding decide_now
  decide_now-committed s = ground arith

  begin_commit-signals :
      (ctx : HandlerContext) (s : State F) → (begin_commit b ctx s).signals ≡ s.signals
  begin_commit-signals ctx s =
      ground
        (arith, decide_now-signals (record s { committed = true; wait_timer = false; ctx = ctx }))

  try_commit-IsWaited :
      (ctx : HandlerContext) (force : Bool) (s : State F)
      → (MayCommit b force s → expected b ≤ length s.signals)
      → IsWaited s
      → IsWaited (try_commit b ctx force s)
  try_commit-IsWaited ctx force s enough w = elim (try_commit-cases b ctx force s) [
    | inl same ↦ rw same w
    | inr (may, begins) ↦ λ c. rw (begins, begin_commit-signals ctx s) (enough may)
  ]

  record_signal-IsWaited :
      (m : IncomingMessage) (ctx : HandlerContext) (x : SpecialistSignal F) (s : State F)
      → IsWaited s
      → IsWaited (record_signal b m ctx x s)
  unfolding record_signal
  record_signal-IsWaited m ctx x s w =
      let t = record s { signals = insert m.sender x s.signals; pending = some ctx } in
      elim (Bool-cases (not (is_set m.proposal_id) || m.sender == b.participant_id)) [
        | inl ignored ↦ rw ignored w
        | inr taken ↦ rw taken (
            try_commit-IsWaited ctx false t
              (λ may. elim may.waited [ inl forced ↦ cc | inr enough ↦ enough ])
              (λ c. omega (arith, w c, length-le-insert m.sender x s.signals)))
      ]

  emit_context-signals :
      (fs : Fields) (s : State F)
      → ((emit_context b fs s).signals ≡ s.signals)
        × ((emit_context b fs s).committed ≡ s.committed)
  emit_context-signals end s = (refl, refl)
  emit_context-signals (field k v fs) s = (refl, refl)

  on_proposal-IsWaited :
      (m : IncomingMessage) (s : State F) → IsWaited s → IsWaited (on_proposal b m s)
  unfolding on_proposal
  on_proposal-IsWaited m s w = ground (
    arith,
    emit_context-signals b.session_context
        (record s { proposal_id = m.proposal_id; session_context_emitted = true }),
  )

  on_held-IsWaited : (p : Phase) (s : State F) → IsWaited s → IsWaited (on_held b p s)
  on_held-IsWaited holding s w = w
  on_held-IsWaited _ s w = w

  on_returned-IsWaited : (p : Phase) (s : State F) → IsWaited s → IsWaited (on_returned b p s)
  on_returned-IsWaited resuming s w = ground (arith, decide_now-signals s, decide_now-committed s)
  on_returned-IsWaited _ s w = ground arith

  on_refused-IsWaited :
      (why : String) (p : Phase) (s : State F) → IsWaited s → IsWaited (on_refused b why p s)
  on_refused-IsWaited why suspending s w =
      ground (arith, decide_now-signals s, decide_now-committed s)
  on_refused-IsWaited why resuming s w =
      ground (arith, decide_now-signals s, decide_now-committed s)
  on_refused-IsWaited why _ s w = ground arith

  -- The policies under which only a full set of signals is a quorum.
  abbrev IsPatient : Type 0
  IsPatient = (type_of b.policy_hints ≡ "none") ⊎ (type_of b.policy_hints ≡ "unanimous")

  quorum_of_IsPatient :
      (signals : Dict (SpecialistSignal F))
      → IsPatient
      → is_quorum_met b.policy_hints signals (expected b) ≡ true
      → expected b ≤ length signals
  unfolding is_quorum_met
  quorum_of_IsPatient signals (inl pass) q =
      ground
        (arith, eq_iff (type_of b.policy_hints) "none", eq_iff (type_of b.policy_hints) "unanimous")
  quorum_of_IsPatient signals (inr all) q =
      ground
        (arith, eq_iff (type_of b.policy_hints) "none", eq_iff (type_of b.policy_hints) "unanimous")

  on_deadline-IsWaited :
      (p : Option HandlerContext) (s : State F)
      → IsPatient
      → IsWaited s
      → IsWaited (on_deadline b p s)
  on_deadline-IsWaited none s h w = w
  on_deadline-IsWaited (some ctx) s h w =
      elim s.committed as (λ c. IsWaited (if c then s else try_commit b ctx true s)) [
        | true ↦ w
        | false ↦
            try_commit-IsWaited ctx true s (λ may. quorum_of_IsPatient s.signals h may.quorum) w
      ]

  try_commit-signals :
      (ctx : HandlerContext) (force : Bool) (s : State F)
      → (try_commit b ctx force s).signals ≡ s.signals
  try_commit-signals ctx force s = elim (try_commit-cases b ctx force s) [
    | inl same ↦ rw same
    | inr (_, begins) ↦ rw begins (begin_commit-signals ctx s)
  ]

  on_deadline-signals :
      (p : Option HandlerContext) (s : State F) → (on_deadline b p s).signals ≡ s.signals
  on_deadline-signals none s = refl
  on_deadline-signals (some ctx) s = ground (arith, try_commit-signals ctx true s)

-- A deadline is no event of the list.
abbrev pub IsOther : Event → Type 0
IsOther deadline = ⊥
IsOther _ = Unit

module _ {F : Number} (to_number : Value → F.Carrier) (b : Bootstrap F) where
  step-IsWaited :
      (e : Event) (s : State F)
      → (IsOther e ⊎ IsPatient b)
      → IsWaited b s
      → IsWaited b (step to_number b e s)
  unfolding step
  step-IsWaited (proposal m) s h w = on_proposal-IsWaited b m s w
  step-IsWaited (Event.evaluation m ctx) s h w = record_signal-IsWaited b m ctx _ s w
  step-IsWaited (Event.vote m ctx) s h w = record_signal-IsWaited b m ctx _ s w
  step-IsWaited (Event.objection m ctx) s h w = record_signal-IsWaited b m ctx _ s w
  step-IsWaited deadline s (inl other) w = absurd other
  step-IsWaited deadline s (inr patient) w = on_deadline-IsWaited b s.pending s patient w
  step-IsWaited held s h w = on_held-IsWaited b s.phase s w
  step-IsWaited returned s h w = on_returned-IsWaited b s.phase s w
  step-IsWaited (refused why) s h w = on_refused-IsWaited b why s.phase s w

  run-IsWaited :
      (es : List Event) (s : State F)
      → (All IsOther es ⊎ IsPatient b)
      → IsWaited b s
      → IsWaited b (run to_number b es s)
  unfolding run
  run-IsWaited [] s h w = w
  run-IsWaited (e ∷ es) s (inl (o, os)) w =
      run-IsWaited es (step to_number b e s) (inl os) (step-IsWaited e s (inl o) w)
  run-IsWaited (e ∷ es) s (inr h) w =
      run-IsWaited es (step to_number b e s) (inr h) (step-IsWaited e s (inr h) w)

  step_deadline-signals : (s : State F) → (step to_number b deadline s).signals ≡ s.signals
  unfolding step
  step_deadline-signals s = on_deadline-signals b s.pending s

  -- Where the deadline does not pass, the coordinator commits only when it holds as many signals as
  -- there are specialists.
  pub run_waits :
      (es : List Event)
      → All IsOther es
      → (run to_number b es (initial b)).committed ≡ true
      → expected b ≤ length (run to_number b es (initial b)).signals
  run_waits es h = run-IsWaited es (initial b) (inl h) (λ c. cc)

  -- Under the policies `none` and `unanimous`, whatever came before: while a specialist is silent, the
  -- deadline does not make the coordinator commit.
  pub deadline_without_commit :
      (es : List Event)
      → (type_of b.policy_hints ≡ "none") ⊎ (type_of b.policy_hints ≡ "unanimous")
      → length (run to_number b es (initial b)).signals < expected b
      → (step to_number b deadline (run to_number b es (initial b))).committed ≡ false
  deadline_without_commit es h few =
      let s = run to_number b es (initial b) in
      elim (Bool-cases (step to_number b deadline s).committed) [
        | inl done ↦ absurd (
            omega (
              arith,
              step-IsWaited deadline s (inr h) (run-IsWaited es (initial b) (inr h) (λ c. cc)) done,
              ap length (step_deadline-signals s),
            ))
        | inr still ↦ still
      ]
