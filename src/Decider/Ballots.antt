-- ===== src/Decider/Ballots.antt =====
-- What a vote of a specialist counts as.
use examples_service.Common.{
  ◌≡◌, ◌↔◌, ◌≢◌, String, true, false, ◌||◌, arith, some, Bool-cases, inl, inr,
}
use examples_service.Common.{◌==◌, string_eq}
use examples_service.Common.Text.{upper}
use examples_service.Js.{get}
use examples_service.Policy.Number.{Number}
use examples_service.Policy.Strategy.{says, is_rejection}
use examples_service.Decider.{IncomingMessage, text_or, vote_recommendation, vote_signal}
use text.Mathlib.TextEquality.{eq_iff}

-- The `vote` of the message, in upper case.
pub vote_value : IncomingMessage → String
vote_value m = upper (text_or (get "vote" m.payload) "")

recommendation_counts :
    (v : String)
    → let r = some (vote_recommendation v) in
      ((says "APPROVE" r ≡ true) ↔ (v ≡ "APPROVE"))
      × ((says "BLOCK" r || says "REJECT" r ≡ true) ↔ ((v ≢ "APPROVE") × (v ≢ "ABSTAIN")))
      × (says "ABSTAIN" r ≡ false)
unfolding says vote_recommendation upper
recommendation_counts v = elim (Bool-cases (v == "APPROVE")) [
  | inl approves ↦
      rw approves
        (ground (arith, eq_iff v "APPROVE", eq_iff v "ABSTAIN", eq_iff "APPROVE" "ABSTAIN"))
  | inr other ↦ rw other (elim (Bool-cases (v == "ABSTAIN")) [
    | inl abstains ↦ rw abstains (ground (arith, eq_iff v "APPROVE", eq_iff v "ABSTAIN"))
    | inr rejects ↦ rw rejects (ground (arith, eq_iff v "APPROVE", eq_iff v "ABSTAIN"))
  ])
]

-- A vote counts as an approval exactly if it is APPROVE, and as a rejection exactly if it is neither
-- APPROVE nor ABSTAIN; no vote, not even ABSTAIN, counts as an abstention of the policy.
pub vote_signal-counts :
    (F : Number) (m : IncomingMessage)
    → ((says "APPROVE" (vote_signal {F = F} m).recommendation ≡ true) ↔ (vote_value m ≡ "APPROVE"))
      × ((is_rejection (vote_signal {F = F} m) ≡ true)
          ↔ ((vote_value m ≢ "APPROVE") × (vote_value m ≢ "ABSTAIN")))
      × (says "ABSTAIN" (vote_signal {F = F} m).recommendation ≡ false)
unfolding vote_value
vote_signal-counts F m = recommendation_counts (vote_value m)
