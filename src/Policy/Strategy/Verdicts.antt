-- ===== src/Policy/Strategy/Verdicts.antt =====
-- When each policy approves and declines, in terms of the single signals.
use examples_service.Common.{
  ◌≡◌, ◌↔◌, ◌≢◌, ◌⊎◌, true, false, Bool, arith, refl, ◌||◌, ◌&&◌, sym, ◌∙◌,
}
use examples_service.Common.{List, [], ◌∷◌, ℕ}
use examples_service.Common.{nat_eq, string_eq, length}
use examples_service.Common.{All, All-mono, count, any, length-filter-filter, count-eq-length}
use examples_service.Common.Dict.{Dict, values, length-values}
use text.Mathlib.TextEquality.{eq_iff}
use examples_service.Policy.Number.{Number, IsOrdered}
use examples_service.Policy.Strategy.{approve, decline}
use examples_service.Policy.Strategy.{evaluation}
use examples_service.Policy.Strategy.{PolicyHints, SpecialistSignal, decide, decide_all}
use examples_service.Policy.Strategy.{unanimous_vote, pass_through, type_of, is_vetoed}
use examples_service.Policy.Strategy.{
  says, is_qualified, is_disqualified, is_rejection, minimum_confidence_of,
}
use examples_service.Policy.Strategy.{approvals, rejections, objections, disqualified, is_objection}
use examples_service.Policy.Strategy.{confidence_of}
use examples_service.Policy.Strategy.Outcomes.{
  approve-ne-reject, unanimous_vote-eq-approve_iff, pass_through-eq-decline_iff,
}

module _ {F : Number} where
  -- An evaluation that recommends approval, with enough confidence.
  pub record IsApproval (least : F.Carrier) (s : SpecialistSignal F) : Type 0 where
    pub evaluates : s.message_type ≡ evaluation
    pub confident : F.ge (confidence_of s) least ≡ true
    pub approves : says "APPROVE" s.recommendation ≡ true

  -- An objection, or a rejection with enough confidence.
  abbrev pub is_negative : F.Carrier → SpecialistSignal F → Bool
  is_negative least s = is_objection s.message_type || is_qualified least s && is_rejection s

  is_approval : F.Carrier → SpecialistSignal F → Bool
  is_approval least s = is_qualified least s && says "APPROVE" s.recommendation

  is_approval_iff :
      (least : F.Carrier) (s : SpecialistSignal F)
      → (is_approval least s ≡ true) ↔ IsApproval least s
  unfolding is_approval
  is_approval_iff least s = (
    λ h. record { evaluates = ground arith; confident = ground arith; approves = ground arith },
    λ a. ground arith,
  )

  is_approval-not-negative :
      (least : F.Carrier) (s : SpecialistSignal F)
      → is_approval least s ≡ true
      → (is_negative least s ≡ false)
  unfolding is_approval
  is_approval-not-negative least s h = ground (arith, approve-ne-reject s.recommendation)

  is_approval-not-disqualified :
      IsOrdered F
      → (least : F.Carrier) (s : SpecialistSignal F) → is_approval least s ≡ true
      → is_disqualified least s ≡ false
  unfolding is_approval
  is_approval-not-disqualified L least s h = ground (arith, L.not-lt-of_ge (confidence_of s) least)

  -- The tallies, read off the signals.
  approvals-count :
      (least : F.Carrier) (all : List (SpecialistSignal F))
      → approvals least all ≡ count (is_approval least) all
  unfolding is_approval
  approvals-count least all = length-filter-filter _ _ all

  negatives :
      (least : F.Carrier) (all : List (SpecialistSignal F))
      → (any (is_negative least) all ≡ true) ↔ ((rejections least all ≢ 0) ⊎ (objections all ≢ 0))
  negatives least [] = ground arith
  negatives least (s ∷ all) = ground (arith, negatives least all)

  All-approvals :
      IsOrdered F
      → (least : F.Carrier) (all : List (SpecialistSignal F))
      → All (λ s. is_approval least s ≡ true) all
      → (rejections least all ≡ 0) × (objections all ≡ 0) × (disqualified least all ≡ 0)
  All-approvals L least [] h = (refl, refl, refl)
  All-approvals L least (s ∷ all) (a, h) = ground (
    arith,
    All-approvals L least all h,
    is_approval-not-negative least s a,
    is_approval-not-disqualified L least s a,
  )

-- The least confidence, at the strategy's settings.
module _ {F : Number} (hints : PolicyHints F) where
  abbrev least : F.Carrier
  least = minimum_confidence_of hints

  unanimous_action :
      (all : List (SpecialistSignal F)) (total : ℕ)
      → type_of hints ≡ "unanimous"
      → ((decide_all hints all total).action ≡ approve) ↔ (
          (is_vetoed hints all ≡ false)
          × ((unanimous_vote hints
                (approvals least all)
                (rejections least all)
                (objections all)
                (disqualified least all)
                total).action
              ≡ approve))
  unfolding decide_all
  unanimous_action all total t = rw t (ground arith)

  other_action :
      (all : List (SpecialistSignal F)) (total : ℕ)
      → type_of hints ≢ "unanimous"
      → type_of hints ≢ "supermajority"
      → type_of hints ≢ "majority"
      → ((decide_all hints all total).action ≡ decline) ↔ (
          (is_vetoed hints all ≡ true)
          ⊎ ((pass_through hints (rejections least all) (objections all)).action ≡ decline))
  unfolding decide_all
  other_action all total a b c = ground (
    arith,
    eq_iff (type_of hints) "unanimous",
    eq_iff (type_of hints) "supermajority",
    eq_iff (type_of hints) "majority",
  )

  unanimous_vote-All :
      IsOrdered F
      → (all : List (SpecialistSignal F))
      → ((unanimous_vote hints
            (approvals least all)
            (rejections least all)
            (objections all)
            (disqualified least all)
            (length all)).action
          ≡ approve)
        ↔ All (IsApproval least) all
  unanimous_vote-All L all = (
    λ h.
        let (_, _, _, same) = (unanimous_vote-eq-approve_iff hints _ _ _ _ _).0 h in
        All-mono _ _ (λ s. (is_approval_iff least s).0) all
          ((count-eq-length (is_approval least) all).0 (sym (approvals-count least all) ∙ same)),
    λ h.
        let yes_all = All-mono _ _ (λ s. (is_approval_iff least s).1) all h in
        let (r, o, l) = All-approvals L least all yes_all in
        (unanimous_vote-eq-approve_iff hints _ _ _ _ _).1 (
          r,
          o,
          l,
          approvals-count least all ∙ (count-eq-length (is_approval least) all).1 yes_all,
        ),
  )

  -- Under the policy `unanimous` the action is `approve` exactly where the veto is not met and
  -- every signal is an evaluation that recommends approval with enough confidence.
  pub decide-approve_of_unanimous :
      IsOrdered F
      → (signals : Dict (SpecialistSignal F)) → type_of hints ≡ "unanimous"
      → ((decide hints signals).action ≡ approve)
        ↔ ((is_vetoed hints (values signals) ≡ false) × All (IsApproval least) (values signals))
  unfolding decide
  decide-approve_of_unanimous L signals t =
      let (to, from) = unanimous_action (values signals) (length signals) t in
      let (all_to, all_from) = unanimous_vote-All L (values signals) in
      let size = length-values signals in
      (
        λ h. let (v, w) = to h in (v, all_to (rw size w)),
        λ (v, a). from (v, rw (← size) (all_from a)),
      )

  -- Under any policy but the three that count votes, the action is `decline` exactly where the
  -- veto is met, or some signal objects or rejects with enough confidence.
  pub decide-decline_of_default :
      (signals : Dict (SpecialistSignal F))
      → type_of hints ≢ "unanimous"
      → type_of hints ≢ "supermajority"
      → type_of hints ≢ "majority"
      → ((decide hints signals).action ≡ decline) ↔ (
          (is_vetoed hints (values signals) ≡ true)
          ⊎ (any (is_negative least) (values signals) ≡ true))
  unfolding decide
  decide-decline_of_default signals a b c = ground (
    arith,
    other_action (values signals) (length signals) a b c,
    pass_through-eq-decline_iff hints (rejections least (values signals))
        (objections (values signals)),
    negatives least (values signals),
  )
