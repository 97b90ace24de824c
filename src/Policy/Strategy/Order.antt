-- ===== src/Policy/Strategy/Order.antt =====
-- What the decision does not depend on: the order of the signals, and abstentions.
use mathlib.Core.List.{Perm, Permᴰ}
use mathlib.Core.Logic.{∥∥₁_elim}
use native.Mathlib.Nat.{ℕ_set}
use examples_service.Common.{◌≡◌, ◌≢◌, true, false, Bool, arith, refl, sym, ◌∙◌, ap}
use examples_service.Common.{List, [], ◌∷◌, ℕ, suc, ◌-◌, String}
use examples_service.Common.{string_eq, length, filter}
use examples_service.Common.{count, length-filter, length-filter-filter}
use examples_service.Common.Dict.{Dict, values, length-values}
use text.Mathlib.TextEquality.{eq_iff}
use examples_service.Policy.Number.{Number}
use examples_service.Policy.Strategy.{says, is_blocking, is_qualified, is_disqualified}
use examples_service.Policy.Strategy.{PolicyHints, SpecialistSignal, decide, decide_all}
use examples_service.Policy.Strategy.{
  type_of, is_vetoed, is_rejection, minimum_confidence_of, is_objection,
}
use examples_service.Policy.Strategy.{approvals, rejections, objections, abstentions}
use examples_service.Policy.Strategy.Outcomes.{says_unique}

module _ {ℓ} {A : Type ℓ} where
  count-true : (xs : List A) → count (λ _. true) xs ≡ length xs
  count-true [] = refl
  count-true (x ∷ xs) = omega (arith, count-true xs)

  count_of_permᴰ : (p : A → Bool) {xs ys : List A} → Permᴰ xs ys → count p xs ≡ count p ys
  count_of_permᴰ p Permᴰ.nil = refl
  count_of_permᴰ p (Permᴰ.cons e h) = rw e (rw (count_of_permᴰ p h))
  count_of_permᴰ p (Permᴰ.swap e f) = rw (e, f) (omega arith)
  count_of_permᴰ p (Permᴰ.trans h k) = count_of_permᴰ p h ∙ count_of_permᴰ p k

  count_of_perm : (p : A → Bool) {xs ys : List A} → Perm xs ys → count p xs ≡ count p ys
  count_of_perm p h = ∥∥₁_elim h (ℕ_set _ _) (count_of_permᴰ p)

  length_of_perm : {xs ys : List A} → Perm xs ys → length xs ≡ length ys
  length_of_perm {xs} {ys} h = sym (count-true xs) ∙ count_of_perm (λ _. true) h ∙ count-true ys

  length-filter_of_perm :
      (p : A → Bool) {xs ys : List A} → Perm xs ys → length (filter p xs) ≡ length (filter p ys)
  length-filter_of_perm p {xs} {ys} h =
      length-filter p xs ∙ count_of_perm p h ∙ sym (length-filter p ys)

  length-filter-filter_of_perm :
      (p q : A → Bool) {xs ys : List A}
      → Perm xs ys
      → length (filter p (filter q xs)) ≡ length (filter p (filter q ys))
  length-filter-filter_of_perm p q {xs} {ys} h =
      length-filter-filter p q xs ∙ count_of_perm _ h ∙ sym (length-filter-filter p q ys)

module _ {F : Number} (hints : PolicyHints F) where
  abbrev least : F.Carrier
  least = minimum_confidence_of hints

  decide_lem :
      (signals : Dict (SpecialistSignal F))
      → decide hints signals ≡ decide_all hints (values signals) (length signals)
  unfolding decide
  decide_lem signals = refl

  decide_all_of_perm :
      (xs ys : List (SpecialistSignal F)) (total : ℕ)
      → Perm xs ys
      → decide_all hints xs total ≡ decide_all hints ys total
  unfolding decide_all is_vetoed
  decide_all_of_perm xs ys total h = rw (
    length-filter_of_perm is_blocking h,
    length-filter-filter_of_perm (λ s. says "APPROVE" s.recommendation) (is_qualified least) h,
    length-filter-filter_of_perm is_rejection (is_qualified least) h,
    length-filter-filter_of_perm (λ s. says "ABSTAIN" s.recommendation) (is_qualified least) h,
    length-filter_of_perm (λ s. is_objection s.message_type) h,
    length-filter_of_perm (is_disqualified least) h,
  )

  -- The whole decision, its reason included, is the same in whatever order the signals arrived.
  pub decide_of_perm :
      (s t : Dict (SpecialistSignal F))
      → Perm (values s) (values t)
      → decide hints s ≡ decide hints t
  decide_of_perm s t h =
      decide_lem s
      ∙ decide_all_of_perm (values s) (values t) (length s) h
      ∙ ap (decide_all hints (values t))
          (sym (length-values s) ∙ length_of_perm h ∙ length-values t)
      ∙ sym (decide_lem t)

  -- An evaluation that abstains, with enough confidence.
  pub record IsAbstention (s : SpecialistSignal F) : Type 0 where
    pub confident : is_qualified least s ≡ true
    pub abstains : says "ABSTAIN" s.recommendation ≡ true

  abstain-ne :
      (s : SpecialistSignal F)
      → says "ABSTAIN" s.recommendation ≡ true
      → (says "APPROVE" s.recommendation ≡ false) × (is_rejection s ≡ false)
  abstain-ne s h = ground (
    arith,
    says_unique "ABSTAIN" "APPROVE" s.recommendation h,
    says_unique "ABSTAIN" "BLOCK" s.recommendation h,
    says_unique "ABSTAIN" "REJECT" s.recommendation h,
    eq_iff "ABSTAIN" "APPROVE",
    eq_iff "ABSTAIN" "BLOCK",
    eq_iff "ABSTAIN" "REJECT",
  )

  -- The tallies that the policies other than `unanimous` read.
  tallies-abstention :
      (s : SpecialistSignal F) (all : List (SpecialistSignal F)) (total : ℕ)
      → IsAbstention s
      → (filter is_blocking (s ∷ all) ≡ filter is_blocking all)
        × (approvals least (s ∷ all) ≡ approvals least all)
        × (rejections least (s ∷ all) ≡ rejections least all)
        × (objections (s ∷ all) ≡ objections all)
        × (suc total - abstentions least (s ∷ all) ≡ total - abstentions least all)
  tallies-abstention s all total a =
      let (p, r) = abstain-ne s a.abstains in
      (ground arith, ground arith, ground arith, ground arith, ground arith)

  decide_all-abstention :
      (s : SpecialistSignal F) (all : List (SpecialistSignal F)) (total : ℕ)
      → type_of hints ≢ "unanimous"
      → IsAbstention s
      → decide_all hints (s ∷ all) (suc total) ≡ decide_all hints all total
  unfolding decide_all is_vetoed
  decide_all-abstention s all total t a =
      let (b, p, r, o, e) = tallies-abstention s all total a in
      rw (b, p, r, o, e) (ground (arith, eq_iff (type_of hints) "unanimous"))

  -- Under any policy but `unanimous`, one more evaluation that abstains changes nothing of the
  -- decision: it counts on no side, and not in the total.
  pub decide-abstention :
      (k : String) (s : SpecialistSignal F) (signals : Dict (SpecialistSignal F))
      → type_of hints ≢ "unanimous"
      → IsAbstention s
      → decide hints ((k, s) ∷ signals) ≡ decide hints signals
  unfolding values
  decide-abstention k s signals t a =
      decide_lem _
      ∙ decide_all-abstention s (values signals) (length signals) t a
      ∙ sym (decide_lem signals)
