-- ===== src/Policy/Loader/Laws.antt =====
-- Which policies pass the checks, and which one a directory holds under an id.
use examples_service.Common.{
  String, Bool, true, false, subst, ◌&&◌, ◌≡◌, ◌↔◌, refl, arith, Option, none, some, List, [], ◌∷◌,
  ◌++◌,
}
use examples_service.Common.{◌==◌, string_eq, if◌then◌else◌, Bool-cases, inl, inr, ap, ◌∙◌, sym}
use mathlib.Core.Option.{some-injective}
use examples_service.Common.Dict.{Dict, lookup, insert, lookup-insert}
use examples_service.Common.Text.{truthy}
use examples_service.Policy.Number.{Number}
use examples_service.Policy.Definition.{
  Voting, ObjectionHandling, Evaluation, Commitment, Rules, PolicyDefinition,
}
use examples_service.Policy.Loader.{
  error_if, lacks_entries, at_most_half, below_one, no_version, out_of_unit,
}
use examples_service.Policy.Loader.{
  voting_errors, objection_errors, evaluation_errors, commitment_errors, rules_errors,
  validate_policy,
}
use examples_service.Policy.Loader.{load_files, read_directory, load_policy}
use text.Mathlib.TextEquality.{eq_iff}

append-eq-nil_iff : (xs ys : List String) → (xs ++ ys ≡ []) ↔ ((xs ≡ []) × (ys ≡ []))
append-eq-nil_iff [] ys = ground arith
append-eq-nil_iff (x ∷ xs) ys = ground arith

error_if_iff :
    {P : Type 0} (b : Bool) (message : String) → (b ≡ false) ↔ P → (error_if b message ≡ []) ↔ P
error_if_iff true message h = (λ e. absurd (ground arith), λ p. absurd (ground (arith, h.1 p)))
error_if_iff false message h = (λ e. h.0 refl, λ p. refl)

module _ {ℓ} {A : Type ℓ} where
  -- The list is there and has an entry.
  abbrev pub HasEntries : Option (List A) → Type ℓ
  HasEntries o = (x : A) × (xs : List A) × (o ≡ some (x ∷ xs))

  absent : (x : A) → none ≡ some x → ⊥
  absent x h = cc

  lacks_entries_iff : (o : Option (List A)) → (lacks_entries o ≡ false) ↔ HasEntries o
  lacks_entries_iff none = (λ h. absurd (ground arith), λ h. absurd cc)
  lacks_entries_iff (some []) = (λ h. absurd (ground arith), λ h. absurd (ground (arith, h.2)))
  lacks_entries_iff (some (x ∷ xs)) = (λ h. (x, xs, refl), λ h. refl)

module _ (F : Number) where
  at_most_half_iff :
      (o : Option F.Carrier)
      → (at_most_half F o ≡ false) ↔ ((t : F.Carrier) × (o ≡ some t) × (F.ge F.half t ≡ false))
  at_most_half_iff none = (λ h. absurd (ground arith), λ (t, e, g). absurd (absent t e))
  at_most_half_iff (some t) =
      (λ h. (t, refl, h), λ (u, e, g). ap (λ x. F.ge F.half x) (some-injective t u e) ∙ g)

  no_version_iff :
      (o : Option F.Carrier)
      → (no_version F o ≡ false) ↔ ((v : F.Carrier) × (o ≡ some v) × (F.lt v F.one ≡ false))
  no_version_iff none = (λ h. absurd (ground arith), λ (t, e, g). absurd (absent t e))
  no_version_iff (some t) =
      (λ h. (t, refl, h), λ (u, e, g). ap (λ x. F.lt x F.one) (some-injective t u e) ∙ g)

  below_one_iff :
      (o : Option F.Carrier)
      → (below_one F o ≡ false) ↔ ((t : F.Carrier) → o ≡ some t → F.lt t F.one ≡ false)
  below_one_iff none = (λ h t e. absurd (absent t e), λ g. refl)
  below_one_iff (some t) =
      (λ h u e. ap (λ x. F.lt x F.one) (sym (some-injective t u e)) ∙ h, λ g. g t refl)

  out_of_unit_iff :
      (o : Option F.Carrier)
      → (out_of_unit F o ≡ false)
        ↔ ((c : F.Carrier) → o ≡ some c → (F.lt c (F.of_ℕ 0) ≡ false) × (F.lt F.one c ≡ false))
  out_of_unit_iff none = (λ h c e. absurd (absent c e), λ g. refl)
  out_of_unit_iff (some c) = (
    λ h d e.
        subst (λ x. (F.lt x (F.of_ℕ 0) ≡ false) × (F.lt F.one x ≡ false)) (some-injective c d e)
          (ground arith, ground arith),
    λ g. let (low, high) = g c refl in ground arith,
  )

module _ {F : Number} where
  abbrev pub IsVotingSound : Option (Voting F) → Type 0
  IsVotingSound none = Unit
  IsVotingSound (some v) =
      (v.algorithm ≡ "supermajority"
        → (t : F.Carrier) × (v.threshold ≡ some t) × (F.ge F.half t ≡ false))
      × (v.algorithm ≡ "weighted" → HasEntries v.weights)

  abbrev pub IsObjectionSound : Option (ObjectionHandling F) → Type 0
  IsObjectionSound none = Unit
  IsObjectionSound (some o) = (t : F.Carrier) → o.veto_threshold ≡ some t → F.lt t F.one ≡ false

  abbrev pub IsEvaluationSound : Option (Evaluation F) → Type 0
  IsEvaluationSound none = Unit
  IsEvaluationSound (some e) =
      (c : F.Carrier)
      → e.minimum_confidence ≡ some c
      → (F.lt c (F.of_ℕ 0) ≡ false) × (F.lt F.one c ≡ false)

  abbrev pub IsCommitmentSound : Option (Commitment F) → Type 0
  IsCommitmentSound none = Unit
  IsCommitmentSound (some c) = c.authority ≡ "designated_roles" → HasEntries c.designated_roles

  abbrev pub AreRulesSound : Option (Rules F) → Type 0
  AreRulesSound none = ⊥
  AreRulesSound (some r) =
      IsVotingSound r.voting
      × IsObjectionSound r.objection_handling
      × IsEvaluationSound r.evaluation
      × IsCommitmentSound r.commitment

  voting_errors-IsVotingSound : (v : Option (Voting F)) → (voting_errors v ≡ []) ↔ IsVotingSound v
  voting_errors-IsVotingSound none = ground arith
  voting_errors-IsVotingSound (some v) = grind (
    arith,
    eq_iff v.algorithm "supermajority",
    eq_iff v.algorithm "weighted",
    at_most_half_iff F v.threshold,
    lacks_entries_iff v.weights,
  )

  commitment_errors-IsCommitmentSound :
      (c : Option (Commitment F)) → (commitment_errors c ≡ []) ↔ IsCommitmentSound c
  commitment_errors-IsCommitmentSound none = ground arith
  commitment_errors-IsCommitmentSound (some c) =
      grind (arith, eq_iff c.authority "designated_roles", lacks_entries_iff c.designated_roles)

  objection_errors-IsObjectionSound :
      (o : Option (ObjectionHandling F)) → (objection_errors o ≡ []) ↔ IsObjectionSound o
  objection_errors-IsObjectionSound none = ground arith
  objection_errors-IsObjectionSound (some o) = error_if_iff _ _ (below_one_iff F o.veto_threshold)

  evaluation_errors-IsEvaluationSound :
      (e : Option (Evaluation F)) → (evaluation_errors e ≡ []) ↔ IsEvaluationSound e
  evaluation_errors-IsEvaluationSound none = ground arith
  evaluation_errors-IsEvaluationSound (some e) =
      error_if_iff _ _ (out_of_unit_iff F e.minimum_confidence)

  rules_errors-AreRulesSound : (r : Option (Rules F)) → (rules_errors r ≡ []) ↔ AreRulesSound r
  rules_errors-AreRulesSound none = ground arith
  rules_errors-AreRulesSound (some r) = grind (
    arith,
    append-eq-nil_iff,
    voting_errors-IsVotingSound r.voting,
    objection_errors-IsObjectionSound r.objection_handling,
    evaluation_errors-IsEvaluationSound r.evaluation,
    commitment_errors-IsCommitmentSound r.commitment,
  )

  -- A policy passes without an error exactly if it has an id that is not empty, a schema version
  -- that is not below one and rules; where the algorithm is a supermajority, there is a threshold
  -- and one half is not at least as much; weighted voting has a weight; a veto threshold that is
  -- there is not below one; a confidence that is there is not below zero and one is not below it;
  -- and a designated role is named where these have the authority.
  pub validate_policy_iff :
      (p : PolicyDefinition F)
      → (validate_policy p ≡ []) ↔ (
          (truthy p.policy_id ≡ true)
          × ((v : F.Carrier) × (p.schema_version ≡ some v) × (F.lt v F.one ≡ false))
          × AreRulesSound p.rules)
  unfolding validate_policy
  validate_policy_iff p = grind (
    arith,
    append-eq-nil_iff,
    rules_errors-AreRulesSound p.rules,
    no_version_iff F p.schema_version,
  )

  -- The last policy of the files with the id.
  pub last_with :
      String
      → List (Option (PolicyDefinition F))
      → Option (PolicyDefinition F)
      → Option (PolicyDefinition F)
  last_with id [] found = found
  last_with id (none ∷ fs) found = last_with id fs found
  last_with id (some p ∷ fs) found =
      last_with id fs (if truthy p.policy_id && (p.policy_id == id) then some p else found)

  lookup-load_files :
      (id : String) (fs : List (Option (PolicyDefinition F))) (cache : Dict (PolicyDefinition F))
      → lookup id (load_files fs cache) ≡ last_with id fs (lookup id cache)
  unfolding load_files last_with
  lookup-load_files id [] cache = refl
  lookup-load_files id (none ∷ fs) cache = lookup-load_files id fs cache
  lookup-load_files id (some p ∷ fs) cache = elim (Bool-cases (truthy p.policy_id)) [
    | inl named ↦
        rw
          (
            named,
            lookup-load_files id fs (insert p.policy_id p cache),
            lookup-insert p.policy_id id p cache,
          )
          refl
    | inr nameless ↦ rw nameless (lookup-load_files id fs cache)
  ]

  -- Under an id the cache holds the last policy of the directory that has it, with errors or
  -- without.
  pub load_policy_last :
      (id : String) (files : List (Option (PolicyDefinition F)))
      → load_policy id (read_directory (some files)) ≡ last_with id files none
  unfolding lookup
  load_policy_last id files = lookup-load_files id files []
