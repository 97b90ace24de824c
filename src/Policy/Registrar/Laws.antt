-- ===== src/Policy/Registrar/Laws.antt =====
-- What a complete registration has done.
use examples_service.Common.{
  ℕ, suc, ◌+◌, ◌≡◌, ◌≢◌, refl, sym, ap, ◌∙◌, subst, String, not, arith, List, [], ◌∷◌, ◌++◌, map,
}
use examples_service.Common.{◌==◌, string_eq, length, filter, All, Bool-cases, inl, inr}
use examples_service.Common.Dict.{Dict, values}
use examples_service.Common.Text.{truthy}
use examples_service.Errors.{Result, ok, err}
use examples_service.Policy.Number.{Number}
use examples_service.Policy.Definition.{PolicyDefinition}
use examples_service.Policy.Loader.{list_registrable}
use examples_service.Policy.Registrar.{
  Settings, Descriptor, Reply, accepted, refused, failing, Report, Outcome, complete,
}
use examples_service.Policy.Registrar.{
  is_already_registered_error, to_descriptor, tally, register_all, empty_report, with_policies,
  on_application_bootstrap,
}
use text.Mathlib.TextEquality.{eq_iff}

module _ {F : Number} where
  total : Report F → ℕ
  total r = r.registered + r.already + r.failed

  tally-total :
      (reply : Reply) (r : Report F)
      → (total (tally reply r) ≡ suc (total r)) × ((tally reply r).sent ≡ r.sent)
  unfolding total
  tally-total accepted r = (omega arith, refl)
  tally-total failing r = (omega arith, refl)
  tally-total (refused e) r = elim (Bool-cases (is_already_registered_error e)) [
    | inl known ↦ rw known (omega arith, refl)
    | inr other ↦ rw other (omega arith, refl)
  ]

  append_assoc : (xs ys zs : List (Descriptor F)) → (xs ++ ys) ++ zs ≡ xs ++ (ys ++ zs)
  append_assoc [] ys zs = refl
  append_assoc (x ∷ xs) ys zs = ap (λ t. x ∷ t) (append_assoc xs ys zs)

  append-nil : (xs : List (Descriptor F)) → xs ++ [] ≡ xs
  append-nil [] = refl
  append-nil (x ∷ xs) = ap (λ t. x ∷ t) (append-nil xs)

  module _ (runtime : Descriptor F → Reply) where
    register_all-total :
        (ps : List (PolicyDefinition F)) (r : Report F)
        → total (register_all runtime ps r) ≡ total r + length ps
    unfolding register_all total
    register_all-total [] r = omega arith
    register_all-total (p ∷ ps) r =
        let d = to_descriptor p in
        let q : Report F = record r { sent = r.sent ++ (d ∷ []) } in
        grind (arith, register_all-total ps (tally (runtime d) q), (tally-total (runtime d) q).0)

    register_all-sent :
        (ps : List (PolicyDefinition F)) (r : Report F)
        → (register_all runtime ps r).sent ≡ r.sent ++ map to_descriptor ps
    unfolding register_all
    register_all-sent [] r = sym (append-nil r.sent)
    register_all-sent (p ∷ ps) r =
        let d = to_descriptor p in
        let q : Report F = record r { sent = r.sent ++ (d ∷ []) } in
        register_all-sent ps (tally (runtime d) q)
        ∙ ap (λ sent. sent ++ map to_descriptor ps) (tally-total (runtime d) q).1
        ∙ append_assoc r.sent (d ∷ []) (map to_descriptor ps)

    registrable-All :
        (ps : List (PolicyDefinition F))
        → All
            (λ d. d.policy_id ≢ "policy.default")
            (map to_descriptor (filter (λ p. not (p.policy_id == "policy.default")) ps))
    registrable-All [] = tt
    registrable-All (p ∷ ps) = elim (Bool-cases (p.policy_id == "policy.default")) [
      | inl default ↦ rw default (registrable-All ps)
      | inr other ↦
          rw other (ground (arith, other, eq_iff p.policy_id "policy.default"), registrable-All ps)
    ]

    result_of : Report F → Outcome F → Report F
    result_of r (complete q) = q
    result_of r _ = r

    with_policies-complete :
        (minted : Result String) (ps : List (PolicyDefinition F)) (r : Report F)
        → with_policies runtime minted ps ≡ complete r
        → register_all runtime ps empty_report ≡ r
    unfolding result_of
    with_policies-complete minted [] r h = absurd cc
    with_policies-complete (err e) (p ∷ ps) r h = absurd cc
    with_policies-complete (ok token) (p ∷ ps) r h = ap (result_of r) h

    bootstrap-complete :
        (settings : Settings) (minted : Result String) (cache : Dict (PolicyDefinition F))
        (r : Report F)
        → on_application_bootstrap runtime settings minted cache ≡ complete r
        → register_all runtime (list_registrable cache) empty_report ≡ r
    unfolding on_application_bootstrap
    bootstrap-complete settings minted cache r =
        elim (Bool-cases settings.register_policies_on_launch) [
          | inl on ↦ rw on (elim (Bool-cases (truthy settings.runtime_address)) [
            | inl given ↦ rw given (λ h. with_policies-complete minted (list_registrable cache) r h)
            | inr missing ↦ rw missing (λ h. absurd cc)
          ])
          | inr off ↦ rw off (λ h. absurd cc)
        ]

    -- A registration that is carried out asks the runtime once for every registrable policy, in the
    -- order of the cache and never for the default policy, and its three counts add up to their
    -- number.
    pub registration_complete :
        (settings : Settings) (minted : Result String) (cache : Dict (PolicyDefinition F))
        (r : Report F)
        → on_application_bootstrap runtime settings minted cache ≡ complete r
        → (r.sent ≡ map to_descriptor (list_registrable cache))
          × (r.registered + r.already + r.failed ≡ length (list_registrable cache))
          × All (λ d. d.policy_id ≢ "policy.default") r.sent
    unfolding total list_registrable
    registration_complete settings minted cache r h =
        let done = bootstrap-complete settings minted cache r h in
        let ps = list_registrable cache in
        let sent : r.sent ≡ map to_descriptor ps =
          ap (λ q. q.sent) (sym done) ∙ register_all-sent ps empty_report in
        (
          sent,
          ap total (sym done) ∙ register_all-total ps empty_report ∙ omega arith,
          subst (All (λ d. d.policy_id ≢ "policy.default")) (sym sent)
              (registrable-All (values cache)),
        )
