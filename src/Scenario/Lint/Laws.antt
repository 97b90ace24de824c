-- ===== src/Scenario/Lint/Laws.antt =====
-- What the parts of a scenario that passes the linting say.
use examples_service.Common.{
  ℕ, String, Bool, true, false, not, ◌&&◌, ◌||◌, ◌≡◌, refl, sym, ap, ◌∙◌, subst, List, [], ◌∷◌,
  ◌++◌, contains, count, count-append, ◌==◌, string_eq, inl, inr, if◌then◌else◌, Bool-cases, arith,
}
use examples_service.Common.Words.{trim}
use examples_service.Common.Text.{truthy}
use examples_service.Js.{
  Value, undefined, null, bool, num, str, arr, obj, Items, nil, cons, is_truthy, to_text,
}
use examples_service.Compiler.Outcome.{property}
use examples_service.Scenario.Ending.{
  Run, done, characters, items_of, read, is_known, run_bind, same_of_done,
}
use examples_service.Scenario.Validate.Checks.{lacks_description}
use examples_service.Scenario.Lint.Finding.{LintFinding, error_at, each, each_item}
use examples_service.Scenario.Lint.Pack.{
  lint_commitment, lint_participant, launch_section, has_bad_slug, scenario_slug_findings, is_slug,
}
use examples_service.Scenario.Lint.{is_error}

-- No finding is an error.
abbrev pub IsClean : List LintFinding → Type 0
IsClean findings = count is_error findings ≡ 0

pub IsClean-parts : (xs ys : List LintFinding) → IsClean (xs ++ ys) → IsClean xs × IsClean ys
IsClean-parts xs ys h = let e = count-append is_error xs ys in (omega arith, omega arith)

pub each-IsClean :
    (check : String → Run (List LintFinding)) (xs : List String) (findings : List LintFinding)
    (x : String)
    → each check xs ≡ done findings
    → IsClean findings
    → contains xs x ≡ true
    → (own : List LintFinding) × (check x ≡ done own) × IsClean own
unfolding each
each-IsClean check [] findings x h clean e = absurd (ground arith)
each-IsClean check (y ∷ ys) findings x h clean e =
    let (first, e1, h1) = run_bind (check y) _ findings h in
    let (more, e2, h2) = run_bind (each check ys) _ findings h1 in
    let (c1, c2) = IsClean-parts first more (subst IsClean (sym (same_of_done h2)) clean) in
    elim (Bool-cases (y == x)) [
      | inl same ↦ (first, ap check (sym ((string_eq.same_iff y x).0 same)) ∙ e1, c1)
      | inr other ↦ each-IsClean check ys more x e2 c2 (ground arith)
    ]

abbrev pub all_items : (Value → Bool) → Items → Bool
all_items p nil = true
all_items p (cons v vs) = p v && all_items p vs

pub each_item-all_items :
    (check : Value → Run (List LintFinding)) (p : Value → Bool)
    → ((v : Value) (own : List LintFinding) → check v ≡ done own → IsClean own → p v ≡ true)
    → (vs : Items) (findings : List LintFinding) → each_item check vs ≡ done findings
    → IsClean findings
    → all_items p vs ≡ true
unfolding each_item
each_item-all_items check p law nil findings h clean = refl
each_item-all_items check p law (cons v vs) findings h clean =
    let (first, e1, h1) = run_bind (check v) _ findings h in
    let (more, e2, h2) = run_bind (each_item check vs) _ findings h1 in
    let (c1, c2) = IsClean-parts first more (subst IsClean (sym (same_of_done h2)) clean) in
    let here = law v first e1 c1 in
    let rest = each_item-all_items check p law vs more e2 c2 in ground arith

-- What a good scenario says, apart from how the script looks for it: the text of a commitment is not
-- blank, the agent of a participant is known, and the slug is one where it is there.
abbrev pub is_described : Value → Bool
is_described (str text) = truthy (trim text)
is_described v = false

abbrev pub entries : Value → Items
entries (arr vs) = vs
entries (str s) = characters s
entries v = nil

abbrev pub is_commitment_described : Value → Bool
is_commitment_described c = is_described (property "description" c)

abbrev pub is_agent_known : List String → Value → Bool
is_agent_known known p = is_known known (property "agentRef" p)

abbrev pub is_sound : List String → Value → Bool
is_sound known scenario =
    let slug = property "scenario" (property "metadata" scenario) in
    (not (is_truthy slug) || is_slug (to_text slug))
    && all_items is_commitment_described
        (entries (property "commitments" (launch_section scenario)))
    && all_items (is_agent_known known)
        (entries (property "participants" (launch_section scenario)))

described_lem : (v : Value) → lacks_description v ≡ done false → is_described v ≡ true
unfolding is_truthy
described_lem undefined h = absurd (ground arith)
described_lem null h = absurd (ground arith)
described_lem (bool b) h = absurd (ground arith)
described_lem (num n) h = absurd (ground arith)
described_lem (str s) h = ground (arith, same_of_done h)
described_lem (obj fs) h = absurd (ground arith)
described_lem (arr vs) h = absurd (ground arith)

pub entries_lem : (v : Value) (vs : Items) → items_of v ≡ done vs → entries v ≡ vs
entries_lem undefined vs h = same_of_done h
entries_lem null vs h = same_of_done h
entries_lem (bool b) vs h = absurd (ground arith)
entries_lem (num n) vs h = absurd (ground arith)
entries_lem (str s) vs h = same_of_done h
entries_lem (obj fs) vs h = absurd (ground arith)
entries_lem (arr ws) vs h = same_of_done h

read_lem : (v : Value) (key : String) (w : Value) → read v key ≡ done w → property key v ≡ w
read_lem undefined key w h = absurd (ground arith)
read_lem null key w h = absurd (ground arith)
read_lem (bool b) key w h = same_of_done h
read_lem (num n) key w h = same_of_done h
read_lem (str s) key w h = same_of_done h
read_lem (obj fs) key w h = same_of_done h
read_lem (arr vs) key w h = same_of_done h

-- An error that is pushed under a test.
no_error_where :
    (b : Bool) (file message : String)
    → IsClean (if b then error_at file message else [])
    → b ≡ false
no_error_where true file message h = absurd (omega arith)
no_error_where false file message h = refl

no_error_unless :
    (b : Bool) (file message : String)
    → IsClean (if b then [] else error_at file message)
    → b ≡ true
no_error_unless true file message h = refl
no_error_unless false file message h = absurd (omega arith)

-- A file that cannot be loaded gives an error.
pub no_failure :
    {file message : String} {findings : List LintFinding}
    → done (error_at file message) ≡ done findings
    → IsClean findings
    → ◌≡◌ {A = ℕ} 1 0
no_failure h clean = subst IsClean (sym (same_of_done h)) clean

pub commitment_law :
    (file : String) (c : Value) (own : List LintFinding)
    → lint_commitment file c ≡ done own
    → IsClean own
    → is_described (property "description" c) ≡ true
commitment_law file c own h clean =
    let (description, e1, h1) = run_bind (read c "description") _ own h in
    let (lacks, e2, h2) = run_bind (lacks_description description) _ own h1 in
    let described = no_error_where lacks file _ (subst IsClean (sym (same_of_done h2)) clean) in
    subst (λ v. is_described v ≡ true) (sym (read_lem c "description" description e1))
      (described_lem description (e2 ∙ ap done described))

pub participant_law :
    (known : List String) (file : String) (p : Value) (own : List LintFinding)
    → lint_participant known file p ≡ done own
    → IsClean own
    → is_agent_known known p ≡ true
participant_law known file p own h clean =
    let (ref, e1, h1) = run_bind (read p "agentRef") _ own h in
    subst (λ v. is_known known v ≡ true) (sym (read_lem p "agentRef" ref e1))
      (no_error_unless (is_known known ref) file _ (subst IsClean (sym (same_of_done h1)) clean))

pub slug_law :
    (file : String) (slug : Value)
    → IsClean (scenario_slug_findings file slug)
    → (not (is_truthy slug) || is_slug (to_text slug)) ≡ true
slug_law file slug h = let e = no_error_where (has_bad_slug slug) file _ h in ground arith
