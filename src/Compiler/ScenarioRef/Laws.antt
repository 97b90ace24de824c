-- ===== src/Compiler/ScenarioRef/Laws.antt =====
-- A reference is accepted exactly if it is the text of a well-formed triple, which is returned.
use examples_service.Common.{
  String, ◌<>◌, true, Option, none, some, ◌≡◌, ◌↔◌, refl, sym, ◌∙◌, arith, ap, subst,
}
use examples_service.Common.Text.{truthy, cut_first, cut_last, Lacks}
use examples_service.Common.Text.Cuts.{
  cut_first-append, cut_last-append, cut_first_sound, cut_last_sound,
}
use examples_service.Errors.{AppException, ok, err}
use examples_service.Compiler.ScenarioRef.{
  ScenarioRefParts, parse_scenario_ref, parse_ref, parse_path, checked, scenario_ref,
}
use Prim.Native.Char.{Char}
use text.Mathlib.TextLemmas.{nil-append, cons-append, append_assoc}

-- No component is empty, the pack has no slash and the version no at-sign.
pub record IsWellFormed (r : ScenarioRefParts) : Type 0 where
  pub pack_given : truthy r.pack_slug ≡ true
  pub scenario_given : truthy r.scenario_slug ≡ true
  pub version_given : truthy r.version ≡ true
  pub pack_plain : Lacks "/" r.pack_slug
  pub version_plain : Lacks "@" r.version

cons_text : (c : Char) (s : String) → String.◌∷◌ c String.[] <> s ≡ String.◌∷◌ c s
cons_text c s = cons-append c String.[] s ∙ ap (String.◌∷◌ c) (nil-append s)

scenario_ref_cut :
    (r : ScenarioRefParts)
    → scenario_ref r ≡ (r.pack_slug <> String.◌∷◌ "/" r.scenario_slug) <> String.◌∷◌ "@" r.version
scenario_ref_cut r = rw (cons_text "/", cons_text "@", append_assoc) (rw cons-append)

parse_complete :
    (r : ScenarioRefParts) → IsWellFormed r → parse_scenario_ref (scenario_ref r) ≡ ok r
unfolding parse_scenario_ref
parse_complete r w = rw (scenario_ref_cut r) (
    rw
      (
        parse_scenario_ref,
        cut_last-append "@" (r.pack_slug <> String.◌∷◌ "/" r.scenario_slug) r.version
            w.version_plain,
        cut_first-append "/" r.pack_slug r.scenario_slug w.pack_plain,
      )
      (ground arith))

refused : {e : AppException} {r : ScenarioRefParts} → err e ≡ ok r → ⊥
refused h = cc

checked_sound :
    (ref pack scenario version : String) (r : ScenarioRefParts)
    → checked ref pack scenario version ≡ ok r
    → ((truthy pack ≡ true) × (truthy scenario ≡ true) × (truthy version ≡ true))
      × (record { pack_slug = pack; scenario_slug = scenario; version = version } ≡ r)
unfolding checked
checked_sound ref pack scenario version r h = (ground arith, ground arith)

-- The three components as they were cut out of the reference.
parts_sound :
    (ref path pack scenario version : String)
    → cut_last "@" ref ≡ some (path, version)
    → cut_first "/" path ≡ some (pack, scenario)
    → (truthy pack ≡ true) × (truthy scenario ≡ true) × (truthy version ≡ true)
    → let r : ScenarioRefParts = record {
      pack_slug = pack;
      scenario_slug = scenario;
      version = version;
    } in
      IsWellFormed r × (scenario_ref r ≡ ref)
parts_sound ref path pack scenario version at_sign slash (p, s, v) =
    let (whole, no_at) = cut_last_sound "@" ref path version at_sign in
    let (front, no_slash) = cut_first_sound "/" path pack scenario slash in
    let r : ScenarioRefParts = record {
      pack_slug = pack;
      scenario_slug = scenario;
      version = version;
    } in
    (
      record {
        pack_given = p;
        scenario_given = s;
        version_given = v;
        pack_plain = no_slash;
        version_plain = no_at;
      },
      scenario_ref_cut r ∙ ap (λ t. t <> String.◌∷◌ "@" version) (sym front) ∙ sym whole,
    )

parse_path_sound :
    (ref path version : String) (r : ScenarioRefParts) (cut : Option (String × String))
    → cut_last "@" ref ≡ some (path, version)
    → cut_first "/" path ≡ cut
    → parse_path ref version cut ≡ ok r
    → IsWellFormed r × (scenario_ref r ≡ ref)
parse_path_sound ref path version r none at_sign slash h = absurd (refused h)
parse_path_sound ref path version r (some (pack, scenario)) at_sign slash h =
    let (given, same) = checked_sound ref pack scenario version r h in
    subst (λ q. IsWellFormed q × (scenario_ref q ≡ ref)) same
      (parts_sound ref path pack scenario version at_sign slash given)

parse_ref_sound :
    (ref : String) (r : ScenarioRefParts) (cut : Option (String × String))
    → cut_last "@" ref ≡ cut
    → parse_ref ref cut ≡ ok r
    → IsWellFormed r × (scenario_ref r ≡ ref)
parse_ref_sound ref r none at_sign h = absurd (refused h)
parse_ref_sound ref r (some (path, version)) at_sign h =
    parse_path_sound ref path version r (cut_first "/" path) at_sign refl h

parse_sound :
    (ref : String) (r : ScenarioRefParts)
    → parse_scenario_ref ref ≡ ok r
    → IsWellFormed r × (scenario_ref r ≡ ref)
unfolding parse_scenario_ref
parse_sound ref r h = parse_ref_sound ref r (cut_last "@" ref) refl h

-- A text is parsed into `r` exactly if `r` is well formed and the text is `pack/scenario@version`
-- of `r`; so printing and parsing are inverse to one another on the well-formed triples.
pub parse_scenario_ref_iff :
    (ref : String) (r : ScenarioRefParts)
    → (parse_scenario_ref ref ≡ ok r) ↔ (IsWellFormed r × (scenario_ref r ≡ ref))
parse_scenario_ref_iff ref r =
    (parse_sound ref r, λ (w, e). ap parse_scenario_ref (sym e) ∙ parse_complete r w)
