-- ===== src/Compiler/Tests.antt =====
-- The theorems of the template resolver at concrete inputs.
use examples_service.Common.{[], ◌∷◌, ◌≡◌, ◌↔◌, ◌||◌, refl, true}
use examples_service.Common.Text.{split}
use examples_service.Js.{
  Value, num, str, arr, obj, nil, cons, Fields, end, field, get, has, put, is_defined, to_text,
}
use examples_service.Errors.{ok}
use examples_service.Compiler.ScenarioRef.{ScenarioRefParts, parse_scenario_ref, scenario_ref}
use examples_service.Compiler.ScenarioRef.Laws.{IsWellFormed, parse_scenario_ref_iff}
use examples_service.Compiler.Merge.{merge_value, merge_loop, deep_merge}
use examples_service.Compiler.Merge.Deep.{AreDistinct, leaf_at, overlaid, leaf_at-deep_merge}
use examples_service.Compiler.Substitute.{
  substitute, substitute_text, resolved, replace, has_placeholder,
}
use examples_service.Compiler.Substitute.Laws.{is_plain}
use examples_service.Compiler.Substitute.Lookup.{resolve_path}
use examples_service.Compiler.Substitute.Placeholder.{placeholder_at}

abbrev risk : ScenarioRefParts
risk = record { pack_slug = "fraud"; scenario_slug = "high/value"; version = "1.0.0" }

parse_scenario_ref_iff_example :
    (parse_scenario_ref "fraud/high/value@1.0.0" ≡ ok risk)
    ↔ (IsWellFormed risk × (scenario_ref risk ≡ "fraud/high/value@1.0.0"))
parse_scenario_ref_iff_example = parse_scenario_ref_iff "fraud/high/value@1.0.0" risk

abbrev base : Fields
base = field "a" (obj (field "x" (num "1") (field "y" (num "2") end))) (field "b" (str "kept") end)

abbrev over : Fields
over = field "a" (obj (field "y" (num "3") end)) (field "c" (num "4") end)

deep_merge_nested :
    deep_merge base over
    ≡ field "a"
        (obj (field "x" (num "1") (field "y" (num "3") end)))
        (field "b" (str "kept") (field "c" (num "4") end))
unfolding deep_merge merge_loop merge_value get has put
deep_merge_nested = refl

over-AreDistinct : AreDistinct over
unfolding has
over-AreDistinct = (refl, (refl, tt, tt), (refl, tt, tt))

leaf_at-deep_merge_example :
    (leaf_at ("a" ∷ "x" ∷ []) (obj (deep_merge base over))
      ≡ overlaid ("a" ∷ "x" ∷ []) (obj base) (obj over))
    × (has "c" (deep_merge base over) ≡ has "c" base || is_defined (get "c" over))
leaf_at-deep_merge_example = leaf_at-deep_merge ("a" ∷ "x" ∷ []) "c" base over over-AreDistinct

abbrev inputs : Fields
inputs = field "amount" (num "250") (field "who" (obj (field "name" (str "Ada") end)) end)

substitute_typed :
    substitute inputs (arr (cons (str "{{ amount }}") (cons (str "to {{ who.name }}!") nil)))
    ≡ ok (arr (cons (num "250") (cons (str "to Ada!") nil)))
unfolding substitute substitute_text replace resolved placeholder_at has_placeholder resolve_path
    get to_text split
substitute_typed = refl

abbrev plain : Value
plain = obj (field "title" (str "A { brace }") (field "xs" (arr (cons (num "1") nil)) end))

plain-is_plain : is_plain plain ≡ true
unfolding is_plain has_placeholder placeholder_at
plain-is_plain = refl
