-- ===== src/Catalog/Tests.antt =====
-- The scenarios of a small registry.
use examples_service.Common.{◌≡◌, refl, none, some, [], ◌∷◌}
use examples_service.Common.Dict.{lookup, keys}
use examples_service.Js.{str, undefined, get}
use examples_service.Errors.{ok}
use examples_service.Registry.{PackEntry}
use examples_service.Registry.Index.{get_pack}
use examples_service.Registry.Sample.{snapshot}
use examples_service.Compiler.Outcome.{returned}
use examples_service.Catalog.{
  ScenarioSummary, list_scenarios, list_all_scenarios, summaries_of, all_summaries, refs_of_items,
}
use examples_service.Catalog.Sorting.{sort, insert_text, last_of}
use examples_service.Common.Order.{lex_leb}
use examples_service.Common.Text.{code_units}
use examples_service.Catalog.Laws.{AllSums, list_scenarios-AllSums}

abbrev check : ScenarioSummary
check = record {
  scenario = "check";
  name = "Check";
  summary = none;
  versions = "1.0.0" ∷ [];
  templates = "large" ∷ [];
  tags = some ("fraud" ∷ "demo" ∷ []);
  runtime_kind = str "rust";
  agent_refs = str "fraud-agent" ∷ [];
  policy_version = undefined;
  policy_hints = undefined;
}

listed : list_scenarios snapshot "fraud" ≡ returned (check ∷ [])
unfolding list_scenarios summaries_of get_pack lookup keys sort insert_text last_of lex_leb
    code_units get refs_of_items
listed = refl

listed_all : list_all_scenarios snapshot ≡ returned (("fraud", check) ∷ [])
unfolding list_all_scenarios all_summaries summaries_of lookup keys sort insert_text last_of lex_leb
    code_units get refs_of_items
listed_all = refl

in_order : sort ("1.2.0" ∷ "1.10.0" ∷ "1.1.0" ∷ []) ≡ "1.1.0" ∷ "1.10.0" ∷ "1.2.0" ∷ []
unfolding sort insert_text lex_leb code_units
in_order = refl

list_scenarios-AllSums_example :
    (pack : PackEntry) × (get_pack snapshot "fraud" ≡ ok pack) × AllSums pack.scenarios (check ∷ [])
list_scenarios-AllSums_example = list_scenarios-AllSums snapshot "fraud" (check ∷ []) listed
