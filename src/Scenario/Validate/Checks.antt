-- ===== src/Scenario/Validate/Checks.antt =====
-- What `runValidate` says of the header, the schema, the placeholders, the participants and the
-- commitments of a scenario.
use examples_service.Common.{
  String, ◌<>◌, Bool, true, not, ◌&&◌, Option, none, some, List, [], ◌∷◌, ◌++◌, map, any,
  if◌then◌else◌,
}
use examples_service.Common.Text.{truthy}
use examples_service.Common.Words.{trim}
use examples_service.Js.{
  Value, str, obj, Items, nil, cons, Fields, end, field, get, is_truthy, to_text,
}
use examples_service.Compiler.Outcome.{property}
use examples_service.Registry.Loader.{is_exactly, api_version}
use examples_service.Scenario.Ending.{Run, ill_typed, done, ◌>>=◌, read, schema_defaults, is_known}
use examples_service.Scenario.Placeholders.{collect_placeholders, path_exists}
use examples_service.Scenario.Report.{Report, Schemas, no_findings, append, error, warning}

-- The tests of `apiVersion`, `kind` and `metadata`.
abbrev pub header_errors : Value → List String
header_errors v =
    (if is_exactly (property "apiVersion" v) api_version
      then []
      else ("apiVersion must be \"scenarios.macp.dev/v1\", got: "
          <> to_text (property "apiVersion" v))
        ∷ [])
    ++ (if is_exactly (property "kind" v) "ScenarioVersion"
        then []
        else ("kind must be \"ScenarioVersion\", got: " <> to_text (property "kind" v)) ∷ [])
    ++ (let metadata = property "metadata" v in
        if is_truthy (property "pack" metadata)
          && is_truthy (property "scenario" metadata)
          && is_truthy (property "version" metadata)
        then []
        else "metadata must include pack, scenario, and version" ∷ [])

abbrev compile_errors : Option String → List String
compile_errors none = []
compile_errors (some reason) = ("spec.inputs.schema is not valid JSON Schema: " <> reason) ∷ []

abbrev pub schema_errors : Schemas → Value → List String
schema_errors schemas schema =
    if is_truthy schema
    then compile_errors (schemas.compile_fault schema)
    else "spec.inputs.schema is required" ∷ []

-- `sources.some((source) => pathExists(source, path))`
abbrev pub is_reachable : List Fields → String → Bool
is_reachable sources path = any (λ source. path_exists source path) sources

unfoldable pub placeholder_errors : List Fields → List String → List String
unfolding path_exists
placeholder_errors sources [] = []
placeholder_errors sources (path ∷ paths) =
    (if is_reachable sources path
      then []
      else ("placeholder {{ " <> path <> " }} is not satisfied by schema defaults or any fixture")
        ∷ [])
    ++ placeholder_errors sources paths

-- The inputs of a launch, as a source of placeholders.
abbrev pub source_of : Fields → Fields
source_of inputs = field "inputs" (obj inputs) end

abbrev pub templates_of : Value → List Value
templates_of launch =
    property "contextTemplate" launch
    ∷ property "metadataTemplate" launch
    ∷ property "kickoffTemplate" launch
    ∷ property "commitments" launch
    ∷ []

unfoldable pub collect_all : List Value → List String → List String
unfolding collect_placeholders
collect_all [] paths = paths
collect_all (t ∷ ts) paths = collect_all ts (collect_placeholders t paths)

abbrev pub check_sources : Value → List Fields → List String → Run Report
check_sources schema valid [] = done no_findings
check_sources schema valid (path ∷ paths) =
    if is_truthy schema
    then schema_defaults schema >>= (λ defaults. done (record {
      errors = placeholder_errors (source_of defaults ∷ map source_of valid) (path ∷ paths);
      warnings = [];
    }))
    else done no_findings

abbrev unknown_agent : Value → Value → Report
unknown_agent p ref = error (
    "participant "
    <> to_text (property "id" p)
    <> " agentRef \""
    <> to_text ref
    <> "\" is not in the example-agent catalog")

unfoldable pub check_agents : List String → Items → Run Report
unfolding get to_text
check_agents known nil = done no_findings
check_agents known (cons p ps) = do
  ref ← read p "agentRef"
  more ← check_agents known ps
  done (append (if is_known known ref then no_findings else unknown_agent p ref) more)

abbrev undescribed : Value → Report
undescribed c = warning ("commitment " <> to_text (property "id" c) <> " has no description")

-- `!c.description || !c.description.trim()`
abbrev pub lacks_description : Value → Run Bool
lacks_description (str text) = done (not (truthy (trim text)))
lacks_description v = if is_truthy v then ill_typed else done true

unfoldable pub check_commitments : Items → Run Report
unfolding get to_text is_truthy
check_commitments nil = done no_findings
check_commitments (cons c cs) = do
  description ← read c "description"
  lacks ← lacks_description description
  more ← check_commitments cs
  done (append (if lacks then undescribed c else no_findings) more)
