-- ===== src/Scenario/Validate/Fixtures.antt =====
-- What `runValidate` says of the fixtures of a scenario.
use examples_service.Common.{
  String, ◌<>◌, ◌&&◌, Option, none, some, List, [], ◌∷◌, ◌++◌, ◌⊎◌, inl, inr, if◌then◌else◌,
}
use examples_service.Js.{Value, str, arr, obj, Fields, spread, is_truthy}
use examples_service.Registry.Includes.{File, absent, unreadable, readable}
use examples_service.Registry.Disk.{Disk, listing, ends_with}
use examples_service.Scenario.Ending.{Run, ill_typed, crashed, done, ◌>>=◌, schema_defaults}
use examples_service.Scenario.Report.{Report, Schemas, no_findings, append, error, has_directory}

-- What the fixtures give: the report, and those that are valid, merged over the defaults.
pub record FixtureReport : Type 0 where
  pub report : Report
  pub valid : List Fields

abbrev failing : String → FixtureReport
failing message = record { report = error message; valid = [] }

abbrev fixture_verdict : String → Fields → Option String → FixtureReport
fixture_verdict file merged none = record { report = no_findings; valid = merged ∷ [] }
fixture_verdict file merged (some text) =
    failing ("fixture " <> file <> " fails JSON Schema: " <> text)

abbrev check_raw : Schemas → Value → Fields → String → String ⊎ Value → Run FixtureReport
check_raw schemas schema defaults file (inl reason) =
    done (failing ("fixture " <> file <> " is not valid JSON: " <> reason))
check_raw schemas schema defaults file (inr (obj raw)) =
    let merged = spread defaults raw in
    done (fixture_verdict file merged (schemas.faults schema merged))
check_raw schemas schema defaults file (inr (arr raw)) = ill_typed
check_raw schemas schema defaults file (inr (str raw)) = ill_typed
check_raw schemas schema defaults file (inr v) =
    done (fixture_verdict file defaults (schemas.faults schema defaults))

abbrev append_fixtures : FixtureReport → FixtureReport → FixtureReport
append_fixtures a b = record { report = append a.report b.report; valid = a.valid ++ b.valid }

abbrev pub no_fixtures : FixtureReport
no_fixtures = record { report = no_findings; valid = [] }

-- `JSON.parse(fs.readFileSync(path))`
abbrev parse_file : Disk → String → File → String ⊎ Value
parse_file disk path absent = inl ("ENOENT: no such file or directory, open '" <> path <> "'")
parse_file disk path (unreadable reason) = inl reason
parse_file disk path (readable content) = disk.parsers.parse_json content

module _ (disk : Disk) (schemas : Schemas) where
  unfoldable pub check_fixtures : Value → Fields → String → List String → Run FixtureReport
  unfolding spread ends_with
  check_fixtures schema defaults dir [] = done no_fixtures
  check_fixtures schema defaults dir (file ∷ files) = do
    fixtures ←
        (if ends_with file ".json"
          then check_raw schemas schema defaults file
              (parse_file disk (disk.join dir file) (disk.files (disk.join dir file)))
          else done no_fixtures)
    more ← check_fixtures schema defaults dir files
    done (append_fixtures fixtures more)

  -- The schema is compiled once more here, outside of any `try`.
  abbrev pub fixtures_of : Value → String → Option String → Run FixtureReport
  fixtures_of schema dir (some reason) = crashed reason
  fixtures_of schema dir none =
      schema_defaults schema >>= (λ defaults. check_fixtures schema defaults dir (listing disk dir))

  abbrev pub validate_fixtures : Value → String → Run FixtureReport
  validate_fixtures schema scenario_dir =
      let dir = disk.join scenario_dir "fixtures" in
      if has_directory disk dir && is_truthy schema
      then fixtures_of schema dir (schemas.compile_fault schema)
      else done no_fixtures
