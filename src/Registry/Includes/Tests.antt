-- ===== src/Registry/Includes/Tests.antt =====
-- Includes at concrete inputs: a file of the packs that includes another, which includes the first.
use examples_service.Common.{
  String, ◌<>◌, ◌≡◌, refl, true, false, Bool-cases, inl, inr, List, [], ◌∷◌, ◌==◌, string_eq,
  if◌then◌else◌, contains, suc, length, arith, sym, ◌∙◌, starts_with,
}
use text.Mathlib.TextEquality.{eq_iff, starts_with_iff}
use text.Mathlib.TextLemmas.{append-nil, append_assoc}
use examples_service.Registry.Includes.Inside.{IsBelow}
use examples_service.Common.Words.{trim_start, trim_end, lower, before_suffix}
use examples_service.Js.{str, null}
use examples_service.Registry.Includes.{
  File, absent, readable, Paths, Parsers, complete, mapping, entry, included, no_entries, plain,
  thrown, is_inside, load_yaml_with_includes, is_there, load_file, construct, resolve_include_path,
  invalid_data,
}
use examples_service.Registry.Includes.Contained.{load_yaml_with_includes-contained}
use examples_service.Registry.Includes.Ending.{has_ended, load_yaml_with_includes-ended}

abbrev paths : Paths
paths = record {
  root = "/p";
  directory = λ path. "/p";
  resolve = λ directory argument. directory <> "/" <> argument;
  extension = λ path. ".yaml";
}

abbrev parsers : Parsers
parsers = record {
  parse_yaml = λ content.
      if content == "a"
      then complete (mapping (entry "x" (included "b.yaml") no_entries))
      else if content == "b"
      then complete (mapping (entry "y" (included "a.yaml") no_entries))
      else complete (plain (str content));
  parse_json = λ content. inr null;
}

abbrev files : String → File
files path =
    if path == "/p/a.yaml"
    then readable "a"
    else if path == "/p/b.yaml"
    then readable "b"
    else if path == "/etc/passwd"
    then readable "secret"
    else absent

abbrev listed_paths : List String
listed_paths = "/p/a.yaml" ∷ "/p/b.yaml" ∷ "/etc/passwd" ∷ []

same_of : (x y : String) → (x == y) ≡ true → (y == x) ≡ true
same_of x y h = (eq_iff y x).1 (sym ((eq_iff x y).0 h))

listed : (path : String) → is_there (files path) ≡ true → contains listed_paths path ≡ true
listed path h =
    ground (arith, same_of path "/p/a.yaml", same_of path "/p/b.yaml", same_of path "/etc/passwd")

load_yaml_with_includes-ended_example :
    has_ended (load_yaml_with_includes files paths parsers (suc (length listed_paths)) "/p/a.yaml")
    ≡ true
load_yaml_with_includes-ended_example =
    load_yaml_with_includes-ended files paths parsers listed_paths listed "/p/a.yaml"

cycle_found :
    load_yaml_with_includes files paths parsers 4 "/p/a.yaml"
    ≡ thrown (invalid_data "!include cycle detected at a.yaml (in /p/b.yaml)")
unfolding load_yaml_with_includes load_file construct resolve_include_path is_inside trim_start
    trim_end lower before_suffix
cycle_found = refl

abbrev fewer_files : String → File
fewer_files path =
    if path == "/p/a.yaml"
    then readable "a"
    else if path == "/p/b.yaml"
    then readable "b"
    else absent

-- A path below the directory begins with its text.
below_lem : (path : String) → IsBelow "/p" path → starts_with path "/p" ≡ true
below_lem path (inl e) = (starts_with_iff path "/p").1 ("", append-nil "/p" ∙ sym e)
below_lem path (inr (inl (rest, e))) =
    (starts_with_iff path "/p").1 ("/" <> rest, sym (append_assoc "/p" "/" rest) ∙ e)
below_lem path (inr (inr (stem, rest, f, e))) = (starts_with_iff path "/p").1 (rest, e)

outside : (path : String) → path ≡ "/etc/passwd" → starts_with path "/p" ≡ false
outside path h = rw h refl

agree : (path : String) → IsBelow "/p" path → files path ≡ fewer_files path
agree path h = elim (Bool-cases (path == "/etc/passwd")) [
  | inl e ↦
      absurd (ground (arith, below_lem path h, outside path ((eq_iff path "/etc/passwd").0 e)))
  | inr e ↦ rw e refl
]

load_yaml_with_includes-contained_example :
    load_yaml_with_includes files paths parsers 4 "/p/a.yaml"
    ≡ load_yaml_with_includes fewer_files paths parsers 4 "/p/a.yaml"
load_yaml_with_includes-contained_example =
    load_yaml_with_includes-contained files fewer_files paths parsers agree 4 "/p/a.yaml"
      (inr (inl ("a.yaml", refl)))
