-- ===== src/Scenario/Lint/Discover.antt =====
-- The directories that scripts/scenario/lint.ts finds, and the files that are included.
use Prim.Native.Char.{code}
use Prim.Native.Nat.{pred}
use examples_service.Common.{
  ℕ, zero, suc, String, ◌<>◌, Bool, not, ◌&&◌, Option, none, some, List, [], ◌∷◌, ◌++◌, ◌==◌,
  nat_eq, ltb, ◌≡◌, refl, if◌then◌else◌, starts_with,
}
use examples_service.Common.Text.{truthy}
use examples_service.Common.Words.{is_space, spaces}
use examples_service.Registry.Includes.{File, absent, unreadable, readable}
use examples_service.Registry.Disk.{exists, is_yaml}
use examples_service.Scenario.Ending.{Run, crashed, done, ◌>>=◌}
use examples_service.Scenario.Placeholders.{add_path}
use examples_service.Scenario.Lint.Finding.{Tree, read_dir, stat}

-- The text behind a prefix.
after : String → String → Option String
after String.[] s = some s
after (String.◌∷◌ c p) String.[] = none
after (String.◌∷◌ c p) (String.◌∷◌ d s) =
    let rest = after p s in if code c == code d then rest else none

-- `[^\s\n]+`, with the number of characters before and behind it. The class is disjoint from that
-- of `\s+`, so that there is nothing to backtrack to.
word : ℕ → String → String × ℕ
word n String.[] = ("", n)
word n (String.◌∷◌ c s) =
    let (rest, m) = word (suc n) s in if is_space (code c) then ("", n) else (String.◌∷◌ c rest, m)

abbrev argument_in : String × ℕ → Option (String × ℕ)
argument_in (s, n) =
    let (argument, m) = word n s in if ltb 8 n && truthy argument then some (argument, m) else none

-- What the regular expression of an include matches at the beginning of a text: the argument, and
-- the length of the match.
unfoldable include_at : String → Option (String × ℕ)
unfolding after spaces word
include_at s = elim (after "!include" s) [ none ↦ none | some rest ↦ argument_in (spaces 8 rest) ]

-- The arguments in a text; the characters of a match that are still to be skipped come first.
unfoldable pub include_arguments : ℕ → String → List String
unfolding include_at
include_arguments skip String.[] = []
include_arguments (suc n) (String.◌∷◌ c s) = include_arguments n s
include_arguments zero (String.◌∷◌ c s) = elim (include_at (String.◌∷◌ c s)) [
  | none ↦ include_arguments zero s
  | some (argument, n) ↦ argument ∷ include_arguments (pred n) s
]

include_arguments_test :
    include_arguments 0 "a: !include  ./b.yaml\nc: !include d.json!include e"
    ≡ "./b.yaml" ∷ "d.json!include" ∷ []
unfolding include_arguments include_at after spaces word
include_arguments_test = refl

unfoldable pub add_all : (String → String) → List String → List String → List String
add_all resolve [] hits = hits
add_all resolve (argument ∷ arguments) hits =
    add_all resolve arguments (add_path (resolve argument) hits)

module _ (tree : Tree) where
  abbrev hits_in : String → List String → File → Run (List String)
  hits_in path hits absent = crashed ("ENOENT: no such file or directory, open '" <> path <> "'")
  hits_in path hits (unreadable reason) = crashed reason
  hits_in path hits (readable content) = done (
      add_all (tree.disk.paths.resolve (tree.disk.paths.directory path))
        (include_arguments 0 content) hits)

  abbrev pub discover_includes : String → List String → Run (List String)
  discover_includes path hits = hits_in path hits (tree.disk.files path)

  -- The loop over the names of a list that pass a test.
  unfoldable discover_each :
      (String → Bool) → (String → String) → List String → List String → Run (List String)
  unfolding include_arguments add_all
  discover_each test path_of [] hits = done hits
  discover_each test path_of (name ∷ names) hits = do
    now ← (if test name then discover_includes (path_of name) hits else done hits)
    discover_each test path_of names now

  abbrev in_scenario : String → Run (List String)
  in_scenario scenario_yaml =
      if exists tree.disk scenario_yaml then discover_includes scenario_yaml [] else done []

  abbrev in_templates : String → List String → Run (List String)
  in_templates dir hits =
      if exists tree.disk dir
      then read_dir tree dir >>= (λ names. discover_each is_yaml (tree.disk.join dir) names hits)
      else done hits

  -- The included files are looked into once, and not the files that these include.
  unfoldable pub gather_all_includes : String → Run (List String)
  unfolding discover_each include_arguments add_all
  gather_all_includes version_dir = do
    scenario ← in_scenario (tree.disk.join version_dir "scenario.yaml")
    templates ← in_templates (tree.disk.join version_dir "templates") scenario
    discover_each (λ path. is_yaml path && exists tree.disk path) (λ path. path) templates templates

  abbrev has_pack : String → String → Bool
  has_pack target name =
      let dir = tree.disk.join target name in
      tree.is_entry_directory dir
      && not (starts_with name "_")
      && exists tree.disk (tree.disk.join dir "pack.yaml")

  unfoldable packs_in : String → List String → List String
  packs_in target [] = []
  packs_in target (name ∷ names) =
      let more = packs_in target names in
      if has_pack target name then tree.disk.join target name ∷ more else more

  abbrev packs_under : String → Run (List String)
  packs_under target =
      if exists tree.disk (tree.disk.join target "pack.yaml")
      then done (target ∷ [])
      else read_dir tree target >>= (λ names. done (packs_in target names))

  unfoldable pub list_pack_dirs : String → Run (List String)
  unfolding packs_in
  list_pack_dirs target =
      if exists tree.disk target && tree.disk.is_directory target
      then packs_under target
      else done []

  unfoldable versions_in : String → List String → Run (List String)
  versions_in dir [] = done []
  versions_in dir (version ∷ versions) = do
    let version_dir = tree.disk.join dir version
    is_directory ← stat tree tree.disk.is_directory version_dir
    more ← versions_in dir versions
    done (
        (if is_directory && exists tree.disk (tree.disk.join version_dir "scenario.yaml")
          then version_dir ∷ []
          else [])
        ++ more)

  unfoldable versions_under : String → List String → Run (List String)
  unfolding versions_in
  versions_under root [] = done []
  versions_under root (slug ∷ slugs) = do
    let dir = tree.disk.join root slug
    is_directory ← stat tree tree.disk.is_directory dir
    versions ← (if is_directory then read_dir tree dir >>= versions_in dir else done [])
    more ← versions_under root slugs
    done (versions ++ more)

  unfoldable pub list_scenario_version_dirs : String → Run (List String)
  unfolding versions_under
  list_scenario_version_dirs pack_dir =
      let root = tree.disk.join pack_dir "scenarios" in
      if exists tree.disk root then read_dir tree root >>= versions_under root else done []
