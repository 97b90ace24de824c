-- ===== src/Registry/Includes/Ending.antt =====
-- The loading of a file ends.
use examples_service.Common.{
  ℕ, zero, suc, ◌<◌, ◌≤◌, String, ◌≡◌, refl, ap, ◌∙◌, sym, Bool, true, false, not, List, [], ◌∷◌,
  Bool-cases, inl, inr, contains, string_eq, count, length, count-le-length, arith, ◌⊎◌,
}
use examples_service.Common.{◌==◌}
use text.Mathlib.TextEquality.{eq_iff}
use examples_service.Common.Text.{truthy}
use examples_service.Common.Words.{trim, lower}
use examples_service.Js.{Value}
use examples_service.Errors.{Result, ok, err}
use examples_service.Registry.Includes.Contained.{resolve_include_path_sound}
use examples_service.Registry.Includes.{
  absent, unreadable, readable, with_text, load_resolved, include_from, resolve_include_path,
  parse_content, load_yaml_with_includes, File, Paths, Parsers, Document, complete, broken,
  is_there, wrap, from_json, parse_yaml_content, load_file, construct_broken, construct_document,
  Load, out_of_fuel, thrown, failed, loaded, and_then, Node, Nodes, Entries, plain, included,
  sequence, mapping, no_nodes, node, no_entries, entry, construct, construct_nodes,
  construct_entries,
}

abbrev pub has_ended {ℓ} : {A : Type ℓ} → Load A → Bool
has_ended out_of_fuel = false
has_ended l = true

pub and_then-ended {ℓ κ} :
    {A : Type ℓ} {B : Type κ} (l : Load A) (next : A → Load B)
    → has_ended l ≡ true
    → ((a : A) → has_ended (next a) ≡ true)
    → has_ended (and_then l next) ≡ true
and_then-ended out_of_fuel next h k = absurd (ground arith)
and_then-ended (thrown e) next h k = refl
and_then-ended (failed reason) next h k = refl
and_then-ended (loaded a) next h k = k a

-- How many files have not been visited.
abbrev unvisited : List String → List String → ℕ
unvisited all visited = count (λ p. not (contains visited p)) all

unvisited-le :
    (all visited : List String) (path : String)
    → unvisited all (path ∷ visited) ≤ unvisited all visited
unvisited-le [] visited path = omega arith
unvisited-le (p ∷ all) visited path = ground (arith, unvisited-le all visited path)

unvisited-lt :
    (all visited : List String) (path : String)
    → contains all path ≡ true
    → contains visited path ≡ false
    → unvisited all (path ∷ visited) < unvisited all visited
unvisited-lt [] visited path h n = absurd (ground arith)
unvisited-lt (p ∷ all) visited path h n = elim (Bool-cases (p == path)) [
  | inl e ↦
      let same = (eq_iff p path).0 e in
      ground (
        arith,
        unvisited-le all visited path,
        (eq_iff path p).1 (sym same),
        ap (contains visited) same ∙ n,
      )
  | inr e ↦ ground (arith, unvisited-le all visited path, unvisited-lt all visited path)
]

module _ (include : String → Load Value) (ends : (a : String) → has_ended (include a) ≡ true) where
  mutual
    unfolding construct

    construct-ended : (n : Node) → has_ended (construct include n) ≡ true
    construct-ended (plain v) = refl
    construct-ended (included a) = ends a
    construct-ended (sequence ns) =
        and_then-ended (construct_nodes include ns) _ (construct_nodes-ended ns) (λ x. refl)
    construct-ended (mapping es) =
        and_then-ended (construct_entries include es) _ (construct_entries-ended es) (λ x. refl)

    construct_nodes-ended : (ns : Nodes) → has_ended (construct_nodes include ns) ≡ true
    construct_nodes-ended no_nodes = refl
    construct_nodes-ended (node n ns) =
        and_then-ended (construct include n) _ (construct-ended n) (λ v.
          and_then-ended (construct_nodes include ns) _ (construct_nodes-ended ns) (λ x. refl))

    construct_entries-ended : (es : Entries) → has_ended (construct_entries include es) ≡ true
    construct_entries-ended no_entries = refl
    construct_entries-ended (entry k n es) =
        and_then-ended (construct include n) _ (construct-ended n) (λ v.
          and_then-ended (construct_entries include es) _ (construct_entries-ended es) (λ x. refl))

  construct_broken-ended :
      (arguments : List String) (reason : String)
      → has_ended (construct_broken include arguments reason) ≡ true
  unfolding construct_broken
  construct_broken-ended [] reason = refl
  construct_broken-ended (a ∷ arguments) reason =
      and_then-ended (include a) _ (ends a) (λ v. construct_broken-ended arguments reason)

  construct_document-ended : (d : Document) → has_ended (construct_document include d) ≡ true
  construct_document-ended (complete n) = construct-ended n
  construct_document-ended (broken arguments reason) = construct_broken-ended arguments reason

pub wrap-ended : (path : String) (l : Load Value) → has_ended (wrap path l) ≡ has_ended l
wrap-ended path out_of_fuel = refl
wrap-ended path (thrown e) = refl
wrap-ended path (failed reason) = refl
wrap-ended path (loaded v) = refl

from_json-ended : (path : String) (r : String ⊎ Value) → has_ended (from_json path r) ≡ true
from_json-ended path (inl reason) = refl
from_json-ended path (inr v) = refl

with_text-ended :
    (path : String) (file : File) (next : String → Load Value)
    → ((content : String) → has_ended (next content) ≡ true)
    → has_ended (with_text path file next) ≡ true
with_text-ended path absent next h = refl
with_text-ended path (unreadable reason) next h = refl
with_text-ended path (readable content) next h = h content

load_resolved-ended :
    (load : List String → String → Load Value) (visited : List String) (r : Result String)
    → ((p : String) → r ≡ ok p → has_ended (load (p ∷ visited) p) ≡ true)
    → has_ended (load_resolved load visited r) ≡ true
load_resolved-ended load visited (err e) h = refl
load_resolved-ended load visited (ok p) h = h p refl

module _ (files : String → File) (paths : Paths) (parsers : Parsers) (all : List String)
    (listed : (path : String) → is_there (files path) ≡ true → contains all path ≡ true) where
  parse_yaml_content-ended :
      (include : String → Load Value) (path content : String)
      → ((a : String) → has_ended (include a) ≡ true)
      → has_ended (parse_yaml_content files paths parsers include path content) ≡ true
  parse_yaml_content-ended include path content ends = elim (Bool-cases (truthy (trim content))) [
    | inl e ↦
        rw e
          (wrap-ended path _ ∙ construct_document-ended include ends (parsers.parse_yaml content))
    | inr e ↦ rw e refl
  ]

  parse_content-ended :
      (include : String → Load Value) (path content : String)
      → ((a : String) → has_ended (include a) ≡ true)
      → has_ended (parse_content files paths parsers include path content) ≡ true
  parse_content-ended include path content ends =
      elim (Bool-cases (lower (paths.extension path) == ".json")) [
        | inl e ↦ rw e (elim (Bool-cases (truthy (trim content))) [
          | inl g ↦ rw g (from_json-ended path (parsers.parse_json content))
          | inr g ↦ rw g refl
        ])
        | inr e ↦ rw e (parse_yaml_content-ended include path content ends)
      ]

  include_from-ended :
      (fuel : ℕ) (visited : List String) (path : String)
      → ((p : String)
          → is_there (files p) ≡ true
          → contains visited p ≡ false
          → has_ended (load_file files paths parsers fuel (p ∷ visited) p) ≡ true)
      → (a : String)
      → has_ended
          (include_from files paths parsers (load_file files paths parsers fuel) visited path a)
        ≡ true
  include_from-ended fuel visited path ends a =
      load_resolved-ended (load_file files paths parsers fuel) visited
        (resolve_include_path files paths parsers visited path a)
        (λ p h.
          let (inside, there, new) =
            resolve_include_path_sound files paths parsers visited path a p h in
          ends p there new)

  load_file-ended :
      (fuel : ℕ) (visited : List String) (path : String)
      → unvisited all visited < fuel
      → has_ended (load_file files paths parsers fuel visited path) ≡ true
  unfolding load_file
  load_file-ended zero visited path h = absurd (omega arith)
  load_file-ended (suc fuel) visited path h = with_text-ended path (files path) _ (λ content.
      parse_content-ended _ path content (
        include_from-ended fuel visited path (λ p there new.
          load_file-ended fuel (p ∷ visited) p
            (omega (arith, h, unvisited-lt all visited p (listed p there) new)))))

  -- However the files include each other, the loading ends: as many nested includes as there are
  -- files are enough.
  pub load_yaml_with_includes-ended :
      (path : String)
      → has_ended (load_yaml_with_includes files paths parsers (suc (length all)) path) ≡ true
  unfolding load_yaml_with_includes
  load_yaml_with_includes-ended path = with_text-ended path (files path) _ (λ content.
      parse_yaml_content-ended _ path content (
        include_from-ended (suc (length all)) (path ∷ []) path (λ p there new.
          load_file-ended (suc (length all)) (p ∷ path ∷ []) p
            (omega (arith, count-le-length (λ q. not (contains (p ∷ path ∷ []) q)) all)))))
