-- ===== src/Hosting/AdapterRegistry/Fitting.antt =====
-- When the check of each adapter finds nothing wrong with a manifest.
use examples_service.Common.{
  String, ◌≡◌, refl, Bool, true, false, not, ◌&&◌, ◌||◌, Option, none, some, arith, List, [], ◌∷◌,
  ◌++◌, string_eq,
}
use examples_service.Common.Text.{truthy}
use examples_service.Js.{Fields, get, is_truthy}
use examples_service.Hosting.Contracts.{Entrypoint, AgentManifest}
use examples_service.Hosting.Adapters.Checks.{
  when, from_errors, is_framework, is_python, is_text, is_invoke_mode, entry_value, entry_type,
  validate_langgraph, validate_langchain, validate_crewai, validate_custom, langgraph_config,
  langchain_config, crewai_config,
}

abbrev pub is_empty {ℓ} : {A : Type ℓ} → List A → Bool
is_empty [] = true
is_empty (x ∷ xs) = false

from_errors-valid : (es : List String) → (from_errors es).valid ≡ is_empty es
from_errors-valid [] = refl
from_errors-valid (e ∷ es) = refl

is_empty-append : (xs ys : List String) → is_empty (xs ++ ys) ≡ (is_empty xs && is_empty ys)
is_empty-append [] ys = refl
is_empty-append (x ∷ xs) ys = refl

is_empty-when : (b : Bool) (s : String) → is_empty (when b s) ≡ not b
is_empty-when true s = refl
is_empty-when false s = refl

-- A configuration names the parts that the adapter loads.
abbrev names_parts : String → Fields → Bool
names_parts key c =
    is_text (get key c) && (is_text (get "inputMapper" c) && is_text (get "outputMapper" c))

abbrev pub is_configured : (Fields → Bool) → Option Fields → Bool
is_configured fits none = true
is_configured fits (some c) = fits c

abbrev pub langgraph_fits : Fields → Bool
langgraph_fits c = names_parts "graphFactory" c

abbrev pub crewai_fits : Fields → Bool
crewai_fits c = names_parts "crewFactory" c

abbrev pub langchain_fits : Fields → Bool
langchain_fits c =
    names_parts "factory" c
    && (not (is_truthy (get "invokeMode" c)) || is_invoke_mode (get "invokeMode" c))

langgraph-errors :
    (c : Option Fields) → is_empty (langgraph_config c) ≡ is_configured langgraph_fits c
langgraph-errors none = refl
langgraph-errors (some c) = ground arith

langchain-errors :
    (c : Option Fields) → is_empty (langchain_config c) ≡ is_configured langchain_fits c
langchain-errors none = refl
langchain-errors (some c) = ground arith

crewai-errors : (c : Option Fields) → is_empty (crewai_config c) ≡ is_configured crewai_fits c
crewai-errors none = refl
crewai-errors (some c) = ground arith

-- The errors of the four checks that an adapter for Python agents makes.
four_checks :
    (a b c : Bool) (m n o : String) (es : List String) (d : Bool)
    → is_empty es ≡ d
    → (from_errors (when (not a) m ++ when (not b) n ++ when c o ++ es)).valid
      ≡ (a && b && (not c && d))
four_checks a b c m n o es d h = grind (arith, from_errors-valid, is_empty-append, is_empty-when)

abbrev pub is_python_agent : Option Entrypoint → Bool
is_python_agent e = not (truthy (entry_type e) && not (is_python (entry_type e)))

pub validate_langgraph_lem :
    (m : AgentManifest)
    → (validate_langgraph m).valid ≡ (
        is_framework "langgraph" m.framework
        && truthy (entry_value m.entrypoint)
        && (is_python_agent m.entrypoint && is_configured langgraph_fits m.framework_config))
unfolding validate_langgraph
validate_langgraph_lem m = four_checks _ _ _ _ _ _ _ _ (langgraph-errors m.framework_config)

pub validate_langchain_lem :
    (m : AgentManifest)
    → (validate_langchain m).valid ≡ (
        is_framework "langchain" m.framework
        && truthy (entry_value m.entrypoint)
        && (is_python_agent m.entrypoint && is_configured langchain_fits m.framework_config))
unfolding validate_langchain
validate_langchain_lem m = four_checks _ _ _ _ _ _ _ _ (langchain-errors m.framework_config)

pub validate_crewai_lem :
    (m : AgentManifest)
    → (validate_crewai m).valid ≡ (
        is_framework "crewai" m.framework
        && truthy (entry_value m.entrypoint)
        && (is_python_agent m.entrypoint && is_configured crewai_fits m.framework_config))
unfolding validate_crewai
validate_crewai_lem m = four_checks _ _ _ _ _ _ _ _ (crewai-errors m.framework_config)

pub validate_custom_lem :
    (m : AgentManifest)
    → (validate_custom m).valid
      ≡ (is_framework "custom" m.framework && truthy (entry_value m.entrypoint))
unfolding validate_custom
validate_custom_lem m = grind (arith, from_errors-valid, is_empty-append, is_empty-when)
