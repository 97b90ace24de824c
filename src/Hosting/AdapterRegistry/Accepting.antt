-- ===== src/Hosting/AdapterRegistry/Accepting.antt =====
-- Which manifests the validator accepts.
use examples_service.Common.{
  String, ◌≡◌, refl, ap, ◌∙◌, Bool, true, false, not, ◌&&◌, ◌||◌, Option, none, some, arith, List,
  [], ◌∷◌, ◌==◌, string_eq, Bool-cases, Option-cases, if◌then◌else◌, inl, inr,
}
use text.Mathlib.TextEquality.{eq_iff}
use examples_service.Common.Dict.{lookup}
use examples_service.Common.Text.{truthy}
use examples_service.Js.{Fields}
use examples_service.Hosting.Contracts.{AgentManifest}
use examples_service.Hosting.Adapters.{or_else}
use examples_service.Hosting.Adapters.Checks.{
  is_framework, is_python, entry_value, entry_type, validate_langgraph, validate_langchain,
  validate_crewai, validate_custom,
}
use examples_service.Hosting.AdapterRegistry.{
  registered, by_adapter, get_adapter, validate, required_errors, validate_checked,
}
use examples_service.Hosting.AdapterRegistry.Fitting.{
  is_empty, is_configured, langgraph_fits, crewai_fits, langchain_fits, is_python_agent,
  validate_langgraph_lem, validate_langchain_lem, validate_crewai_lem, validate_custom_lem,
}

abbrev has_parts : AgentManifest → Bool
has_parts m =
    truthy m.id
    && truthy m.name
    && truthy (entry_type m.entrypoint)
    && truthy (entry_value m.entrypoint)

abbrev is_python_manifest : AgentManifest → Option String → String → (Fields → Bool) → Bool
is_python_manifest m framework own fits =
    is_framework own framework
    && is_python (entry_type m.entrypoint)
    && is_configured fits m.framework_config

abbrev accepts_at : AgentManifest → Option String → Bool
accepts_at m framework =
    has_parts m
    && (is_framework "custom" framework
        || is_python_manifest m framework "langgraph" langgraph_fits
        || is_python_manifest m framework "langchain" langchain_fits
        || is_python_manifest m framework "crewai" crewai_fits)

-- What a manifest needs, in one condition.
unfoldable pub accepts : AgentManifest → Bool
accepts m = accepts_at m m.framework

required_lem :
    (m : AgentManifest)
    → is_empty (required_errors m) ≡ (has_parts m && truthy (or_else m.framework ""))
required_lem m = elim (Option-cases m.entrypoint) [
  | inl e ↦ rw e (ground arith)
  | inr (x, e) ↦ rw e (ground arith)
]

abbrev by_framework : Option String → AgentManifest → Bool
by_framework f m =
    truthy (entry_value m.entrypoint)
    && (is_framework "custom" f
        || (is_framework "langgraph" f
            && (is_python_agent m.entrypoint && is_configured langgraph_fits m.framework_config))
        || (is_framework "langchain" f
            && (is_python_agent m.entrypoint && is_configured langchain_fits m.framework_config))
        || (is_framework "crewai" f
            && (is_python_agent m.entrypoint && is_configured crewai_fits m.framework_config)))

same_sym : (x f : String) → (x == f) ≡ (f == x)
same_sym x f = ground (arith, eq_iff x f, eq_iff f x)

one_of : (x y f : String) → (x == y) ≡ false → (f == x) ≡ true → (f == y) ≡ false
one_of x y f h g = ground (arith, eq_iff f x, eq_iff f y, eq_iff x y)

-- One framework at most is named.
chain :
    (a' b' c' d' a'' b'' c'' d'' w x y z a b c d v g h k : Bool)
    → (a' ≡ a) × (b' ≡ b) × (c' ≡ c) × (d' ≡ d)
    → (a'' ≡ a) × (b'' ≡ b) × (c'' ≡ c) × (d'' ≡ d)
    → (a ≡ true → b ≡ false) × (a ≡ true → c ≡ false) × (a ≡ true → d ≡ false)
    → (b ≡ true → c ≡ false) × (b ≡ true → d ≡ false) × (c ≡ true → d ≡ false)
    → w ≡ (a'' && v && g)
    → x ≡ (b'' && v && h)
    → y ≡ (c'' && v && k)
    → z ≡ (d'' && v)
    → (if a' then w else if b' then x else if c' then y else if d' then z else false)
      ≡ (v && (d || (a && g) || (b && h) || (c && k)))
chain a' b' c' d' a'' b'' c'' d'' w x y z a b c d v g h k p q r s i j l m = ground arith

by_chain :
    (f : String) (m : AgentManifest)
    → (by_adapter f m (get_adapter registered f)).valid ≡ (
        if "langgraph" == f
        then (validate_langgraph m).valid
        else if "langchain" == f
        then (validate_langchain m).valid
        else if "crewai" == f
        then (validate_crewai m).valid
        else if "custom" == f
        then (validate_custom m).valid
        else false)
unfolding lookup registered
by_chain f m = elim (Bool-cases ("langgraph" == f)) [
  | inl e ↦ rw e refl
  | inr e ↦ rw e (elim (Bool-cases ("langchain" == f)) [
    | inl g ↦ rw g refl
    | inr g ↦ rw g (elim (Bool-cases ("crewai" == f)) [
      | inl h ↦ rw h refl
      | inr h ↦ rw h (elim (Bool-cases ("custom" == f)) [ inl k ↦ rw k refl | inr k ↦ rw k refl ])
    ])
  ])
]

by_adapter_valid :
    (f : String) (m : AgentManifest)
    → m.framework ≡ some f
    → (by_adapter f m (get_adapter registered f)).valid ≡ by_framework (some f) m
unfolding lookup registered
by_adapter_valid f m e =
    by_chain f m
    ∙ chain _ _ _ _ _ _ _ _ _ _ _ _ _ _ _ _ (truthy (entry_value m.entrypoint))
        (is_python_agent m.entrypoint && is_configured langgraph_fits m.framework_config)
        (is_python_agent m.entrypoint && is_configured langchain_fits m.framework_config)
        (is_python_agent m.entrypoint && is_configured crewai_fits m.framework_config)
        (same_sym "langgraph" f, same_sym "langchain" f, same_sym "crewai" f, same_sym "custom" f)
        (
          ap (is_framework "langgraph") e,
          ap (is_framework "langchain") e,
          ap (is_framework "crewai") e,
          ap (is_framework "custom") e,
        )
        (
          one_of "langgraph" "langchain" f refl,
          one_of "langgraph" "crewai" f refl,
          one_of "langgraph" "custom" f refl,
        )
        (
          one_of "langchain" "crewai" f refl,
          one_of "langchain" "custom" f refl,
          one_of "crewai" "custom" f refl,
        )
        (validate_langgraph_lem m) (validate_langchain_lem m) (validate_crewai_lem m)
        (validate_custom_lem m)

validate_checked_lem :
    (m : AgentManifest) (es : List String)
    → (validate_checked registered m es).valid ≡ (
        is_empty es
        && (by_adapter
            (or_else m.framework "")
            m
            (get_adapter registered (or_else m.framework ""))).valid)
validate_checked_lem m [] = refl
validate_checked_lem m (e ∷ es) = refl

-- The two conditions together: who names a framework names something.
joined :
    (i n ty v t py a b c d g h k required by : Bool)
    → required ≡ ((i && n && ty && v) && t)
    → by ≡ (
        v
        && (d
            || (a && (not (ty && not py) && g))
            || (b && (not (ty && not py) && h))
            || (c && (not (ty && not py) && k))))
    → (a ≡ true → t ≡ true) × (b ≡ true → t ≡ true) × (c ≡ true → t ≡ true) × (d ≡ true → t ≡ true)
    → (required && by)
      ≡ ((i && n && ty && v) && (d || (a && py && g) || (b && py && h) || (c && py && k)))
joined i n ty v t py a b c d g h k required by p q r = ground arith

named : (f own : String) → truthy own ≡ true → (f == own) ≡ true → truthy f ≡ true
named f own h e = ap truthy ((eq_iff f own).0 e) ∙ h

validate_at :
    (m : AgentManifest) (o : Option String)
    → m.framework ≡ o
    → (is_empty (required_errors m)
        && (by_adapter (or_else o "") m (get_adapter registered (or_else o ""))).valid)
      ≡ accepts_at m o
validate_at m none e = ground (arith, required_lem m, ap (λ o. truthy (or_else o "")) e)
validate_at m (some f) e =
    joined (truthy m.id) (truthy m.name) _ _ (truthy f) _ _ _ _ _ _ _ _ _ _
      (required_lem m ∙ ap (λ o. has_parts m && truthy (or_else o "")) e) (by_adapter_valid f m e)
      (
        named f "langgraph" refl,
        named f "langchain" refl,
        named f "crewai" refl,
        named f "custom" refl,
      )

-- The validator accepts a manifest exactly if the one test does.
pub validate_valid : (m : AgentManifest) → (validate registered m).valid ≡ accepts m
unfolding validate accepts
validate_valid m = validate_checked_lem m (required_errors m) ∙ validate_at m m.framework refl
