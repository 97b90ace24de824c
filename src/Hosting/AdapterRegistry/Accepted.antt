-- ===== src/Hosting/AdapterRegistry/Accepted.antt =====
-- What a manifest needs to be accepted, in the words of its documents.
use examples_service.Common.{
  String, ◌≡◌, ◌≢◌, ◌↔◌, ◌⊎◌, refl, sym, ap, ◌∙◌, Bool, true, false, not, ◌&&◌, ◌||◌, Option, none,
  some, arith, string_eq, inl, inr,
}
use text.Mathlib.TextEquality.{eq_iff}
use text.Mathlib.TextLemmas.{cons≢nil}
use examples_service.Common.Text.{truthy}
use examples_service.Js.{Value, str, Fields, get, is_truthy}
use examples_service.Hosting.Contracts.{Entrypoint, AgentManifest}
use examples_service.Hosting.Adapters.Checks.{
  is_text, is_python, is_invoke_mode, is_framework, entry_type, entry_value,
}
use examples_service.Hosting.AdapterRegistry.{registered, validate}
use examples_service.Hosting.AdapterRegistry.Fitting.{
  is_configured, langgraph_fits, crewai_fits, langchain_fits,
}
use examples_service.Hosting.AdapterRegistry.Accepting.{accepts, validate_valid}

-- The configuration has a text under the key, and it is not empty.
abbrev pub HasText : String → Fields → Type 0
HasText key c = (s : String) × (get key c ≡ str s) × (s ≢ "")

abbrev pub NamesParts : String → Fields → Type 0
NamesParts key c = HasText key c × HasText "inputMapper" c × HasText "outputMapper" c

-- A mode that counts as given is one of the three.
abbrev pub HasInvokeMode : Fields → Type 0
HasInvokeMode c =
    (is_truthy (get "invokeMode" c) ≡ false)
    ⊎ (get "invokeMode" c ≡ str "invoke")
    ⊎ (get "invokeMode" c ≡ str "stream")
    ⊎ (get "invokeMode" c ≡ str "batch")

abbrev pub Configured : (Fields → Type 0) → Option Fields → Type 0
Configured P none = Unit
Configured P (some c) = P c

-- The framework has its own conditions on the entrypoint and on the configuration.
abbrev pub Fits : AgentManifest → Entrypoint → Type 0
Fits m e =
    (m.framework ≡ some "custom")
    ⊎ (((e.type ≡ "python_module") ⊎ (e.type ≡ "python_file"))
        × (((m.framework ≡ some "langgraph")
              × Configured (NamesParts "graphFactory") m.framework_config)
            ⊎ ((m.framework ≡ some "crewai")
                × Configured (NamesParts "crewFactory") m.framework_config)
            ⊎ ((m.framework ≡ some "langchain")
                × Configured (λ c. NamesParts "factory" c × HasInvokeMode c) m.framework_config)))

abbrev pub IsAcceptable : AgentManifest → Type 0
IsAcceptable m =
    (e : Entrypoint) × (m.entrypoint ≡ some e)
    × (m.id ≢ "")
    × (m.name ≢ "")
    × (e.type ≢ "")
    × (e.value ≢ "")
    × Fits m e

and_true : {a b : Bool} → a ≡ true → b ≡ true → (a && b) ≡ true
and_true h g = ground arith

or_cases : (a b : Bool) → (a || b) ≡ true → (a ≡ true) ⊎ (b ≡ true)
or_cases true b h = inl refl
or_cases false b h = inr h

or_left : (a b : Bool) → a ≡ true → (a || b) ≡ true
or_left a b h = ground arith

or_right : (a b : Bool) → b ≡ true → (a || b) ≡ true
or_right a b h = ground arith

not_iff : (b : Bool) → (not b ≡ true) ↔ (b ≡ false)
not_iff b = ground arith

module _ {P Q : Type 0} (a b : Bool) (p : (a ≡ true) ↔ P) (q : (b ≡ true) ↔ Q) where
  both_iff : ((a && b) ≡ true) ↔ (P × Q)
  both_iff = (λ h. (p.0 (ground arith), q.0 (ground arith)), λ (x, y). and_true (p.1 x) (q.1 y))

  either_iff : ((a || b) ≡ true) ↔ (P ⊎ Q)
  either_iff = (
    λ h. elim (or_cases a b h) [ inl x ↦ inl (p.0 x) | inr y ↦ inr (q.0 y) ],
    λ h. elim h [ inl x ↦ or_left a b (p.1 x) | inr y ↦ or_right a b (q.1 y) ],
  )

truthy_iff : (s : String) → (truthy s ≡ true) ↔ (s ≢ "")
truthy_iff String.[] = (λ h. absurd (ground arith), λ h. absurd (h refl))
truthy_iff (String.◌∷◌ c s) = (λ h e. cons≢nil e, λ h. refl)

is_text_iff : (v : Value) → (is_text v ≡ true) ↔ ((s : String) × (v ≡ str s) × (s ≢ ""))
is_text_iff (str s) = (
  λ h. (s, refl, (truthy_iff s).0 h),
  λ (t, e, n). (truthy_iff s).1 (λ empty. n (ground (arith, e, empty))),
)
is_text_iff v = (λ h. absurd (ground arith), λ (s, e, n). absurd cc)

is_python_iff : (t : String) → (is_python t ≡ true) ↔ ((t ≡ "python_module") ⊎ (t ≡ "python_file"))
is_python_iff t = grind (arith, eq_iff t "python_module", eq_iff t "python_file")

is_invoke_mode_iff :
    (v : Value)
    → (is_invoke_mode v ≡ true) ↔ ((v ≡ str "invoke") ⊎ (v ≡ str "stream") ⊎ (v ≡ str "batch"))
is_invoke_mode_iff (str s) = (
  λ h. grind (arith, eq_iff s "invoke", eq_iff s "stream", eq_iff s "batch"),
  λ h. grind (arith, eq_iff s "invoke", eq_iff s "stream", eq_iff s "batch"),
)
is_invoke_mode_iff v = (λ h. absurd (ground arith), λ h. absurd (grind arith))

config_iff :
    (key : String) (c : Fields)
    → ((is_text (get key c) && (is_text (get "inputMapper" c) && is_text (get "outputMapper" c)))
        ≡ true)
      ↔ NamesParts key c
config_iff key c = grind (
  arith,
  is_text_iff (get key c),
  is_text_iff (get "inputMapper" c),
  is_text_iff (get "outputMapper" c),
)

langchain_fits_iff :
    (c : Fields) → (langchain_fits c ≡ true) ↔ (NamesParts "factory" c × HasInvokeMode c)
langchain_fits_iff c = both_iff _ _ (config_iff "factory" c) (
    either_iff (not (is_truthy (get "invokeMode" c))) _ (not_iff (is_truthy (get "invokeMode" c)))
      (is_invoke_mode_iff (get "invokeMode" c)))

is_configured_iff :
    (fits : Fields → Bool) (P : Fields → Type 0) (o : Option Fields)
    → ((c : Fields) → (fits c ≡ true) ↔ P c)
    → (is_configured fits o ≡ true) ↔ Configured P o
is_configured_iff fits P none h = (λ e. tt, λ e. refl)
is_configured_iff fits P (some c) h = h c

is_framework_iff : (own : String) (o : Option String) → (is_framework own o ≡ true) ↔ (o ≡ some own)
is_framework_iff own none = (λ h. absurd (ground arith), λ h. absurd cc)
is_framework_iff own (some f) = grind (arith, eq_iff f own)

framework_iff :
    (m : AgentManifest) (e : Entrypoint)
    → ((is_framework "custom" m.framework
          || (is_python e.type
              && ((is_framework "langgraph" m.framework
                    && is_configured langgraph_fits m.framework_config)
                  || ((is_framework "crewai" m.framework
                        && is_configured crewai_fits m.framework_config)
                      || (is_framework "langchain" m.framework
                          && is_configured langchain_fits m.framework_config)))))
        ≡ true)
      ↔ Fits m e
framework_iff m e = either_iff _ _ (is_framework_iff "custom" m.framework) (
    both_iff _ _ (is_python_iff e.type) (
      either_iff _ _
        (both_iff _ _ (is_framework_iff "langgraph" m.framework) (
          is_configured_iff langgraph_fits (NamesParts "graphFactory") m.framework_config
            (config_iff "graphFactory")))
        (either_iff _ _
          (both_iff _ _ (is_framework_iff "crewai" m.framework) (
            is_configured_iff crewai_fits (NamesParts "crewFactory") m.framework_config
              (config_iff "crewFactory")))
          (both_iff _ _ (is_framework_iff "langchain" m.framework) (
            is_configured_iff langchain_fits (λ c. NamesParts "factory" c × HasInvokeMode c)
              m.framework_config langchain_fits_iff)))))

-- The condition of one entrypoint, in the order of the validator.
regroup :
    (i n t v d p a b c g h k : Bool)
    → (i && n && t && v && (d || (a && p && g) || (b && p && h) || (c && p && k)))
      ≡ (i && (n && (t && (v && (d || (p && ((a && g) || ((c && k) || (b && h)))))))))
regroup i n t v d p a b c g h k = ground arith

-- The test of the validator, for a given entrypoint.
abbrev accepts_with : AgentManifest → Option Entrypoint → Bool
accepts_with m o =
    (truthy m.id && truthy m.name && truthy (entry_type o) && truthy (entry_value o))
    && (is_framework "custom" m.framework
        || (is_framework "langgraph" m.framework
            && is_python (entry_type o)
            && is_configured langgraph_fits m.framework_config)
        || (is_framework "langchain" m.framework
            && is_python (entry_type o)
            && is_configured langchain_fits m.framework_config)
        || (is_framework "crewai" m.framework
            && is_python (entry_type o)
            && is_configured crewai_fits m.framework_config))

accepts_lem : (m : AgentManifest) → accepts m ≡ accepts_with m m.entrypoint
unfolding accepts
accepts_lem m = refl

nothing_there : (x : Entrypoint) → none ≡ some x → ⊥
nothing_there x h = cc

accepts_none : (m : AgentManifest) → accepts_with m none ≡ false
accepts_none m = ground arith

accepts_some_iff :
    (m : AgentManifest) (x : Entrypoint)
    → (accepts_with m (some x) ≡ true)
      ↔ ((m.id ≢ "") × ((m.name ≢ "") × ((x.type ≢ "") × ((x.value ≢ "") × Fits m x))))
accepts_some_iff m x =
    let whole = both_iff _ _ (truthy_iff m.id) (
      both_iff _ _ (truthy_iff m.name) (
        both_iff _ _ (truthy_iff x.type)
          (both_iff _ _ (truthy_iff x.value) (framework_iff m x)))) in
    let same =
      regroup (truthy m.id) (truthy m.name) (truthy x.type) (truthy x.value)
        (is_framework "custom" m.framework) (is_python x.type)
        (is_framework "langgraph" m.framework) (is_framework "langchain" m.framework)
        (is_framework "crewai" m.framework) (is_configured langgraph_fits m.framework_config)
        (is_configured langchain_fits m.framework_config)
        (is_configured crewai_fits m.framework_config) in
    (λ h. whole.0 (sym same ∙ h), λ h. same ∙ whole.1 h)

accepts_iff :
    (m : AgentManifest) (o : Option Entrypoint)
    → m.entrypoint ≡ o
    → (accepts m ≡ true) ↔ IsAcceptable m
accepts_iff m none e = (
  λ h. absurd (ground (arith, accepts_none m, sym (accepts_lem m ∙ ap (accepts_with m) e) ∙ h)),
  λ h. absurd (nothing_there h.0 (sym e ∙ h.1)),
)
accepts_iff m (some x) e =
    let same = accepts_lem m ∙ ap (accepts_with m) e in
    (
      λ h.
          let (i, (n, (t, (v, f)))) = (accepts_some_iff m x).0 (sym same ∙ h) in
          (x, e, i, n, t, v, f),
      λ (y, g, i, n, t, v, f).
          accepts_lem m ∙ ap (accepts_with m) g ∙ (accepts_some_iff m y).1 (i, (n, (t, (v, f)))),
    )

-- The validator accepts a manifest exactly if it has an id, a name and an entrypoint with a type and
-- a value, all of them not empty, and is of the custom framework or else of one of the three
-- frameworks in Python: then its type is `python_module` or `python_file`, and its configuration, if
-- it has one, has the factory of the framework and the two mappers as texts that are not empty, and
-- for LangChain an `invokeMode` that is falsy or one of the three.
pub validate_valid_iff :
    (m : AgentManifest) → ((validate registered m).valid ≡ true) ↔ IsAcceptable m
validate_valid_iff m =
    let whole = accepts_iff m m.entrypoint refl in
    (λ h. whole.0 (sym (validate_valid m) ∙ h), λ h. validate_valid m ∙ whole.1 h)
