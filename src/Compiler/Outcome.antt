-- ===== src/Compiler/Outcome.antt =====
-- How a call of src/compiler/ or src/launch/ ends, and the reading of values that nothing has checked.
use examples_service.Common.{
  String, Bool, false, Option, none, some, List, [], ◌∷◌, ◌++◌, ◌==◌, string_eq, if◌then◌else◌,
  contains, ◌≡◌, refl, arith,
}
use examples_service.Js.{Value, undefined, null, str, arr, obj, Items, nil, cons, Fields, get}
use examples_service.Errors.{AppException, Result, ok, err}
use examples_service.Contracts.{ParticipantAgentBinding}

-- How a call ends; `ill_typed` is a `TypeError`, or a value that is not of its declared type.
pub data Outcome {ℓ} (A : Type ℓ) : Type ℓ where
  ill_typed : Outcome A
  thrown : AppException → Outcome A
  returned : A → Outcome A

infixl 5 ◌>>=◌
abbrev pub ◌>>=◌ {ℓ κ} : {A : Type ℓ} {B : Type κ} → Outcome A → (A → Outcome B) → Outcome B
ill_typed >>= next = ill_typed
thrown e >>= next = thrown e
returned a >>= next = next a

abbrev pub of_result {ℓ} : {A : Type ℓ} → Result A → Outcome A
of_result (err e) = thrown e
of_result (ok a) = returned a

abbrev pub of_option {ℓ} : {A : Type ℓ} → Option A → Outcome A
of_option none = ill_typed
of_option (some a) = returned a

-- `v ?? otherwise`
abbrev pub coalesce : Value → Value → Value
coalesce undefined otherwise = otherwise
coalesce null otherwise = otherwise
coalesce v otherwise = v

-- `v?.key`
abbrev pub property : String → Value → Value
property key (obj fs) = get key fs
property key v = undefined

-- `v?.[0]`
abbrev pub first : Value → Value
first (arr (cons v vs)) = v
first (obj fs) = get "0" fs
first (str (String.◌∷◌ c s)) = str (String.◌∷◌ c String.[])
first v = undefined

abbrev pub is_text : Value → String → Bool
is_text (str s) t = s == t
is_text v t = false

abbrev pub fields_of : Value → Outcome Fields
fields_of (obj fs) = returned fs
fields_of v = ill_typed

abbrev pub text_of : Value → Outcome String
text_of (str s) = returned s
text_of v = ill_typed

abbrev pub binding_of : Value → Outcome ParticipantAgentBinding
binding_of v = do
  id ← text_of (property "id" v)
  role ← text_of (property "role" v)
  ref ← text_of (property "agentRef" v)
  returned (record { participant_id = id; role = role; agent_ref = ref })

unfoldable pub bindings_of_items : Items → Outcome (List ParticipantAgentBinding)
unfolding get
bindings_of_items nil = returned []
bindings_of_items (cons v vs) = do b ← binding_of v; bs ← bindings_of_items vs; returned (b ∷ bs)

-- `launch.participants`
abbrev pub bindings_of : Value → Outcome (List ParticipantAgentBinding)
bindings_of (arr vs) = bindings_of_items vs
bindings_of v = ill_typed

unfoldable pub texts_of_items : Items → Outcome (List String)
texts_of_items nil = returned []
texts_of_items (cons v vs) = do s ← text_of v; ss ← texts_of_items vs; returned (s ∷ ss)

-- `tags ?? []`
abbrev pub texts_of : Value → Outcome (List String)
texts_of undefined = returned []
texts_of null = returned []
texts_of (arr vs) = texts_of_items vs
texts_of v = ill_typed

-- `Array.from(new Set(…))`, from the elements that the set has already.
unfoldable pub unique : List String → List String → List String
unique seen [] = seen
unique seen (t ∷ ts) = unique (if contains seen t then seen else seen ++ (t ∷ [])) ts

-- A chain of calls returns only if its first one does.
pub bind-returned {ℓ κ} :
    {A : Type ℓ} {B : Type κ} (o : Outcome A) (next : A → Outcome B) (b : B)
    → (o >>= next) ≡ returned b
    → (a : A) × (o ≡ returned a) × (next a ≡ returned b)
bind-returned ill_typed next b h = absurd (ground arith)
bind-returned (thrown e) next b h = absurd (ground arith)
bind-returned (returned a) next b h = (a, refl, h)

pub same_of_returned {ℓ} : {A : Type ℓ} {a b : A} → returned a ≡ returned b → a ≡ b
same_of_returned h = cc
