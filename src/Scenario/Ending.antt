-- ===== src/Scenario/Ending.antt =====
-- How a script of scripts/scenario/ ends, and the reading of values that nothing has checked.
use examples_service.Common.{
  String, Option, none, some, List, Bool, false, contains, string_eq, ◌≡◌, refl, arith,
}
use examples_service.Js.{Value, undefined, null, str, arr, obj, Items, nil, cons, Fields, end}
use examples_service.Compiler.Merge.{extract_schema_defaults}
use examples_service.Compiler.Outcome.{property}

-- `crashed` is an error that the script does not catch; `ill_typed` is a `TypeError`, or a value
-- that is not of its declared type; the fuel is that of the includes.
pub data Run {ℓ} (A : Type ℓ) : Type ℓ where
  out_of_fuel ill_typed : Run A
  crashed : String → Run A
  done : A → Run A

infixl 5 ◌>>=◌
abbrev pub ◌>>=◌ {ℓ κ} : {A : Type ℓ} {B : Type κ} → Run A → (A → Run B) → Run B
out_of_fuel >>= next = out_of_fuel
ill_typed >>= next = ill_typed
crashed reason >>= next = crashed reason
done a >>= next = next a

-- A script that is done has come through its first part.
pub run_bind {ℓ κ} :
    {A : Type ℓ} {B : Type κ} (o : Run A) (f : A → Run B) (b : B)
    → (o >>= f) ≡ done b
    → (a : A) × (o ≡ done a) × (f a ≡ done b)
run_bind out_of_fuel f b h = absurd (ground arith)
run_bind ill_typed f b h = absurd (ground arith)
run_bind (crashed r) f b h = absurd (ground arith)
run_bind (done a) f b h = (a, refl, h)

pub same_of_done {ℓ} : {A : Type ℓ} {a b : A} → done a ≡ done b → a ≡ b
same_of_done h = cc

-- What `for` takes out of a text: its characters.
abbrev pub characters : String → Items
characters String.[] = nil
characters (String.◌∷◌ c s) = cons (str (String.◌∷◌ c "")) (characters s)

-- `for (const v of list ?? [])`
abbrev pub items_of : Value → Run Items
items_of undefined = done nil
items_of null = done nil
items_of (arr xs) = done xs
items_of (str s) = done (characters s)
items_of v = ill_typed

-- `v.key`
abbrev pub read : Value → String → Run Value
read undefined key = ill_typed
read null key = ill_typed
read v key = done (property key v)

abbrev pub defaults_or : Option Fields → Run Fields
defaults_or none = ill_typed
defaults_or (some defaults) = done defaults

-- `extractSchemaDefaults(schema)`, where a schema that is no object has no properties.
unfoldable pub schema_defaults : Value → Run Fields
unfolding extract_schema_defaults
schema_defaults (obj schema) = defaults_or (extract_schema_defaults schema)
schema_defaults v = done end

-- `known.has(v)`
abbrev pub is_known : List String → Value → Bool
is_known known (str ref) = contains known ref
is_known known v = false
