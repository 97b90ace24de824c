-- ===== src/Compiler/Merge.antt =====
-- `extractSchemaDefaults` and `deepMerge` of src/compiler/template-resolver.ts.
pub mod Laws
pub mod Deep
use examples_service.Common.{String, true, false, Option, none, some, if◌then◌else◌}
use examples_service.Js.{Value, undefined, arr, obj, Fields, end, field, get, has, put, is_truthy}

-- `prop && 'default' in prop`, then `prop.default`. The `in` of a primitive that is not falsy throws
-- a `TypeError`, which is `none`; an array has no `default`.
set_default : String → Value → Fields → Option Fields
set_default key (obj prop) defaults =
    some (if has "default" prop then put key (get "default" prop) defaults else defaults)
set_default key (arr items) defaults = some defaults
set_default key v defaults = if is_truthy v then none else some defaults

-- The loop over the entries of `properties`.
defaults_of : Fields → Fields → Option Fields
defaults_of defaults end = some defaults
defaults_of defaults (field key prop properties) = elim (set_default key prop defaults) [
  | none ↦ none
  | some more ↦ defaults_of more properties
]

-- `properties` is an object where it is there at all.
properties_of : Value → Fields
properties_of (obj properties) = properties
properties_of v = end

unfoldable pub extract_schema_defaults : Fields → Option Fields
unfolding defaults_of set_default properties_of is_truthy
extract_schema_defaults schema = defaults_of end (properties_of (get "properties" schema))

-- `if (overVal === undefined) continue`, else `result[key] = merged`
abbrev pub put_defined : String → Value → Value → Fields → Fields
put_defined k undefined merged result = result
put_defined k v merged result = put k merged result

unfoldable mutual
  -- What `deepMerge` makes of the two values of one key.
  pub merge_value : Value → Value → Value
  merge_value (obj b) (obj o) = obj (merge_loop b b o)
  merge_value b v = v

  -- The loop over the keys of `override`; `base` is not changed, `result` begins as its copy.
  pub merge_loop : Fields → Fields → Fields → Fields
  merge_loop base result end = result
  merge_loop base result (field k v over) =
      merge_loop base (put_defined k v (merge_value (get k base) v) result) over

unfoldable pub deep_merge : Fields → Fields → Fields
deep_merge base over = merge_loop base base over
