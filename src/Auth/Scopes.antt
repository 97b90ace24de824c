-- ===== src/Auth/Scopes.antt =====
-- `mergeScopes`, `stableScopeHash` and `cacheKey` of src/auth/auth-token-minter.service.ts. The
-- names of the scopes are plain words, so the order of an object's fields is that of their
-- insertion.
pub mod Laws
use Prim.Native.Char.{Char, code}
use examples_service.Common.{ℕ, ◌+◌, ◌/◌, ◌%◌, String, ◌<>◌, Bool, true, false, Option, none, some}
use examples_service.Common.{◌==◌, nat_eq, string_eq, ltb, if◌then◌else◌, ◌≡◌, refl}
use examples_service.Common.Text.{show_ℕ, code_units}
use examples_service.Common.Order.{text_leb, lex_leb}
use examples_service.Js.{Value, undefined, null, bool, num, str, arr, obj, Items, nil, cons}
use examples_service.Js.{Fields, end, field, put, to_text}

-- `delete merged[key]`
unfoldable pub drop_key : String → Fields → Fields
drop_key k end = end
drop_key k (field j v fs) = let rest = drop_key k fs in if j == k then rest else field j v rest

-- One field of the override.
abbrev pub merge_scope : String → Value → Fields → Fields
merge_scope k null merged = drop_key k merged
merge_scope k v merged = put k v merged

unfoldable pub merge_fields : Fields → Fields → Fields
merge_fields merged end = merged
merge_fields merged (field k v over) = merge_fields (merge_scope k v merged) over

abbrev pub merge_scopes : Fields → Option Fields → Fields
merge_scopes base none = base
merge_scopes base (some over) = merge_fields base over

insert_item : Value → Items → Items
unfolding lex_leb code_units
insert_item v nil = cons v nil
insert_item v (cons w xs) =
    let rest = insert_item v xs in
    if text_leb (to_text v) (to_text w) then cons v (cons w xs) else cons w rest

sort_items : Items → Items
unfolding insert_item
sort_items nil = nil
sort_items (cons x xs) = insert_item x (sort_items xs)

abbrev ordered_value : Value → Value
ordered_value (arr xs) = arr (sort_items xs)
ordered_value v = v

insert_field : String → Value → Fields → Fields
unfolding lex_leb code_units
insert_field k v end = field k v end
insert_field k v (field j w fs) =
    let rest = insert_field k v fs in
    if text_leb k j then field k v (field j w fs) else field j w rest

ordered : Fields → Fields
unfolding insert_field sort_items
ordered end = end
ordered (field k v fs) = insert_field k (ordered_value v) (ordered fs)

hex : ℕ → String
hex n =
    if ltb n 10
    then show_ℕ n
    else if n == 10
    then "a"
    else if n == 11
    then "b"
    else if n == 12
    then "c"
    else if n == 13
    then "d"
    else if n == 14
    then "e"
    else "f"

-- How `JSON.stringify` writes a character of a text, by its code.
escaped : Char → String
unfolding hex
escaped c =
    let n = code c in
    if n == 34
    then "\\\""
    else if n == 92
    then "\\\\"
    else if n == 8
    then "\\b"
    else if n == 9
    then "\\t"
    else if n == 10
    then "\\n"
    else if n == 12
    then "\\f"
    else if n == 13
    then "\\r"
    else if ltb n 32
    then "\\u00" <> hex (n / 16) <> hex (n % 16)
    else String.◌∷◌ c ""

escape : String → String
unfolding escaped
escape String.[] = ""
escape (String.◌∷◌ c s) = escaped c <> escape s

quoted : String → String
unfolding escape
quoted s = "\"" <> escape s <> "\""

-- A comma before every member but the first.
abbrev joined : String → String → String
joined t String.[] = t
joined t (String.◌∷◌ c rest) = t <> "," <> String.◌∷◌ c rest

-- A field whose value is `undefined` is left out.
abbrev member_text : String → Value → String → String → String
member_text k undefined t rest = rest
member_text k v t rest = joined (quoted k <> ":" <> t) rest

unfoldable mutual
  unfolding quoted

  pub stringify : Value → String
  stringify undefined = "null"
  stringify null = "null"
  stringify (bool true) = "true"
  stringify (bool false) = "false"
  stringify (num n) = n
  stringify (str s) = quoted s
  stringify (arr xs) = "[" <> stringify_items xs <> "]"
  stringify (obj fs) = "{" <> stringify_fields fs <> "}"

  pub stringify_items : Items → String
  stringify_items nil = ""
  stringify_items (cons x xs) = joined (stringify x) (stringify_items xs)

  pub stringify_fields : Fields → String
  stringify_fields end = ""
  stringify_fields (field k v fs) = member_text k v (stringify v) (stringify_fields fs)

unfoldable pub stable_scope_hash : Option Fields → String
unfolding ordered
stable_scope_hash none = ""
stable_scope_hash (some scopes) = stringify (obj (ordered scopes))

unfoldable pub cache_key : String → Option Fields → String
cache_key sender scopes = sender <> "::" <> stable_scope_hash scopes

two_orders :
    cache_key "risk"
      (some (field "b" (arr (cons (str "y") (cons (str "x") nil))) (field "a" (bool true) end)))
    ≡ "risk::{\"a\":true,\"b\":[\"x\",\"y\"]}"
unfolding cache_key stable_scope_hash stringify ordered sort_items insert_item insert_field lex_leb
    code_units quoted escape escaped to_text
two_orders = refl
