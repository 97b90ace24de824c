-- ===== src/Compiler/Substitute/Lookup.antt =====
-- `resolvePath`: a dotted path into an object.
use examples_service.Common.{ℕ, suc, String, List, [], ◌∷◌, ◌==◌, string_eq, if◌then◌else◌}
use examples_service.Common.Text.{split, show_ℕ}
use examples_service.Js.{Value, undefined, num, arr, obj, Items, nil, cons, Fields, get}

-- The element of an array at a key: its index in decimal, or `length`.
item_at : ℕ → String → Items → Value
item_at n key nil = if key == "length" then num (show_ℕ n) else undefined
item_at n key (cons x xs) = if key == show_ℕ n then x else item_at (suc n) key xs

-- One round of the loop: the own property of an object; nothing else is looked into.
unfoldable pub member : Value → String → Value
unfolding item_at
member (obj fs) part = get part fs
member (arr xs) part = item_at 0 part xs
member v part = undefined

unfoldable pub walk : Value → List String → Value
unfolding member
walk current [] = current
walk current (part ∷ parts) = walk (member current part) parts

unfoldable pub resolve_path : Fields → String → Value
unfolding walk
resolve_path variables path = walk (obj variables) (split "." path)
