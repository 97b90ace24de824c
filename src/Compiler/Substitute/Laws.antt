-- ===== src/Compiler/Substitute/Laws.antt =====
-- Substitution changes nothing but placeholders, and fails only where one is undefined.
use examples_service.Common.{◌≡◌, refl, Bool, true, false, ◌&&◌, String, none, arith}
use examples_service.Common.{if◌then◌else◌}
use examples_service.Js.{
  Value, undefined, null, bool, num, str, arr, obj, Items, nil, cons, Fields, end, field,
}
use examples_service.Errors.{ok}
use examples_service.Compiler.Substitute.{
  has_placeholder, substitute, substitute_items, substitute_fields, substitute_text,
}
use examples_service.Compiler.Substitute.Placeholder.{placeholder_at}

-- No text of the value holds a placeholder.
unfoldable mutual
  pub is_plain : Value → Bool
  is_plain undefined = true
  is_plain null = true
  is_plain (bool b) = true
  is_plain (num n) = true
  is_plain (str s) = if has_placeholder s then false else true
  is_plain (arr xs) = is_plain_items xs
  is_plain (obj fs) = is_plain_fields fs

  pub is_plain_items : Items → Bool
  is_plain_items nil = true
  is_plain_items (cons x xs) = is_plain x && is_plain_items xs

  pub is_plain_fields : Fields → Bool
  is_plain_fields end = true
  is_plain_fields (field k v fs) = is_plain v && is_plain_fields fs

pub placeholder_at_nil : placeholder_at "" ≡ none
unfolding placeholder_at
placeholder_at_nil = refl

-- A text without a placeholder does not begin with one.
placeholder_at_of_plain : (s : String) → has_placeholder s ≡ false → placeholder_at s ≡ none
unfolding has_placeholder
placeholder_at_of_plain String.[] h = placeholder_at_nil
placeholder_at_of_plain (String.◌∷◌ c s) h = ground arith

module _ (variables : Fields) where
  substitute_text_of_plain :
      (s : String) → has_placeholder s ≡ false → substitute_text variables s ≡ ok (str s)
  unfolding substitute_text
  substitute_text_of_plain s h = rw (placeholder_at_of_plain s h, h)

  mutual
    unfolding substitute is_plain

    substitute_of_plain : (t : Value) → is_plain t ≡ true → substitute variables t ≡ ok t
    substitute_of_plain undefined h = refl
    substitute_of_plain null h = refl
    substitute_of_plain (bool b) h = refl
    substitute_of_plain (num n) h = refl
    substitute_of_plain (str s) h = ground (arith, substitute_text_of_plain s)
    substitute_of_plain (arr xs) h = rw (substitute_items_of_plain xs h)
    substitute_of_plain (obj fs) h = rw (substitute_fields_of_plain fs h)

    substitute_items_of_plain :
        (xs : Items) → is_plain_items xs ≡ true → substitute_items variables xs ≡ ok xs
    substitute_items_of_plain nil h = refl
    substitute_items_of_plain (cons x xs) h =
        rw (substitute_of_plain x (ground arith), substitute_items_of_plain xs (ground arith))

    substitute_fields_of_plain :
        (fs : Fields) → is_plain_fields fs ≡ true → substitute_fields variables fs ≡ ok fs
    substitute_fields_of_plain end h = refl
    substitute_fields_of_plain (field k v fs) h =
        rw (substitute_of_plain v (ground arith), substitute_fields_of_plain fs (ground arith))

-- A template without placeholders is launched as it stands, whatever the inputs.
pub substitute_plain :
    (variables : Fields) (t : Value) → is_plain t ≡ true → substitute variables t ≡ ok t
substitute_plain variables t h = substitute_of_plain variables t h
