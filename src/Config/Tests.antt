-- ===== src/Config/Tests.antt =====
-- The readers of the settings at concrete inputs.
use examples_service.Common.{◌≡◌, refl, true, false, some, [], ◌∷◌}
use examples_service.Common.Text.{split}
use examples_service.Common.Words.{trim_start, trim_end, lower}
use examples_service.Common.Dict.{Dict, insert}
use examples_service.Js.{bool, obj, Fields, end, field}
use examples_service.Errors.{ok}
use examples_service.Config.{scopes_of, scopes_of_parsed, boolean_of, string_list_of}

yes : boolean_of false (some "YES") ≡ true
unfolding lower
yes = refl

no : boolean_of true (some "enabled") ≡ false
unfolding lower
no = refl

keys : string_list_of (some " a, b ") ≡ "a" ∷ "b" ∷ []
unfolding trim_start trim_end split
keys = refl

abbrev scopes : Fields
scopes = field "is_observer" (bool true) end

abbrev entries : Fields
entries = field "fraud" (obj scopes) (field " " (bool true) end)

abbrev overrides : Dict Fields
overrides = ("fraud", scopes) ∷ []

accepted : scopes_of_parsed "MACP_AUTH_SCOPES_JSON" (some (obj entries)) ≡ ok overrides
unfolding scopes_of trim_start trim_end insert
accepted = refl
