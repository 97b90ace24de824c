-- ===== src/Config/Laws.antt =====
-- The scopes that the settings give a sender.
use examples_service.Common.{
  String, ◌≡◌, refl, ap, ◌∙◌, sym, Bool, true, false, ◌&&◌, Option, none, some, [], Bool-cases, inl,
  inr, arith, if◌then◌else◌, if_true, if_false, ◌==◌, string_eq,
}
use text.Mathlib.TextEquality.{eq_iff}
use examples_service.Common.Text.{truthy}
use examples_service.Common.Words.{trim}
use examples_service.Common.Dict.{Dict, lookup, insert, lookup-insert}
use examples_service.Js.{
  Value, undefined, null, bool, num, str, arr, obj, Fields, end, field, get, has, IsDistinct,
}
use examples_service.Errors.{AppException, Result, ok, err}
use examples_service.Config.{scopes_of, scopes_of_parsed}

abbrev pub object_of : Value → Option Fields
object_of (obj fs) = some fs
object_of v = none

-- What the loop has for a sender: the object that the entries have under it, or what was there.
abbrev pub scopes_for : String → Fields → Option Fields → Option Fields
scopes_for sender entries before =
    if truthy (trim sender) && has sender entries then object_of (get sender entries) else before

abbrev dict_of : Result (Dict Fields) → Dict Fields
dict_of (ok d) = d
dict_of (err e) = []

skip :
    (b : Bool) (e : AppException) (rest : Result (Dict Fields)) (d : Dict Fields)
    → (if b then err e else rest) ≡ ok d
    → (b ≡ false) × (rest ≡ ok d)
skip true e rest d h = absurd (ground arith)
skip false e rest d h = (refl, h)

-- An entry of a blank sender changes nothing for the others.
blank :
    (k sender : String) (v : Value) (entries : Fields) (before : Option Fields)
    → truthy (trim sender) ≡ false
    → scopes_for k (field sender v entries) before ≡ scopes_for k entries before
unfolding get has
blank k sender v entries before h = elim (Bool-cases (sender == k)) [
  | inl e ↦ rw e (ground (arith, ap (λ s. truthy (trim s)) (sym ((eq_iff sender k).0 e)) ∙ h))
  | inr e ↦ rw e refl
]

added :
    (k sender : String) (scopes entries : Fields) (result : Dict Fields)
    → has sender entries ≡ false
    → truthy (trim sender) ≡ true
    → scopes_for k entries (lookup k (insert sender scopes result))
      ≡ scopes_for k (field sender (obj scopes) entries) (lookup k result)
unfolding get has
added k sender scopes entries result new h = elim (Bool-cases (sender == k)) [
  | inl e ↦
      let same = (eq_iff sender k).0 e in
      rw e (
        ground (
          arith,
          ap (λ s. truthy (trim s)) (sym same) ∙ h,
          ap (λ s. has s entries) (sym same) ∙ new,
          lookup-insert sender k scopes result ∙ if_true _ e,
        ))
  | inr e ↦ rw e (ap (scopes_for k entries) (lookup-insert sender k scopes result ∙ if_false _ e))
]

scopes_of-lookup :
    (name k : String) (entries : Fields) (result d : Dict Fields)
    → IsDistinct entries
    → scopes_of name entries result ≡ ok d
    → lookup k d ≡ scopes_for k entries (lookup k result)
unfolding scopes_of has
scopes_of-lookup name k end result d u h = ground (arith, ap (λ r. lookup k (dict_of r)) (sym h))
scopes_of-lookup name k (field sender (obj scopes) entries) result d (new, u) h =
    elim (Bool-cases (truthy (trim sender))) [
      | inl e ↦
          scopes_of-lookup name k entries (insert sender scopes result) d u (sym (if_true _ e) ∙ h)
          ∙ added k sender scopes entries result new e
      | inr e ↦
          scopes_of-lookup name k entries result d u (sym (if_false _ e) ∙ h)
          ∙ sym (blank k sender (obj scopes) entries (lookup k result) e)
    ]
scopes_of-lookup name k (field sender undefined entries) result d (new, u) h =
    let (gone, rest) = skip (truthy (trim sender)) _ _ d h in
    scopes_of-lookup name k entries result d u rest ∙ sym (blank k sender _ entries _ gone)
scopes_of-lookup name k (field sender null entries) result d (new, u) h =
    let (gone, rest) = skip (truthy (trim sender)) _ _ d h in
    scopes_of-lookup name k entries result d u rest ∙ sym (blank k sender _ entries _ gone)
scopes_of-lookup name k (field sender (bool b) entries) result d (new, u) h =
    let (gone, rest) = skip (truthy (trim sender)) _ _ d h in
    scopes_of-lookup name k entries result d u rest ∙ sym (blank k sender _ entries _ gone)
scopes_of-lookup name k (field sender (num n) entries) result d (new, u) h =
    let (gone, rest) = skip (truthy (trim sender)) _ _ d h in
    scopes_of-lookup name k entries result d u rest ∙ sym (blank k sender _ entries _ gone)
scopes_of-lookup name k (field sender (str s) entries) result d (new, u) h =
    let (gone, rest) = skip (truthy (trim sender)) _ _ d h in
    scopes_of-lookup name k entries result d u rest ∙ sym (blank k sender _ entries _ gone)
scopes_of-lookup name k (field sender (arr xs) entries) result d (new, u) h =
    let (gone, rest) = skip (truthy (trim sender)) _ _ d h in
    scopes_of-lookup name k entries result d u rest ∙ sym (blank k sender _ entries _ gone)

-- Where the variable with the scopes holds an object, and is accepted, a sender that is not blank has
-- the scopes that stand under its name, and any other sender has none.
scopes_of_parsed-lookup :
    (name sender : String) (entries : Fields) (d : Dict Fields)
    → IsDistinct entries
    → scopes_of_parsed name (some (obj entries)) ≡ ok d
    → lookup sender d ≡ (
        if truthy (trim sender) && has sender entries then object_of (get sender entries) else none)
unfolding lookup
scopes_of_parsed-lookup name sender entries d u h = scopes_of-lookup name sender entries [] d u h
