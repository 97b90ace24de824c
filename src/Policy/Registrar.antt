-- ===== src/Policy/Registrar.antt =====
-- src/policy/policy-registrar.service.ts: the registration of the policies with the runtime when the
-- service starts. The runtime is a parameter, through its reply to a descriptor; a descriptor holds
-- the rules themselves where the code prints them by `JSON.stringify`.
pub mod Laws
use examples_service.Common.{
  ℕ, suc, String, Bool, true, false, Option, none, some, List, [], ◌∷◌, ◌++◌, if◌then◌else◌,
}
use examples_service.Common.Dict.{Dict}
use examples_service.Common.Text.{truthy, codes, includes_ignoring_case}
use examples_service.Errors.{Result, ok, err}
use examples_service.Policy.Number.{Number}
use examples_service.Policy.Definition.{Rules, PolicyDefinition}
use examples_service.Policy.Loader.{list_registrable}

pub record Settings : Type 0 where
  pub register_policies_on_launch : Bool
  pub runtime_address : String

pub record Descriptor (F : Number) : Type 0 where
  pub policy_id : String
  pub mode : String
  pub description : String
  pub rules : Option (Rules F)
  pub schema_version : Option F.Carrier

-- The result of `registerPolicy`: ok, or an error with or without a text, or an exception.
pub data Reply : Type 0 where
  accepted : Reply
  refused : Option String → Reply
  failing : Reply

pub record Report (F : Number) : Type 0 where
  pub registered : ℕ
  pub already : ℕ
  pub failed : ℕ
  pub sent : List (Descriptor F)

pub data Outcome (F : Number) : Type 0 where
  disabled no_address no_policies no_token : Outcome F
  complete : Report F → Outcome F

abbrev pub text_or_empty : Option String → String
text_or_empty none = ""
text_or_empty (some s) = s

abbrev pub is_already_registered_error : Option String → Bool
is_already_registered_error none = false
is_already_registered_error (some e) = includes_ignoring_case (codes "already") (codes e)

module _ {F : Number} where
  abbrev pub to_descriptor : PolicyDefinition F → Descriptor F
  to_descriptor p = record {
    policy_id = p.policy_id;
    mode = p.mode;
    description = text_or_empty p.description;
    rules = p.rules;
    schema_version = p.schema_version;
  }

  abbrev pub tally : Reply → Report F → Report F
  tally accepted r = record r { registered = suc r.registered }
  tally (refused e) r =
      if is_already_registered_error e
      then record r { already = suc r.already }
      else record r { failed = suc r.failed }
  tally failing r = record r { failed = suc r.failed }

  abbrev pub empty_report : Report F
  empty_report = record { registered = 0; already = 0; failed = 0; sent = [] }

  module _ (runtime : Descriptor F → Reply) where
    -- The loop over the policies.
    unfoldable pub register_all : List (PolicyDefinition F) → Report F → Report F
    register_all [] r = r
    register_all (p ∷ ps) r =
        let d = to_descriptor p in
        register_all ps (tally (runtime d) (record r { sent = r.sent ++ (d ∷ []) }))

    abbrev pub with_token : Result String → List (PolicyDefinition F) → Outcome F
    with_token (err e) policies = no_token
    with_token (ok token) policies = complete (register_all policies empty_report)

    abbrev pub with_policies : Result String → List (PolicyDefinition F) → Outcome F
    with_policies minted [] = no_policies
    with_policies minted (p ∷ ps) = with_token minted (p ∷ ps)

    -- `minted` is what the token minter returns.
    unfoldable pub on_application_bootstrap :
        Settings → Result String → Dict (PolicyDefinition F) → Outcome F
    on_application_bootstrap settings minted cache =
        if settings.register_policies_on_launch
        then (if truthy settings.runtime_address
            then with_policies minted (list_registrable cache)
            else no_address)
        else disabled
