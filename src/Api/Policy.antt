-- ===== src/Api/Policy.antt =====
-- policy.py: the rule that the policy engine is asked to match for an action, and the two checks. The
-- engine itself, of oslo.policy, is a parameter.
pub mod Passed
use package.text.Mathlib.Text.{find?}
use apmec.Prelude.{
  String, Bool, true, false, Option, none, some, List, [], ◌∷◌, ◌++◌, ◌<>◌, not, ◌&&◌, ◌||◌, ◌==◌,
  any, is_none, if◌then◌else◌,
}
use apmec.Db.{Context}
use apmec.Dict.{Dict, lookup, contains}
use apmec.Errors.{Result, ok, err, key_error, policy_not_authorized}
use apmec.Text.{split_once}
use apmec.Value.{Value, text, object, array, elements, keys, value_eq, is_in}
use apmec.Attributes.Specs.{
  Rule, Specs, no_specs, key_spec, type_dict, type_dict_or_none, type_dict_or_empty,
  type_dict_or_nodata,
}
use apmec.Request.{Slot, given, not_specified, Attr}

-- An entry of the attribute map, with what the policies and the controllers look at in it.
pub record Info : Type 0 where
  pub attr : Attr
  pub enforce_policy : Bool
  pub required_by_policy : Bool
  pub primary_key : Bool
  pub is_visible : Bool
  pub convert_list_to : Option (List Value → Result (List Value))

-- The dict that a check is about; `to_update` is its entry ATTRIBUTES_TO_UPDATE.
pub record Target : Type 0 where
  pub fields : Dict Slot
  pub to_update : Option (List String)

-- policy.RuleCheck('rule', name) and policy.AndCheck
mutual
  pub data MatchRule : Type 0 where
    rule_check : String → MatchRule
    and_check : MatchRules → MatchRule

  pub data MatchRules : Type 0 where
    no_rules : MatchRules
    and_rule : MatchRule → MatchRules → MatchRules

-- The engine: the names of its rules, and whether a rule matches a target with a context's credentials.
pub record Enforcer : Type 0 where
  pub rules : List String
  pub enforce : MatchRule → Target → Context → Result Bool

abbrev last_part : String × Option String → String
last_part (part, none) = part
last_part (part, some rest) = rest

-- `get_resource_and_action` without a plural: ':' is 58 and '_' is 95
unfoldable pub get_resource_and_action : String → String × Bool
get_resource_and_action action =
    let parts = split_once 95 (split_once 58 action).0 in
    (last_part parts <> "s", not (parts.0 == "get" || parts.0 == "delete"))

abbrev slot_eq : Slot → Slot → Bool
slot_eq (given v) (given w) = value_eq v w
slot_eq not_specified not_specified = true
slot_eq _ _ = false

abbrev is_specified : Slot → Bool
is_specified not_specified = false
is_specified (given v) = true

-- target[attribute_name] is not ATTR_NOT_SPECIFIED
abbrev specified_at : Option Slot → Result Bool
specified_at none = err key_error
specified_at (some v) = ok (is_specified v)

-- of an update
abbrev marked : String → Target → Option (List String) → Result Bool
marked name target none = err key_error
marked name target (some names) =
    if any (λ n. n == name) names then specified_at (lookup name target.fields) else ok false

abbrev differs : Option Slot → Option Slot → Bool
differs (some default) (some v) = is_specified v && not (slot_eq v default)
differs _ _ = false

unfoldable pub is_attribute_explicitly_set : String → Info → Target → String → Result Bool
is_attribute_explicitly_set name info target action = elim (find? action "update") [
  | some _ ↦ marked name target target.to_update
  | none ↦ ok (differs info.attr.default (lookup name target.fields))
]

-- The specifications of a rule whose name starts with 'type:dict'; None is `no_specs` too.
abbrev dict_specs : Rule → Option Specs
dict_specs (type_dict specs) = some specs
dict_specs (type_dict_or_none specs) = some specs
dict_specs (type_dict_or_empty specs) = some specs
dict_specs (type_dict_or_nodata specs) = some specs
dict_specs _ = none

abbrev spec_names : Specs → List String
spec_names no_specs = []
spec_names (key_spec name s specs) = name ∷ spec_names specs

-- The names in the first such rule that has any: an attribute has one such rule at most.
abbrev sub_names : List Rule → List String
sub_names [] = []
sub_names (rule ∷ rules) =
    let rest = sub_names rules in
    elim (dict_specs rule) [ some (key_spec name s specs) ↦ name ∷ spec_names specs | _ ↦ rest ]

-- `name in v`, or none where `v` is not iterable
abbrev pub held : Slot → String → Option Bool
held (given (object f)) name = some (any (λ k. k == name) (keys f))
held (given (array vs)) name = some (is_in (text name) (elements vs))
held (given (text s)) name = some (not (is_none (find? s name)))
held _ name = none

-- [RuleCheck(…) for sub_attr_name in data if sub_attr_name in target[attr_name]]
abbrev sub_rules : String → Slot → List String → MatchRules
sub_rules name v [] = no_rules
sub_rules name v (sub ∷ subs) =
    let rest = sub_rules name v subs in
    elim (held v sub) [ some true ↦ and_rule (rule_check (name <> (":" <> sub))) rest | _ ↦ rest ]

abbrev pub both : MatchRule → MatchRule → MatchRule
both a b = and_check (and_rule a (and_rule b no_rules))

-- The rule of an attribute, `name` being the action with the attribute: with its sub-attributes
-- where its rules name any, and the value is iterable.
abbrev pub attr_rule : String → Option Slot → List String → MatchRule
attr_rule name none subs = rule_check name
attr_rule name (some v) [] = rule_check name
attr_rule name (some v) (sub ∷ subs) = elim (held v sub) [
  | none ↦ rule_check name
  | some _ ↦ both (rule_check name) (and_check (sub_rules name v (sub ∷ subs)))
]

-- The loop over the attributes of a resource.
unfoldable pub add_attr_rules : String → Target → Dict Info → MatchRule → Result MatchRule
add_attr_rules action target [] rule = ok rule
add_attr_rules action target ((name, info) ∷ infos) rule =
    elim (is_attribute_explicitly_set name info target action) [
      | err e ↦ err e
      | ok set ↦ add_attr_rules action target infos (
          if set && info.enforce_policy
          then both rule (
              attr_rule (action <> (":" <> name)) (lookup name target.fields)
                (sub_names info.attr.validate))
          else rule)
    ]

-- `attributes.RESOURCE_ATTRIBUTE_MAP` is `res_map`.
unfoldable pub build_match_rule : Dict (Dict Info) → String → Target → Result MatchRule
build_match_rule res_map action target =
    let (resource, enforce_attr_based_check) = get_resource_and_action action in
    if enforce_attr_based_check
    then (elim (lookup resource res_map) [
      | none ↦ ok (rule_check action)
      | some infos ↦ add_attr_rules action target infos (rule_check action)
    ])
    else ok (rule_check action)

abbrev pub or_refused : Result Bool → Result (Unit {0})
or_refused (ok true) = ok tt
or_refused (ok false) = err policy_not_authorized
or_refused (err e) = err e

module _ (enforcer : Enforcer) (res_map : Dict (Dict Info)) where
  abbrev asked : Context → String → Target → Result Bool
  asked context action target = elim (build_match_rule res_map action target) [
    | err e ↦ err e
    | ok rule ↦ enforcer.enforce rule target context
  ]

  unfoldable pub check : Context → String → Target → Bool → Result Bool
  check context action target might_not_exist =
      if context.is_admin
      then ok true
      else (if might_not_exist && not (any (λ n. n == action) enforcer.rules)
          then ok true
          else asked context action target)

  -- do_raise=True
  unfoldable pub enforce : Context → String → Target → Result (Unit {0})
  enforce context action target =
      if context.is_admin then ok tt else or_refused (asked context action target)
