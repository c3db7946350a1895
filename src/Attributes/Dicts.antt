-- ===== src/Attributes/Dicts.antt =====
-- api/v1/attributes.py: the validators of dicts, which convert the values of a dict in place, and
-- the dispatch to a validator by its name. The value comes back beside the result.
use apmec.Prelude.{String, false, Option, none, some, List, [], ◌∷◌, if◌then◌else◌}
use apmec.Value.{Value, null, object, Fields, object_end, keys, get, put, value_eq, is_truthy}
use apmec.Errors.{Result, ok, err}
use apmec.Exec.{Exec, proceed}
use apmec.Attributes.Message.{Message, no_validator, not_dictionary}
use apmec.Attributes.Scalar
use apmec.Attributes.Network
use apmec.Attributes.Scalar.{Net}
use apmec.Attributes.Specs.{
  Rule, Spec, Specs, spec, no_specs, key_spec, no_rule, type_dict, type_dict_or_none,
  type_dict_or_empty, type_dict_or_nodata, type_fixed_ips, type_hostroutes, type_ip_address,
  type_ip_address_or_none, type_ip_pools, type_mac_address, type_mac_address_or_none,
  type_nameservers, type_non_negative, type_range, type_regex, type_regex_or_none, type_string,
  type_string_or_none, type_not_empty_string, type_not_empty_string_or_none, type_subnet,
  type_subnet_list, type_subnet_or_none, type_uuid, type_uuid_or_none, type_uuid_list, type_boolean,
  type_values, type_unknown,
}

-- What a validator returns or raises, and the value after it.
abbrev Validated : Type 0
Validated = Result (Option Message) × Value

-- A validator that leaves the value as it is.
abbrev plain : (Value → Option Message) → Value → Validated
plain validate datum = (ok (validate datum), datum)

abbrev plain_list : (Value → Result (Option Message)) → Value → Validated
plain_list validate datum = (validate datum, datum)

-- [key for key, spec in key_specs.items() if spec.get('required')]
abbrev pub required_keys : Specs → List String
required_keys no_specs = []
required_keys (key_spec key (spec convert_to required rule) rest) =
    let others = required_keys rest in if required then key ∷ others else others

abbrev pub check_required : List String → Fields → Option Message
check_required [] datum = none
check_required (key ∷ rest) datum = Network.verify_dict_keys (key ∷ rest) (object datum) false

abbrev pub value_or_null : Option Value → Value
value_or_null none = null
value_or_null (some v) = v

-- data[key] = conv_func(data.get(key))
abbrev pub converted : Option (Value → Result Value) → String → Fields → Result Fields
converted none key datum = ok datum
converted (some conv_func) key datum = elim (conv_func (value_or_null (get key datum))) [
  | ok v ↦ ok (put key v datum)
  | err e ↦ err e
]

-- The value under the key, after its validator, is in its place.
abbrev pub back_in : String → Fields → Validated → Result (Option Message) × Fields
back_in key datum (r, v) = (r, put key v datum)

abbrev pub in_object : Result (Option Message) × Fields → Validated
in_object (r, fs) = (r, object fs)

abbrev pub until_message :
    Exec Fields (Option Message) → Option Message → Exec Fields (Option Message)
until_message rest none datum = rest datum
until_message rest (some msg) datum = (ok (some msg), datum)

-- The validation after a conversion that did not raise.
abbrev pub after_conversion :
    Exec Fields (Option Message) → Fields → Result Fields → Result (Option Message) × Fields
after_conversion check datum (err e) = (err e, datum)
after_conversion check datum (ok fs) = check fs

abbrev pub unless_missing : Option Message → Fields → Validated → Validated
unless_missing (some msg) datum validated = (ok (some msg), object datum)
unless_missing none datum validated = validated

-- `_validate_dict`, of the required keys and the loop over the specification
abbrev dict_checks : List String → Exec Fields (Option Message) → Value → Validated
dict_checks required_keys items_checks (object datum) =
    unless_missing (check_required required_keys datum) datum (in_object (items_checks datum))
dict_checks required_keys items_checks datum = (ok (some (not_dictionary datum)), datum)

module _ (net : Net) where
  unfoldable mutual
    -- validators[k](data, val_params)
    pub validate_rule : Rule → Value → Validated
    validate_rule no_rule datum = (ok none, datum)
    validate_rule (type_dict specs) datum =
        dict_checks (required_keys specs) (validate_items specs) datum
    validate_rule (type_dict_or_none specs) datum =
        let validated = dict_checks (required_keys specs) (validate_items specs) datum in
        if value_eq datum null then (ok none, datum) else validated
    validate_rule (type_dict_or_empty specs) datum =
        let validated = dict_checks (required_keys specs) (validate_items specs) datum in
        if value_eq datum (object object_end) then (ok none, datum) else validated
    validate_rule (type_dict_or_nodata specs) datum =
        let validated = dict_checks (required_keys specs) (validate_items specs) datum in
        if is_truthy datum then validated else (ok none, datum)
    validate_rule type_fixed_ips datum = plain (Network.validate_fixed_ips net) datum
    validate_rule type_hostroutes datum = plain (Network.validate_hostroutes net) datum
    validate_rule type_ip_address datum = plain (Network.validate_ip_address net) datum
    validate_rule type_ip_address_or_none datum =
        plain (Network.validate_ip_address_or_none net) datum
    validate_rule type_ip_pools datum = plain (Network.validate_ip_pools net) datum
    validate_rule type_mac_address datum = plain (Network.validate_mac_address net) datum
    validate_rule type_mac_address_or_none datum =
        plain (Network.validate_mac_address_or_none net) datum
    validate_rule type_nameservers datum = plain (Network.validate_nameservers net) datum
    validate_rule type_non_negative datum = plain Scalar.validate_non_negative datum
    validate_rule (type_range min_value max_value) datum =
        plain (Scalar.validate_range min_value max_value) datum
    validate_rule (type_regex pattern) datum = plain (Scalar.validate_regex net pattern) datum
    validate_rule (type_regex_or_none pattern) datum =
        plain (Scalar.validate_regex_or_none net pattern) datum
    validate_rule (type_string max_len) datum = plain (Scalar.validate_string max_len) datum
    validate_rule (type_string_or_none max_len) datum =
        plain (Scalar.validate_string_or_none max_len) datum
    validate_rule (type_not_empty_string max_len) datum =
        plain (Scalar.validate_not_empty_string max_len) datum
    validate_rule (type_not_empty_string_or_none max_len) datum =
        plain (Scalar.validate_not_empty_string_or_none max_len) datum
    validate_rule type_subnet datum = plain (Network.validate_subnet net) datum
    validate_rule type_subnet_list datum = plain_list (Network.validate_subnet_list net) datum
    validate_rule type_subnet_or_none datum = plain (Network.validate_subnet_or_none net) datum
    validate_rule type_uuid datum = plain (Scalar.validate_uuid net) datum
    validate_rule type_uuid_or_none datum = plain (Scalar.validate_uuid_or_none net) datum
    validate_rule type_uuid_list datum = plain_list (Network.validate_uuid_list net) datum
    validate_rule (type_values valid_values) datum =
        plain (Scalar.validate_values valid_values) datum
    validate_rule type_boolean datum = plain Scalar.validate_boolean datum
    validate_rule (type_unknown name) datum = (ok (some (no_validator name)), datum)

    pub validate_dict_item : String → Spec → Exec Fields (Option Message)
    validate_dict_item key (spec convert_to required rule) datum =
        after_conversion (λ fs. back_in key fs (validate_rule rule (value_or_null (get key fs))))
          datum (converted convert_to key datum)

    -- The loop over the keys that the dict has.
    pub validate_items : Specs → Exec Fields (Option Message)
    validate_items no_specs datum = (ok none, datum)
    validate_items (key_spec key s rest) datum =
        let checked =
          proceed (until_message (validate_items rest)) (validate_dict_item key s datum) in
        let skipped = validate_items rest datum in
        if Network.is_key key (keys datum) then checked else skipped

  unfoldable pub validate_dict : Specs → Value → Validated
  unfolding validate_items
  validate_dict specs datum = dict_checks (required_keys specs) (validate_items specs) datum
