-- ===== src/Attributes/Specs.antt =====
-- api/v1/attributes.py: the specification of a dict, and the table of the validators by name.
-- A rule is an entry `'type:…': parameters` of a specification; an entry has one rule at most.
use apmec.Prelude.{ℕ, String, Bool, Option, List}
use apmec.Value.{ℤ, Value}
use apmec.Errors.{Result}

mutual
  pub data Rule : Type 0 where
    no_rule : Rule
    type_dict type_dict_or_none type_dict_or_empty type_dict_or_nodata : Specs → Rule
    type_fixed_ips type_hostroutes type_ip_address type_ip_address_or_none type_ip_pools : Rule
    type_mac_address type_mac_address_or_none type_nameservers type_non_negative : Rule
    type_range : Option ℤ → Option ℤ → Rule
    type_regex type_regex_or_none : String → Rule
    type_string type_string_or_none type_not_empty_string type_not_empty_string_or_none :
        Option ℕ → Rule
    type_subnet type_subnet_list type_subnet_or_none type_uuid type_uuid_or_none : Rule
    type_uuid_list type_boolean : Rule
    type_values : List Value → Rule
    -- a name that the table lacks
    type_unknown : String → Rule

  -- The entries `convert_to`, `required` and `type:…` of a key.
  pub data Spec : Type 0 where
    spec : Option (Value → Result Value) → Bool → Rule → Spec

  pub data Specs : Type 0 where
    no_specs : Specs
    key_spec : String → Spec → Specs → Specs
