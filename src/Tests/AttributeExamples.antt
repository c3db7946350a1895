-- ===== src/Tests/AttributeExamples.antt =====
-- api/v1/attributes.py on small values.
use apmec.Prelude.{String, ◌≡◌, refl, true, none, some, List, [], ◌∷◌, All, any}
use apmec.Errors.{ok}
use apmec.Dict.{lookup, insert}
use apmec.Text.{strip, lstrip, rstrip, split_equals, int_of_text}
use apmec.Value.{
  pos, boolean, text, integer, object, array, Items, element, array_end, Fields, entry, object_end,
  elements, value_eq,
}
use apmec.Attributes.Scalar.{validate_range, validate_no_whitespace, validate_uuid}
use apmec.Attributes.Network.{
  verify_dict_keys, validate_fixed_ips, fixed_ips_from, validate_ip_address,
}
use apmec.Attributes.Specs.{Specs, spec, key_spec, no_specs, type_range}
use apmec.Attributes.Dicts.{validate_dict, validate_items}
use apmec.Attributes.Convert.{
  convert_to_boolean, convert_to_int, convert_kvp_str_to_list, convert_kvp_list_to_dict,
  kvp_map_from, members,
}
use apmec.Attributes.Collected.{has, gives, convert_kvp_list-members}
use apmec.Attributes.FixedIps.{IsFixedIp, Unique, addresses, validate_fixed_ips-Unique}
use apmec.Tests.{test_net}

seven_in_range : validate_range (some (pos 0)) (some (pos 9)) (text " 7") ≡ none
unfolding validate_range int_of_text strip lstrip rstrip
seven_in_range = refl

converts_true : convert_to_boolean (text "TRUE") ≡ ok (boolean true)
unfolding convert_to_boolean
converts_true = refl

-- Whitespace at the ends is no whitespace to `_validate_no_whitespace`.
lets_padding_through : validate_no_whitespace (text " ab ") ≡ ok " ab "
unfolding validate_no_whitespace
lets_padding_through = refl

splits_at_first : convert_kvp_str_to_list "k = v=w" ≡ ok ("k", "v=w")
unfolding convert_kvp_str_to_list split_equals strip lstrip rstrip
splits_at_first = refl

abbrev two_values : List String
two_values = "a=1" ∷ "a=2" ∷ []

collects_both : convert_kvp_list_to_dict two_values ≡ ok (("a", "1" ∷ "2" ∷ []) ∷ [])
unfolding convert_kvp_list_to_dict kvp_map_from convert_kvp_str_to_list split_equals strip lstrip
    rstrip lookup insert
collects_both = refl

convert_kvp_list-members_example :
    has "2" (members (lookup "a" (("a", "1" ∷ "2" ∷ []) ∷ [])))
    ≡ any (λ s. gives "a" "2" (convert_kvp_str_to_list s)) two_values
convert_kvp_list-members_example =
    convert_kvp_list-members two_values (("a", "1" ∷ "2" ∷ []) ∷ []) collects_both "a" "2"

abbrev two_ips : Items
two_ips =
    element
      (object (entry "ip_address" (text "10.0.0.1") (entry "subnet_id" (text "#1") object_end)))
      (element (object (entry "ip_address" (text "10.0.0.2") object_end)) array_end)

accepts_two_ips : validate_fixed_ips test_net (array two_ips) ≡ none
unfolding validate_fixed_ips fixed_ips_from validate_ip_address validate_no_whitespace validate_uuid
    value_eq
accepts_two_ips = refl

validate_fixed_ips-Unique_example :
    All (IsFixedIp test_net) (elements two_ips) × Unique (addresses two_ips)
validate_fixed_ips-Unique_example = validate_fixed_ips-Unique test_net two_ips accepts_two_ips

abbrev count_spec : Specs
count_spec =
    key_spec "count" (spec (some convert_to_int) true (type_range (some (pos 1)) none)) no_specs

abbrev count_body : Fields
count_body = entry "count" (text "3") (entry "name" (text "x") object_end)

-- The text has become a number.
counts :
    validate_dict test_net count_spec (object count_body)
    ≡ (ok none, object (entry "count" (integer (pos 3)) (entry "name" (text "x") object_end)))
unfolding validate_dict validate_items verify_dict_keys convert_to_int validate_range int_of_text
    strip lstrip rstrip
counts = refl
