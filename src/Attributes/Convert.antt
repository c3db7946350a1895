-- ===== src/Attributes/Convert.antt =====
-- api/v1/attributes.py: the converters, which raise InvalidInput for what they cannot convert.
use apmec.Prelude.{
  String, Bool, true, false, Option, none, some, List, [], ◌∷◌, ◌==◌, map, if◌then◌else◌,
}
use apmec.Text.{strip, lower_is, int_of_text, split_equals}
use apmec.Value.{
  ℤ, pos, Value, null, boolean, integer, text, array, object, Items, array_end, object_end, number,
  int_eq, items_of, keys,
}
use apmec.Dict.{Dict, lookup, insert}
use apmec.Errors.{Result, ok, err, invalid_input}
use apmec.Attributes.Message.{not_convertible_to_boolean, not_integer, not_key_value}

-- int(data), which raises ValueError or TypeError where this is none
abbrev pub int_of : Value → Option ℤ
int_of (boolean b) = some (number b)
int_of (integer n) = some n
int_of (text s) = int_of_text s
int_of _ = none

abbrev boolean_of_text : String → Option Bool
boolean_of_text s =
    if lower_is "true" s
    then some true
    else if lower_is "1" s
    then some true
    else if lower_is "false" s
    then some false
    else if lower_is "0" s
    then some false
    else none

abbrev pub boolean_of : Value → Option Bool
boolean_of (text s) = boolean_of_text s
boolean_of (boolean b) = some b
boolean_of (integer n) =
    if int_eq n (pos 0) then some false else if int_eq n (pos 1) then some true else none
boolean_of _ = none

abbrev pub boolean_or_raise : Value → Option Bool → Result Value
boolean_or_raise datum (some b) = ok (boolean b)
boolean_or_raise datum none = err (invalid_input (not_convertible_to_boolean datum))

unfoldable pub convert_to_boolean : Value → Result Value
convert_to_boolean datum = boolean_or_raise datum (boolean_of datum)

unfoldable pub convert_to_int : Value → Result Value
convert_to_int datum = elim (int_of datum) [
  | some n ↦ ok (integer n)
  | none ↦ err (invalid_input (not_integer datum))
]

unfoldable convert_none_to_empty_list : Value → Value
convert_none_to_empty_list null = array array_end
convert_none_to_empty_list value = value

unfoldable convert_none_to_empty_dict : Value → Value
convert_none_to_empty_dict null = object object_end
convert_none_to_empty_dict value = value

-- An iteration over a dict gives its keys; a text is not taken apart.
unfoldable convert_to_list : Value → Value
convert_to_list null = array array_end
convert_to_list (array datum) = array datum
convert_to_list (object datum) = array (items_of (map text (keys datum)))
convert_to_list datum = array (Items.element datum array_end)

-- What stands before the first '=' and after it, stripped.
abbrev pub pair_or_raise : String → String × Option String → Result (String × String)
pair_or_raise datum (key, none) = err (invalid_input (not_key_value datum))
pair_or_raise datum (key, some value) =
    if strip key == ""
    then err (invalid_input (not_key_value datum))
    else ok (strip key, strip value)

unfoldable pub convert_kvp_str_to_list : String → Result (String × String)
convert_kvp_str_to_list datum = pair_or_raise datum (split_equals datum)

-- s.add(v), for a set as the list of its members
abbrev pub set_add : String → List String → List String
set_add v [] = v ∷ []
set_add v (w ∷ s) = let rest = set_add v s in if w == v then w ∷ s else w ∷ rest

abbrev pub members : Option (List String) → List String
members none = []
members (some s) = s

abbrev pub add_value : Dict (List String) → String → String → Dict (List String)
add_value kvp_map key value = insert key (set_add value (members (lookup key kvp_map))) kvp_map

unfoldable pub kvp_map_from : Dict (List String) → List String → Result (Dict (List String))
kvp_map_from kvp_map [] = ok kvp_map
kvp_map_from kvp_map (kvp_str ∷ rest) = elim (convert_kvp_str_to_list kvp_str) [
  | err e ↦ err e
  | ok pair ↦ kvp_map_from (add_value kvp_map pair.0 pair.1) rest
]

abbrev is_flag : List String → Bool
is_flag (s ∷ []) = s == "True"
is_flag _ = false

-- Each set of values as a list; Python leaves its order open, here it is that of the first `add`.
unfoldable pub convert_kvp_list_to_dict : List String → Result (Dict (List String))
unfolding kvp_map_from
convert_kvp_list_to_dict kvp_list = if is_flag kvp_list then ok [] else kvp_map_from [] kvp_list
