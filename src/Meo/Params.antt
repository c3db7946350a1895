-- ===== src/Meo/Params.antt =====
-- meo/meo_plugin.py: the inputs of a network service, put into the nodes of its descriptor.
pub mod Filled
use apmec.Prelude.{
  String, Bool, true, false, Option, none, some, not, ◌||◌, ◌&&◌, ◌==◌, if◌then◌else◌,
}
use package.text.Mathlib.Text.{find?}
use apmec.Errors.{
  Error, Result, ok, err, type_error, attribute_error, key_error, input_values_missing,
  param_yaml_input_missing,
}
use apmec.Value.{
  Value, text, object, array, integer, boolean, null, Fields, object_end, entry, Items, array_end,
  element, get, is_truthy,
}
use apmec.Mec.Policies.{index}

-- 'get_input' in s
abbrev pub names_input : String → Bool
names_input s = elim (find? s "get_input") [ none ↦ false | some _ ↦ true ]

-- 'get_input' in str(v): str shows the texts and keys in it one by one, each in quotes
unfoldable mutual
  pub mentions : Value → Bool
  mentions (text s) = names_input s
  mentions (object f) = mentions_in f
  mentions (array vs) = mentions_among vs
  mentions _ = false

  pub mentions_in : Fields → Bool
  mentions_in object_end = false
  mentions_in (entry key v f) = names_input key || (mentions v || mentions_in f)

  mentions_among : Items → Bool
  mentions_among array_end = false
  mentions_among (element v vs) = mentions v || mentions_among vs

abbrev pub or_missing : String → Option Value → Result Value
or_missing key none = err (input_values_missing key)
or_missing key (some v) = ok v

-- paramvalues[value['get_input']], if it is there: a list or a dict cannot be a key, and numbers are
-- none of JSON
abbrev pub input_value : Fields → String → Value → Result Value
input_value params key (text input) = or_missing key (get input params)
input_value params key (object _) = err type_error
input_value params key (array _) = err type_error
input_value params key _ = err (input_values_missing key)

abbrev pub as_object : Result Fields → Result Value
as_object (ok f) = ok (object f)
as_object (err e) = err e

abbrev pub and_entry : String → Result Value → Result Fields → Result Fields
and_entry key (ok v) (ok f) = ok (entry key v f)
and_entry key (ok v) (err e) = err e
and_entry key (err e) rest = err e

-- The dict that `original` is after `_update_params`; it goes into dicts, not into lists.
unfoldable mutual
  pub update_params : Fields → Fields → Result Fields
  update_params params object_end = ok object_end
  update_params params (entry key value rest) =
      and_entry key (update_value params key value) (update_params params rest)

  pub update_value : Fields → String → Value → Result Value
  update_value params key (object f) =
      if not (mentions_in f) then ok (object f) else elim (get "get_input" f) [
        | some input ↦ input_value params key input
        | none ↦ as_object (update_params params f)
      ]
  update_value params key value = ok value

abbrev nsd_values : Value → Result Fields
nsd_values (object f) = ok f
nsd_values v = err type_error

-- param_vattrs_dict['nsd'], which is taken for a dict
abbrev pub nsd_params : Value → Result Fields
nsd_params param_values = elim (index "nsd" param_values) [ ok v ↦ nsd_values v | err e ↦ err e ]

abbrev pub updated_node : Result Fields → Value → Result Value
updated_node (err e) node = err e
updated_node (ok params) (object f) = as_object (update_params params f)
updated_node (ok params) node = err attribute_error

-- The loop over the nodes of the template.
unfoldable pub update_nodes : Value → Fields → Result Fields
update_nodes param_values object_end = ok object_end
update_nodes param_values (entry name node rest) =
    let others = update_nodes param_values rest in
    and_entry name (if mentions node then updated_node (nsd_params param_values) node else ok node)
      others

-- `_process_parameterized_input`, with the attributes' `param_values` and the nodes of the template
unfoldable pub process_parameterized_input : Option Value → Fields → Result Fields
unfolding update_nodes
process_parameterized_input none node_templates = err param_yaml_input_missing
process_parameterized_input (some param_values) node_templates =
    if is_truthy param_values
    then update_nodes param_values node_templates
    else err param_yaml_input_missing
