-- ===== src/Mec/Policies.antt =====
-- mem/plugin.py: the policies of a MEA, as its template declares them.
use apmec.Prelude.{
  String, Bool, true, false, Option, none, some, List, [], ◌∷◌, ◌++◌, ◌==◌, ◌||◌, not,
  if◌then◌else◌,
}
use apmec.Errors.{Result, ok, err, key_error, type_error, attribute_error}
use apmec.Errors.{mea_policy_type_invalid}
use apmec.Exec.{Exec, pure, raise, lift, ◌>>=◌}
use apmec.Dict.{lookup}
use apmec.Value.{
  Value, text, object, array, null, Fields, object_end, entry, Items, array_end, element, get,
  value_eq, is_truthy,
}
use apmec.Db.{Env, Context}
use apmec.Session.{generate_uuid}
use apmec.Mem.MeaRow.{MeaDict}
use apmec.Mem.Mea.Reference.{get_mea}
use apmec.Mec.World.{World, Drivers, Policy, on_db}

-- v[k], v.get(k) and v.get(k, default)
abbrev pub or_key_error : Option Value → Result Value
or_key_error none = err key_error
or_key_error (some v) = ok v

abbrev pub index : String → Value → Result Value
index k (object f) = or_key_error (get k f)
index k v = err type_error

abbrev pub or_value : Option Value → Value → Value
or_value none default = default
or_value (some v) default = v

abbrev pub get_or : String → Value → Value → Result Value
get_or k default (object f) = ok (or_value (get k f) default)
get_or k default v = err attribute_error

-- What a loop over a value runs over, where each thing is then asked for its `items`: a text and a
-- dict that are not empty give texts, which have none.
abbrev pub iterated : Value → Result Items
iterated (array vs) = ok vs
iterated (text s) = if s == "" then ok array_end else err attribute_error
iterated (object object_end) = ok array_end
iterated (object (entry _ _ _)) = err attribute_error
iterated v = err type_error

-- The `filters` of `get_mea_policies`, which looks at two of them.
pub record Filters : Type 0 where
  pub name : Option String
  pub type : Option String

abbrev pub given_text : Option String → Bool
given_text none = false
given_text (some s) = not (s == "")

abbrev pub is_text : Option String → Value → Bool
is_text none v = value_eq v null
is_text (some s) v = value_eq v (text s)

abbrev pub is_name : Option String → String → Bool
is_name none name = false
is_name (some s) name = name == s

-- policy.get('properties') or policy.get('triggers')
abbrev properties_of : Value → Value → Value
properties_of properties triggers = if is_truthy properties then properties else triggers

-- Whether a policy passes the filters, where one of them is given.
unfoldable pub fits : Filters → String → Value → Result Bool
fits filters name policy =
    if is_name filters.name name
    then ok true
    else (elim (index "type" policy) [ ok v ↦ ok (is_text filters.type v) | err e ↦ err e ])

abbrev pub first_policy : List Policy → Option Policy
first_policy [] = none
first_policy (p ∷ _) = some p

abbrev pub or_type_invalid : List Policy → Exec World Policy
or_type_invalid [] = raise (mea_policy_type_invalid "tosca.policies.apmec.Alarming")
or_type_invalid (p ∷ _) = pure p

module _ (env : Env) where
  -- `_make_policy_dict`
  unfoldable pub make_policy_dict : MeaDict → String → Value → Exec World Policy
  make_policy_dict mea name policy = do
    type ← lift (get_or "type" null policy)
    properties ← lift (get_or "properties" null policy)
    triggers ← lift (get_or "triggers" null policy)
    id ← on_db (generate_uuid env)
    pure (record {
      type = type;
      properties = properties_of properties triggers;
      mea = mea;
      name = name;
      id = id;
    })

  -- The inner loop, over the names and policies of one entry: it ends at the first that fits.
  unfoldable pub policies_of_entry : MeaDict → Filters → Fields → Exec World (List Policy)
  policies_of_entry mea filters object_end = pure []
  policies_of_entry mea filters (entry name policy more) =
      let rest = policies_of_entry mea filters more in
      if given_text filters.name || given_text filters.type
      then (do
        fit ← lift (fits filters name policy)
        if fit then (do p ← make_policy_dict mea name policy; pure (p ∷ [])) else rest)
      else (do p ← make_policy_dict mea name policy; ps ← rest; pure (p ∷ ps))

  -- The outer loop, over the entries of the list `policies`.
  unfoldable pub policies_of : MeaDict → Filters → Items → Exec World (List Policy)
  policies_of mea filters array_end = pure []
  policies_of mea filters (element (object f) more) = do
    ps ← policies_of_entry mea filters f
    qs ← policies_of mea filters more
    pure (ps ++ qs)
  policies_of mea filters (element v more) = raise attribute_error

  abbrev pub policies_from : MeaDict → Filters → Value → Exec World (List Policy)
  policies_from mea filters v = do items ← lift (iterated v); policies_of mea filters items

  module _ (drv : Drivers) where
    unfoldable pub read_template : MeaDict → Exec World Value
    read_template mea = do
      template ←
          lift (elim (lookup "mead" mea.mead.attributes) [ none ↦ err key_error | some s ↦ ok s ])
      lift (drv.safe_load template)

    -- `get_mea_policies`
    unfoldable pub get_mea_policies : Context → String → Filters → Exec World (List Policy)
    unfolding read_template
    get_mea_policies context mea_id filters = do
      mea ← on_db (get_mea env context mea_id)
      mead_tmpl ← read_template mea
      topology ← lift (index "topology_template" mead_tmpl)
      policies ← lift (get_or "policies" (array array_end) topology)
      policies_from mea filters policies

    -- `get_mea_policy`
    unfoldable pub get_mea_policy : Context → String → String → Exec World (Option Policy)
    get_mea_policy context policy_id mea_id = do
      policies ← get_mea_policies context mea_id (record { name = some policy_id; type = none })
      pure (first_policy policies)

    -- `get_mea_policy_by_type`
    unfoldable pub get_mea_policy_by_type : Context → String → String → Exec World Policy
    get_mea_policy_by_type context mea_id policy_type = do
      policies ← get_mea_policies context mea_id (record { name = none; type = some policy_type })
      or_type_invalid policies
