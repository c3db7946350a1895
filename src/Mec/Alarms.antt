-- ===== src/Mec/Alarms.antt =====
-- mem/plugin.py and mem/monitor.py, class MEAAlarmMonitor: the alarms of a MEA's alarming policy.
use package.text.Mathlib.Text.{find?}
use apmec.Prelude.{
  String, ◌<>◌, Bool, true, false, Option, none, some, List, [], ◌∷◌, if◌then◌else◌,
}
use apmec.Constants.{Status, in_status, res_mea, evt_monitor}
use apmec.Errors.{Result, ok, err, type_error, attribute_error, index_error}
use apmec.Exec.{Exec, pure, lift, ◌>>=◌, ◌>>◌}
use apmec.Dict.{Dict, lookup, insert, update}
use apmec.Value.{
  Value, text, object, array, null, Fields, object_end, entry, Items, array_end, element, value_eq,
  is_truthy,
}
use apmec.Db.{Env, Context}
use apmec.Session.{utcnow}
use apmec.Events.{create_event}
use apmec.Mem.MeaRow.{MeaDict}
use apmec.Mec.World.{World, Drivers, Policy, on_db, call}
use apmec.Mec.Policies.{iterated, index, get_or, get_mea_policies, first_policy}
use apmec.Mec.Scaling.{policy_scaling}

abbrev pub policy_alarming : String
policy_alarming = "tosca.policies.apmec.Alarming"

-- The strings of a list of strings.
abbrev texts_of : Items → Result (List String)
texts_of array_end = ok []
texts_of (element (text s) more) = elim (texts_of more) [ ok ts ↦ ok (s ∷ ts) | err e ↦ err e ]
texts_of (element v more) = err type_error

abbrev pub texts : Value → Result (List String)
texts (array vs) = texts_of vs
texts v = err type_error

-- '%'.join(actions)
abbrev pub join_actions : List String → String
join_actions [] = ""
join_actions (s ∷ []) = s
join_actions (s ∷ ss) = s <> ("%" <> join_actions ss)

-- 'out' if cp == 'gt' else 'in'
abbrev pub scaling_type : Value → String
scaling_type cp = if value_eq cp (text "gt") then "out" else "in"

abbrev is_scaling : Option Policy → Bool
is_scaling none = false
is_scaling (some p) = value_eq p.type (text policy_scaling)

abbrev triggers_of : Value → Result Fields
triggers_of (object f) = ok f
triggers_of v = err attribute_error

-- `policy['type'] in constants.POLICY_ALARMING`, which looks for a part of the text
abbrev in_alarming : Value → Result Bool
in_alarming (text type) = ok (elim (find? policy_alarming type) [ none ↦ false | some _ ↦ true ])
in_alarming v = err type_error

abbrev pub or_type_error : {A : Type 0} → Option A → Result A
or_type_error none = err type_error
or_type_error (some a) = ok a

abbrev first_of : Value → Result Value
first_of (object (entry name policy _)) = ok policy
first_of (object object_end) = err index_error
first_of v = err attribute_error

abbrev or_empty : Option String → String
or_empty none = ""
or_empty (some s) = s

module _ (env : Env) (drv : Drivers) where
  -- `_log_monitor_events`
  unfoldable pub log_monitor_events : String → Status → String → Exec World (Unit {0})
  log_monitor_events mea_id status evt_details = do
    on_db do
      now ← utcnow env
      create_event env mea_id res_mea (in_status status) evt_monitor now evt_details
    pure tt

  -- One name of a trigger's actions: a scaling policy gets its direction.
  unfoldable pub refactor_action : Context → MeaDict → Value → String → Exec World String
  refactor_action context mea trigger_dict name = do
    found ← get_mea_policies env drv context mea.id (record { name = some name; type = none })
    if is_scaling (first_policy found)
        then (do
          condition ← lift (index "condition" trigger_dict)
          cp ← lift (get_or "comparison_operator" null condition)
          pure (name <> ("-" <> scaling_type cp)))
        else pure name

  unfoldable pub refactor_actions :
      Context → MeaDict → Value → List String → Exec World (List String)
  unfolding refactor_action
  refactor_actions context mea trigger_dict [] = pure []
  refactor_actions context mea trigger_dict (name ∷ more) = do
    action ← refactor_action context mea trigger_dict name
    actions ← refactor_actions context mea trigger_dict more
    pure (action ∷ actions)

  -- The URLs with that of a trigger and the names of its actions: none where it has no action.
  unfoldable pub alarm_url :
      Context
      → MeaDict
      → Dict String
      → String
      → Value
      → List String
      → Exec World (Option (Dict String))
  unfolding refactor_actions log_monitor_events
  alarm_url context mea urls trigger_name trigger_dict [] = do
    log_monitor_events mea.id mea.status "Alarm not set: policy action missing"
    pure none
  alarm_url context mea urls trigger_name trigger_dict (n ∷ ns) = do
    event_type ← lift (index "event_type" trigger_dict)
    driver ← lift (index "implementation" event_type)
    actions ← refactor_actions context mea trigger_dict (n ∷ ns)
    url ← call (λ k. drv.call_alarm_url k driver mea trigger_name (join_actions actions))
    let after : Dict String = insert trigger_name url urls
    log_monitor_events mea.id mea.status ("Alarm URL set successfully: " <> drv.show_urls after)
    pure (some after)

  -- The loop of `update_mea_with_alarm`, which returns None at a trigger that has no action.
  unfoldable pub alarm_urls :
      Context → MeaDict → Dict String → Fields → Exec World (Option (Dict String))
  unfolding alarm_url
  alarm_urls context mea urls object_end = pure (some urls)
  alarm_urls context mea urls (entry trigger_name trigger_dict more) = do
    event_type ← lift (index "event_type" trigger_dict)
    lift (index "implementation" event_type)
    action ← lift (get_or "action" null trigger_dict)
    names ← lift (texts action)
    found ← alarm_url context mea urls trigger_name trigger_dict names
    elim found [ none ↦ pure none | some after ↦ alarm_urls context mea after more ]

  -- `update_mea_with_alarm`
  unfoldable pub update_mea_with_alarm :
      Context → MeaDict → Value → Exec World (Option (Dict String))
  unfolding alarm_urls
  update_mea_with_alarm context mea policy_dict = do
    triggers ← lift (index "triggers" policy_dict)
    fields ← lift (triggers_of triggers)
    alarm_urls context mea [] fields

  unfoldable pub set_alarms : Context → MeaDict → Value → Exec World MeaDict
  unfolding update_mea_with_alarm
  set_alarms context mea policy = do
    found ← update_mea_with_alarm context mea policy
    urls ← lift (or_type_error found)
    pure (record mea { attributes = update (insert "alarming_policy" mea.id mea.attributes) urls })

  -- The loop over the policies of the template, up to the first alarming policy.
  unfoldable pub first_alarming : Context → MeaDict → Items → Exec World MeaDict
  unfolding set_alarms
  first_alarming context mea array_end = pure mea
  first_alarming context mea (element policy_dict more) = do
    policy ← lift (first_of policy_dict)
    type ← lift (index "type" policy)
    alarming ← lift (in_alarming type)
    elim alarming [ true ↦ set_alarms context mea policy | false ↦ first_alarming context mea more ]

  unfoldable pub alarms_of : Context → MeaDict → Value → Exec World MeaDict
  unfolding first_alarming
  alarms_of context mea mead_dict = do
    version ← lift (get_or "tosca_definitions_version" null mead_dict)
    if is_truthy version
        then (do
          topology ← lift (index "topology_template" mead_dict)
          policies ← lift (get_or "policies" (array array_end) topology)
          items ← lift (iterated policies)
          first_alarming context mea items)
        else pure mea

  -- `add_alarm_url_to_mea`
  unfoldable pub add_alarm_url_to_mea : Context → MeaDict → Exec World MeaDict
  unfolding alarms_of
  add_alarm_url_to_mea context mea = do
    mead_dict ← lift (drv.safe_load (or_empty (lookup "mead" mea.mead.attributes)))
    if is_truthy mead_dict then alarms_of context mea mead_dict else pure mea
