-- ===== src/Mec/Within/Policies.antt =====
-- mem/plugin.py: the policies and alarms of a MEA within the plugin's moves.
use apmec.Prelude.{String, List, [], ◌∷◌}
use apmec.Constants.{Status}
use apmec.Dict.{Dict}
use apmec.Value.{Value, object, Fields, object_end, entry, Items, array_end, element}
use apmec.Db.{Env, Context}
use apmec.Session.{generate_uuid, utcnow}
use apmec.Session.Moves.{Moves, moves_rules}
use apmec.Mem.MeaRow.{MeaDict}
use apmec.Mec.World.{Drivers, Policy}
use apmec.Mec.Moves.{
  Shifts, Shifts-bind, Shifts-option, Shifts-if, Shifts-bool, Shifts-pure, shifts_rules,
}
use apmec.Mec.Database.{database}
use apmec.Mec.Within.{plugin_moves}
use apmec.Mec.Policies.{
  Filters, make_policy_dict, policies_of_entry, policies_of, policies_from, read_template,
  get_mea_policies, get_mea_policy, or_type_invalid, get_mea_policy_by_type,
}
use apmec.Mec.Alarms.{
  log_monitor_events, refactor_action, refactor_actions, alarm_url, alarm_urls,
  update_mea_with_alarm, set_alarms, first_alarming, alarms_of, add_alarm_url_to_mea,
}

module _ (env : Env) where
  uuid-any : Moves plugin_moves (generate_uuid env)
  uuid-any = search moves_rules

  make_policy_dict-Shifts :
      (mea : MeaDict) (name : String) (policy : Value)
      → Shifts plugin_moves (make_policy_dict env mea name policy)
  unfolding make_policy_dict
  make_policy_dict-Shifts mea name policy = search (shifts_rules, uuid-any) depth 12

  policies_of_entry-Shifts :
      (mea : MeaDict) (filters : Filters) (f : Fields)
      → Shifts plugin_moves (policies_of_entry env mea filters f)
  unfolding policies_of_entry
  policies_of_entry-Shifts mea filters object_end = search shifts_rules
  policies_of_entry-Shifts mea filters (entry name policy more) =
      let rest = policies_of_entry-Shifts mea filters more in
      Shifts-if _ _ _ _
        (Shifts-bind _ _ _ (search shifts_rules)
          λ fit. Shifts-if _ fit _ _ (search (shifts_rules, make_policy_dict-Shifts)) rest)
        (Shifts-bind _ _ _ (make_policy_dict-Shifts mea name policy)
          λ p. Shifts-bind _ _ _ rest λ ps. search shifts_rules)

  policies_of-Shifts :
      (mea : MeaDict) (filters : Filters) (vs : Items)
      → Shifts plugin_moves (policies_of env mea filters vs)
  unfolding policies_of
  policies_of-Shifts mea filters array_end = search shifts_rules
  policies_of-Shifts mea filters (element (object f) more) =
      Shifts-bind _ _ _ (policies_of_entry-Shifts mea filters f)
        λ ps. Shifts-bind _ _ _ (policies_of-Shifts mea filters more) λ qs. search shifts_rules
  policies_of-Shifts mea filters (element _ more) = search shifts_rules

  policies_from-Shifts :
      (mea : MeaDict) (filters : Filters) (v : Value)
      → Shifts plugin_moves (policies_from env mea filters v)
  policies_from-Shifts mea filters v = search (shifts_rules, policies_of-Shifts)

  module _ (drv : Drivers) (context : Context) where
    read_template-Shifts : (mea : MeaDict) → Shifts plugin_moves (read_template env drv mea)
    unfolding read_template
    read_template-Shifts mea = search shifts_rules

    pub get_mea_policies-Shifts :
        (mea_id : String) (filters : Filters)
        → Shifts plugin_moves (get_mea_policies env drv context mea_id filters)
    unfolding get_mea_policies
    get_mea_policies-Shifts mea_id filters =
        search (shifts_rules, database, read_template-Shifts, policies_from-Shifts) depth 12

    pub get_mea_policy-Shifts :
        (policy_id mea_id : String)
        → Shifts plugin_moves (get_mea_policy env drv context policy_id mea_id)
    unfolding get_mea_policy
    get_mea_policy-Shifts policy_id mea_id = search (shifts_rules, get_mea_policies-Shifts)

    or_type_invalid-Shifts : (ps : List Policy) → Shifts plugin_moves (or_type_invalid ps)
    or_type_invalid-Shifts [] = search shifts_rules
    or_type_invalid-Shifts (p ∷ ps) = search shifts_rules

    pub get_mea_policy_by_type-Shifts :
        (mea_id policy_type : String)
        → Shifts plugin_moves (get_mea_policy_by_type env drv context mea_id policy_type)
    unfolding get_mea_policy_by_type
    get_mea_policy_by_type-Shifts mea_id policy_type =
        search (shifts_rules, get_mea_policies-Shifts, or_type_invalid-Shifts)

    utcnow-any : Moves plugin_moves (utcnow env)
    utcnow-any = search moves_rules

    pub log_monitor_events-Shifts :
        (mea_id : String) (status : Status) (details : String)
        → Shifts plugin_moves (log_monitor_events env drv mea_id status details)
    unfolding log_monitor_events
    log_monitor_events-Shifts mea_id status details =
        search (shifts_rules, moves_rules, database) depth 12

    refactor_action-Shifts :
        (mea : MeaDict) (trigger_dict : Value) (name : String)
        → Shifts plugin_moves (refactor_action env drv context mea trigger_dict name)
    unfolding refactor_action
    refactor_action-Shifts mea trigger_dict name =
        search (shifts_rules, get_mea_policies-Shifts) depth 12

    refactor_actions-Shifts :
        (mea : MeaDict) (trigger_dict : Value) (names : List String)
        → Shifts plugin_moves (refactor_actions env drv context mea trigger_dict names)
    unfolding refactor_actions
    refactor_actions-Shifts mea trigger_dict [] = search shifts_rules
    refactor_actions-Shifts mea trigger_dict (name ∷ more) =
        Shifts-bind _ _ _ (refactor_action-Shifts mea trigger_dict name) λ a.
          Shifts-bind _ _ _ (refactor_actions-Shifts mea trigger_dict more) λ b. search shifts_rules

    alarm_url-Shifts :
        (mea : MeaDict) (urls : Dict String) (trigger_name : String) (trigger_dict : Value)
        (names : List String)
        → Shifts plugin_moves (alarm_url env drv context mea urls trigger_name trigger_dict names)
    unfolding alarm_url
    alarm_url-Shifts mea urls trigger_name trigger_dict [] =
        search (shifts_rules, log_monitor_events-Shifts) depth 12
    alarm_url-Shifts mea urls trigger_name trigger_dict (n ∷ ns) =
        search (shifts_rules, log_monitor_events-Shifts, refactor_actions-Shifts) depth 16

    alarm_urls-Shifts :
        (mea : MeaDict) (urls : Dict String) (f : Fields)
        → Shifts plugin_moves (alarm_urls env drv context mea urls f)
    unfolding alarm_urls
    alarm_urls-Shifts mea urls object_end = search shifts_rules
    alarm_urls-Shifts mea urls (entry name trigger_dict more) =
        Shifts-bind _ _ _ (search shifts_rules) λ event_type.
          Shifts-bind _ _ _ (search shifts_rules) λ _.
            Shifts-bind _ _ _ (search shifts_rules) λ action.
              Shifts-bind _ _ _ (search shifts_rules) λ names.
                Shifts-bind _ _ _ (alarm_url-Shifts mea urls name trigger_dict names) λ found.
                  Shifts-option _ found _ _ (Shifts-pure _ _)
                    λ after. alarm_urls-Shifts mea after more

    set_alarms-Shifts :
        (mea : MeaDict) (policy : Value)
        → Shifts plugin_moves (set_alarms env drv context mea policy)
    unfolding set_alarms update_mea_with_alarm
    set_alarms-Shifts mea policy = search (shifts_rules, alarm_urls-Shifts) depth 16

    first_alarming-Shifts :
        (mea : MeaDict) (vs : Items) → Shifts plugin_moves (first_alarming env drv context mea vs)
    unfolding first_alarming
    first_alarming-Shifts mea array_end = search shifts_rules
    first_alarming-Shifts mea (element v more) = Shifts-bind _ _ _ (search shifts_rules) λ policy.
        Shifts-bind _ _ _ (search shifts_rules) λ type.
          Shifts-bind _ _ _ (search shifts_rules) λ alarming.
            Shifts-bool _ alarming _ _ (set_alarms-Shifts mea policy)
              (first_alarming-Shifts mea more)

    alarms_of-Shifts :
        (mea : MeaDict) (v : Value) → Shifts plugin_moves (alarms_of env drv context mea v)
    unfolding alarms_of
    alarms_of-Shifts mea v = search (shifts_rules, first_alarming-Shifts) depth 16

    pub add_alarm_url-Shifts :
        (mea : MeaDict) → Shifts plugin_moves (add_alarm_url_to_mea env drv context mea)
    unfolding add_alarm_url_to_mea
    add_alarm_url-Shifts mea = search (shifts_rules, alarms_of-Shifts) depth 8
