-- ===== src/Mec/Within/React.antt =====
-- mem/plugin.py and mem/monitor.py: the triggers and the monitor's passes within the plugin's moves.
use apmec.Prelude.{ℕ, String, Option, none, some, List, [], ◌∷◌, map, not}
use apmec.Constants.{status_eq, active}
use apmec.Exec.{pure}
use apmec.Dict.{Dict, lookup}
use apmec.Value.{Value, text, value_eq}
use apmec.Db.{Env, Context}
use apmec.Session.Moves.{moves_rules}
use apmec.Mem.MeaRow.{MeaDict}
use apmec.Monitor.{DriverPolicy}
use apmec.Mec.World.{Drivers}
use apmec.Mec.Scaling.{policy_scaling}
use apmec.Mec.Moves.{
  Shifts, Shifts-pure, Shifts-bind, Shifts-if, Shifts-option, Shifts-bool, shifts_rules,
}
use apmec.Mec.Within.{plugin_moves}
use apmec.Mec.Within.Policies.{
  get_mea_policy-Shifts, get_mea_policies-Shifts, get_mea_policy_by_type-Shifts,
}
use apmec.Mec.Within.Act.{execute_action-Shifts}
use apmec.Mec.Actions.{scale_args}
use apmec.Mec.Triggers.{
  Trigger, CustomAction, PolicyActions, or_not_found, get_mea_trigger, process_alarm_for_mea,
  by_parts, custom_action, name_and_action, code_dash, sort_actions, validate_alarming_policy,
  run_defaults, run_customs, handle_mea_monitoring, create_mea_trigger,
}
use apmec.Text.{split_on}
use apmec.Mec.Rounds.{
  action_cb, monitor_driver, monitor_drivers, monitor_vdus, run_monitor, monitor_all, monitor_pass,
}

module _ (env : Env) (drv : Drivers) where
  or_not_found-Shifts :
      (name mea_id : String) (o : Option Value)
      → Shifts plugin_moves (or_not_found env drv name mea_id o)
  unfolding or_not_found
  or_not_found-Shifts name mea_id none = search shifts_rules
  or_not_found-Shifts name mea_id (some v) = search shifts_rules

  process_alarm-Shifts :
      (mea_id : String) (trigger : Trigger)
      → Shifts plugin_moves (process_alarm_for_mea env drv mea_id trigger)
  unfolding process_alarm_for_mea
  process_alarm-Shifts mea_id trigger = search shifts_rules depth 12

  module _ (context : Context) where
    get_mea_trigger-Shifts :
        (mea_id name : String) → Shifts plugin_moves (get_mea_trigger env drv context mea_id name)
    unfolding get_mea_trigger
    get_mea_trigger-Shifts mea_id name =
        search (shifts_rules, get_mea_policy_by_type-Shifts, or_not_found-Shifts) depth 8

    by_parts-Shifts :
        (mea_id : String) (o : Option (String × String))
        → Shifts plugin_moves (by_parts env drv context mea_id o)
    unfolding by_parts
    by_parts-Shifts mea_id none = search shifts_rules
    by_parts-Shifts mea_id (some (name, action)) = search (shifts_rules, get_mea_policies-Shifts)

    custom_action-Shifts :
        (mea_id action : String) → Shifts plugin_moves (custom_action env drv context mea_id action)
    unfolding custom_action
    custom_action-Shifts mea_id action =
        Shifts-bind _ _ _ (get_mea_policy-Shifts env drv context action mea_id) λ policy.
          Shifts-option _ policy _ _
            (by_parts-Shifts mea_id (name_and_action (split_on code_dash action)))
            λ p. search shifts_rules

    sort_actions-Shifts :
        (mea_id : String) (names : List String) (sorted : PolicyActions)
        → Shifts plugin_moves (sort_actions env drv context mea_id sorted names)
    unfolding sort_actions
    sort_actions-Shifts mea_id [] sorted = search shifts_rules
    sort_actions-Shifts mea_id (action ∷ more) sorted =
        Shifts-bind _ _ _ (custom_action-Shifts mea_id action)
          λ custom. sort_actions-Shifts mea_id more _

    validate-Shifts :
        (mea_id : String) (trigger : Trigger)
        → Shifts plugin_moves (validate_alarming_policy env drv context mea_id trigger)
    unfolding validate_alarming_policy
    validate-Shifts mea_id trigger =
        search (shifts_rules, process_alarm-Shifts, sort_actions-Shifts) depth 8

    run_defaults-Shifts :
        (names : List String) (mea_dict : MeaDict)
        → Shifts plugin_moves (run_defaults env drv context mea_dict names)
    unfolding run_defaults
    run_defaults-Shifts [] mea_dict = search shifts_rules
    run_defaults-Shifts (action ∷ more) mea_dict =
        Shifts-bind _ _ _ (execute_action-Shifts env drv context action mea_dict _)
          λ after. run_defaults-Shifts more after

    run_customs-Shifts :
        (cs : Dict CustomAction) (mea_dict : MeaDict)
        → Shifts plugin_moves (run_customs env drv context mea_dict cs)
    unfolding run_customs
    run_customs-Shifts [] mea_dict = search shifts_rules
    run_customs-Shifts ((id, c) ∷ more) mea_dict =
        Shifts-if _ (not (value_eq c.bckend_policy.type (text policy_scaling))) _ _
          (run_customs-Shifts more mea_dict)
          (Shifts-bool _ (status_eq mea_dict.status active) _ _
            (Shifts-bind _ _ _
              (execute_action-Shifts env drv context "autoscaling" mea_dict
                (scale_args c.bckend_policy.name c.bckend_action))
              λ after. run_customs-Shifts more after)
            (Shifts-pure _ mea_dict))

    handle_mea_monitoring-Shifts :
        (trigger : Trigger) (actions : PolicyActions)
        → Shifts plugin_moves (handle_mea_monitoring env drv context trigger actions)
    unfolding handle_mea_monitoring
    handle_mea_monitoring-Shifts trigger actions =
        search (shifts_rules, execute_action-Shifts, run_defaults-Shifts, run_customs-Shifts) depth
          12

    pub create_mea_trigger-Shifts :
        (mea_id name action : String) (params : Value)
        → Shifts plugin_moves (create_mea_trigger env drv context mea_id name action params)
    unfolding create_mea_trigger
    create_mea_trigger-Shifts mea_id name action params =
        search (shifts_rules, get_mea_trigger-Shifts, validate-Shifts, handle_mea_monitoring-Shifts)
          depth 12

  module _ (boot_wait : ℕ) where
    action_cb-Shifts :
        (n : ℕ) (action : String) → Shifts plugin_moves (action_cb env drv boot_wait n action)
    unfolding action_cb
    action_cb-Shifts n action = search (shifts_rules, execute_action-Shifts) depth 12

    acted-Shifts :
        (n : ℕ) (o : Option String)
        → Shifts plugin_moves
            (elim o [ none ↦ pure tt | some action ↦ action_cb env drv boot_wait n action ])
    acted-Shifts n none = search shifts_rules
    acted-Shifts n (some action) = action_cb-Shifts n action

    monitor_driver-Shifts :
        (n : ℕ) (vdu driver : String) (policy : DriverPolicy)
        → Shifts plugin_moves (monitor_driver env drv boot_wait n vdu driver policy)
    unfolding monitor_driver
    monitor_driver-Shifts n vdu driver policy = Shifts-bind _ _ _ (search shifts_rules) λ h.
        Shifts-bind _ _ _ (search (shifts_rules, moves_rules)) λ now.
          Shifts-if _ _ _ _ (Shifts-pure _ tt) (
            Shifts-bind _ _ _ (search shifts_rules) λ mgmt_ip.
              Shifts-bind _ _ _ (search shifts_rules)
                λ driver_return. acted-Shifts n (lookup driver_return policy.actions))

    monitor_drivers-Shifts :
        (n : ℕ) (vdu : String) (ps : Dict DriverPolicy)
        → Shifts plugin_moves (monitor_drivers env drv boot_wait n vdu ps)
    unfolding monitor_drivers
    monitor_drivers-Shifts n vdu [] = search shifts_rules
    monitor_drivers-Shifts n vdu ((driver, policy) ∷ more) =
        Shifts-bind _ _ _ (monitor_driver-Shifts n vdu driver policy)
          λ _. monitor_drivers-Shifts n vdu more

    monitor_vdus-Shifts :
        (n : ℕ) (ps : Dict (Dict DriverPolicy))
        → Shifts plugin_moves (monitor_vdus env drv boot_wait n ps)
    unfolding monitor_vdus
    monitor_vdus-Shifts n [] = search shifts_rules
    monitor_vdus-Shifts n ((vdu, policy) ∷ more) = Shifts-bind _ _ _ (search shifts_rules) λ h.
        Shifts-if _ h.dead _ _ (Shifts-pure _ tt)
          (Shifts-bind _ _ _ (monitor_drivers-Shifts n vdu policy) λ _. monitor_vdus-Shifts n more)

    run_monitor-Shifts : (n : ℕ) → Shifts plugin_moves (run_monitor env drv boot_wait n)
    unfolding run_monitor
    run_monitor-Shifts n = search (shifts_rules, monitor_vdus-Shifts) depth 8

    monitor_all-Shifts : (ns : List ℕ) → Shifts plugin_moves (monitor_all env drv boot_wait ns)
    unfolding monitor_all
    monitor_all-Shifts [] = search shifts_rules
    monitor_all-Shifts (n ∷ more) = Shifts-bind _ _ _ (search shifts_rules) λ h.
        Shifts-bind _ _ _ (Shifts-if _ h.dead _ _ (Shifts-pure _ tt) (run_monitor-Shifts n))
          λ _. monitor_all-Shifts more

    pub monitor_pass-Shifts : Shifts plugin_moves (monitor_pass env drv boot_wait)
    unfolding monitor_pass
    monitor_pass-Shifts = record {
      at = λ w. (monitor_all-Shifts (map (λ (p : String × ℕ). p.1) w.monitor.hosting_meas)).at w;
    }
