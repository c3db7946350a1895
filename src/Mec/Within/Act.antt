-- ===== src/Mec/Within/Act.antt =====
-- mem/plugin.py and mem/policy_actions: scaling and the actions within the plugin's moves.
use apmec.Prelude.{String, Option, none, some}
use apmec.Errors.{Error}
use apmec.Dict.{Dict}
use apmec.Db.{Env, Context}
use apmec.Mem.MeaRow.{MeaDict}
use apmec.Mec.World.{Drivers, Policy}
use apmec.Mec.Moves.{Shifts, shifts_rules}
use apmec.Mec.Database.{database}
use apmec.Mec.Within.{
  plugin_moves, client_get_vim-Shifts, get_infra_driver-Shifts, delete_mea-Shifts,
}
use apmec.Mec.Within.Policies.{get_mea_policy-Shifts, log_monitor_events-Shifts}
use apmec.Mec.Within.Create.{create_mea_sync-Shifts, config_mea-Shifts, add_mea_to_monitor-Shifts}
use apmec.Mec.Scaling.{
  valid_action, validate_scaling_policy, scaling_pre, scaling_post, scaling_failed, policy_action,
  policy_action_wait, handle_mea_scaling, or_not_found, create_mea_scale,
}
use apmec.Mec.Actions.{
  Args, no_args, scale_args, update_failure_count, autoscaling, log_and_kill, delete_heat_stack,
  respawn_mea, monitored, alarmed, respawn, execute_action,
}

valid_action-Shifts :
    (name : String) (action : Option String) → Shifts plugin_moves (valid_action name action)
valid_action-Shifts name none = search shifts_rules
valid_action-Shifts name (some action) = search shifts_rules

validate-Shifts :
    (policy : Policy) (action : Option String)
    → Shifts plugin_moves (validate_scaling_policy policy action)
unfolding validate_scaling_policy
validate-Shifts policy action = search (shifts_rules, valid_action-Shifts)

or_not_found-Shifts :
    (policy mea_id : String) (o : Option Policy)
    → Shifts plugin_moves (or_not_found policy mea_id o)
or_not_found-Shifts policy mea_id none = search shifts_rules
or_not_found-Shifts policy mea_id (some p) = search shifts_rules

update_failure_count-Shifts :
    (mea_dict : MeaDict) → Shifts plugin_moves (update_failure_count mea_dict)
unfolding update_failure_count
update_failure_count-Shifts mea_dict = search shifts_rules

module _ (env : Env) (drv : Drivers) (context : Context) where
  scaling_failed-Shifts :
      {A : Type 0} (policy : Policy) (action : String) (e : Error)
      → Shifts plugin_moves (scaling_failed env drv {A = A} context policy action e)
  unfolding scaling_failed scaling_post
  scaling_failed-Shifts policy action e = search (shifts_rules, database) depth 12

  policy_action-Shifts :
      (policy : Policy) (action : String) (vim_auth : Dict String) (driver_name : String)
      → Shifts plugin_moves (policy_action env drv context policy action vim_auth driver_name)
  unfolding policy_action
  policy_action-Shifts policy action vim_auth driver_name =
      search (shifts_rules, scaling_failed-Shifts) depth 8

  pub action_wait-Shifts :
      (policy : Policy) (action : String) (vim_auth : Dict String) (driver_name : String)
      (event : Option String)
      → Shifts plugin_moves
          (policy_action_wait env drv context policy action vim_auth driver_name event)
  unfolding policy_action_wait scaling_post
  action_wait-Shifts policy action vim_auth driver_name event =
      search (shifts_rules, database, scaling_failed-Shifts) depth 12

  handle_scaling-Shifts :
      (policy : Policy) (action : Option String)
      → Shifts plugin_moves (handle_mea_scaling env drv context policy action)
  unfolding handle_mea_scaling scaling_pre
  handle_scaling-Shifts policy action =
      search
        (shifts_rules, database, validate-Shifts, get_infra_driver-Shifts, policy_action-Shifts)
        depth 16

  pub create_mea_scale-Shifts :
      (mea_id policy : String) (type : Option String)
      → Shifts plugin_moves (create_mea_scale env drv context mea_id policy type)
  unfolding create_mea_scale
  create_mea_scale-Shifts mea_id policy type =
      search (shifts_rules, get_mea_policy-Shifts, or_not_found-Shifts, handle_scaling-Shifts) depth
        12

  autoscaling-Shifts :
      (mea_dict : MeaDict) (args : Args)
      → Shifts plugin_moves (autoscaling env drv context mea_dict args)
  unfolding autoscaling
  autoscaling-Shifts mea_dict no_args = search (shifts_rules, log_monitor_events-Shifts) depth 8
  autoscaling-Shifts mea_dict (scale_args policy type) =
      search (shifts_rules, log_monitor_events-Shifts, create_mea_scale-Shifts) depth 8

  log_and_kill-Shifts :
      (mea_dict : MeaDict) → Shifts plugin_moves (log_and_kill env drv context mea_dict)
  unfolding log_and_kill
  log_and_kill-Shifts mea_dict =
      search (shifts_rules, database, log_monitor_events-Shifts, delete_mea-Shifts) depth 12

  delete_heat_stack-Shifts :
      (vim_auth : Dict String) (mea_dict : MeaDict)
      → Shifts plugin_moves (delete_heat_stack env drv vim_auth mea_dict)
  unfolding delete_heat_stack
  delete_heat_stack-Shifts vim_auth mea_dict =
      search (shifts_rules, log_monitor_events-Shifts) depth 8

  respawn_mea-Shifts :
      (mea_dict : MeaDict) → Shifts plugin_moves (respawn_mea env drv context mea_dict)
  unfolding respawn_mea
  respawn_mea-Shifts mea_dict =
      search (shifts_rules, create_mea_sync-Shifts, config_mea-Shifts) depth 12

  monitored-Shifts :
      (vim_auth : Dict String) (mea_dict : MeaDict)
      → Shifts plugin_moves (monitored env drv context vim_auth mea_dict)
  unfolding monitored
  monitored-Shifts vim_auth mea_dict =
      search (shifts_rules, delete_heat_stack-Shifts, respawn_mea-Shifts, add_mea_to_monitor-Shifts)
        depth 16

  alarmed-Shifts :
      (vim_auth : Dict String) (mea_dict : MeaDict)
      → Shifts plugin_moves (alarmed env drv context vim_auth mea_dict)
  unfolding alarmed
  alarmed-Shifts vim_auth mea_dict =
      search (shifts_rules, delete_heat_stack-Shifts, respawn_mea-Shifts) depth 12

  respawn-Shifts : (mea_dict : MeaDict) → Shifts plugin_moves (respawn env drv context mea_dict)
  unfolding respawn
  respawn-Shifts mea_dict =
      search
        (
          shifts_rules, database, update_failure_count-Shifts, client_get_vim-Shifts,
          monitored-Shifts, alarmed-Shifts,
        )
        depth 16

  pub execute_action-Shifts :
      (action : String) (mea_dict : MeaDict) (args : Args)
      → Shifts plugin_moves (execute_action env drv action context mea_dict args)
  unfolding execute_action
  execute_action-Shifts action mea_dict args =
      search
        (
          shifts_rules, autoscaling-Shifts, respawn-Shifts, log_monitor_events-Shifts,
          log_and_kill-Shifts,
        )
        depth 16
