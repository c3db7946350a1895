-- ===== src/Mec/Within/Create.antt =====
-- mem/plugin.py: the creation of a MEA within the plugin's moves.
use apmec.Prelude.{String, Option, none, some}
use apmec.Errors.{ok, err, mea_create_wait_failed, mgmt_driver_exception}
use apmec.Dict.{Dict, lookup}
use apmec.Db.{Env, Context}
use apmec.Session.Moves.{moves_rules}
use apmec.Mem.MeaRow.{MeaDict}
use apmec.Mem.Mea.Create.{MeaRequest}
use apmec.Mec.World.{Drivers, Driven}
use apmec.Mec.Moves.{Shifts, Shifts-option, shifts_rules}
use apmec.Mec.Database.{database}
use apmec.Mec.Within.{
  plugin_moves, client_get_vim-Shifts, get_infra_driver-Shifts, manage-Shifts, try_mgmt-Shifts,
  update_mea-Shifts, delete_mea-Shifts,
}
use apmec.Mec.Within.Policies.{add_alarm_url-Shifts, log_monitor_events-Shifts}
use apmec.Mec.Create.{
  NewMea, requested, existing, row_of, created, create_in_driver, after_wait, after_call, configure,
  wait_create, add_policy, add_mea_to_monitor, config_mea, after_creation, create_wait_task,
  create_mea, create_mea_sync, or_type_error,
}

module _ (env : Env) (drv : Drivers) (context : Context) where
  row_of-Shifts : (mea : NewMea) → Shifts plugin_moves (row_of env drv context mea)
  row_of-Shifts (requested mea) = search (shifts_rules, database)
  row_of-Shifts (existing mea_dict) = search shifts_rules

  created-Shifts :
      (driven : Driven (Option String)) → Shifts plugin_moves (created env drv context driven)
  created-Shifts (ok none, d) = search (shifts_rules, database) depth 8
  created-Shifts (ok (some instance_id), d) = search shifts_rules
  created-Shifts (err e, d) = search (shifts_rules, delete_mea-Shifts) depth 8

  create_in_driver-Shifts :
      (mea : NewMea) (vim_auth : Dict String) (driver_name : String)
      → Shifts plugin_moves (create_in_driver env drv context mea vim_auth driver_name)
  unfolding create_in_driver
  create_in_driver-Shifts mea vim_auth driver_name =
      search (shifts_rules, row_of-Shifts, manage-Shifts, add_alarm_url-Shifts, created-Shifts)
        depth 16

  after_wait-Shifts :
      (driven : Driven (Unit {0})) → Shifts plugin_moves (after_wait env drv context driven)
  after_wait-Shifts (ok _, d) = search shifts_rules
  after_wait-Shifts (err (mea_create_wait_failed reason), d) =
      search (shifts_rules, database) depth 8
  after_wait-Shifts (err _, d) = search shifts_rules

  after_call-Shifts :
      (driven : Driven (Unit {0})) → Shifts plugin_moves (after_call env drv context driven)
  after_call-Shifts (ok _, d) = search shifts_rules
  after_call-Shifts (err (mgmt_driver_exception reason), d) =
      search (shifts_rules, database) depth 8
  after_call-Shifts (err _, d) = search shifts_rules

  configure-Shifts : (mea_dict : MeaDict) → Shifts plugin_moves (configure env drv context mea_dict)
  unfolding configure
  configure-Shifts mea_dict =
      search (shifts_rules, database, try_mgmt-Shifts, after_call-Shifts) depth 12

  wait_create-Shifts :
      (mea_dict : MeaDict) (vim_auth : Dict String) (driver_name : String)
      → Shifts plugin_moves (wait_create env drv context mea_dict vim_auth driver_name)
  unfolding wait_create
  wait_create-Shifts mea_dict vim_auth driver_name =
      search (shifts_rules, database, after_wait-Shifts, manage-Shifts, configure-Shifts) depth 16

  add_policy-Shifts :
      (mea_dict : MeaDict) (policy : String)
      → Shifts plugin_moves (add_policy env drv context mea_dict policy)
  unfolding add_policy
  add_policy-Shifts mea_dict policy =
      search (shifts_rules, moves_rules, log_monitor_events-Shifts) depth 16

  pub add_mea_to_monitor-Shifts :
      (mea_dict : MeaDict) → Shifts plugin_moves (add_mea_to_monitor env drv context mea_dict)
  unfolding add_mea_to_monitor
  add_mea_to_monitor-Shifts mea_dict =
      Shifts-option _ (lookup "monitoring_policy" mea_dict.attributes) _ _ (search shifts_rules)
        λ policy. search (shifts_rules, add_policy-Shifts)

  pub config_mea-Shifts :
      (mea_dict : MeaDict) → Shifts plugin_moves (config_mea env drv context mea_dict)
  unfolding config_mea
  config_mea-Shifts mea_dict =
      Shifts-option _ (lookup "config" mea_dict.attributes) _ _ (search shifts_rules)
        λ config. search (shifts_rules, update_mea-Shifts) depth 8

  after_creation-Shifts :
      (mea_dict : MeaDict) → Shifts plugin_moves (after_creation env drv context mea_dict)
  unfolding after_creation
  after_creation-Shifts mea_dict =
      search (shifts_rules, add_mea_to_monitor-Shifts, config_mea-Shifts) depth 8

  pub create_wait_task-Shifts :
      (mea : Option MeaDict) (vim_auth : Dict String) (driver_name : String)
      → Shifts plugin_moves (create_wait_task env drv context mea vim_auth driver_name)
  unfolding create_wait_task
  create_wait_task-Shifts none vim_auth driver_name = search shifts_rules
  create_wait_task-Shifts (some mea_dict) vim_auth driver_name =
      search (shifts_rules, wait_create-Shifts, after_creation-Shifts) depth 8

  pub create_mea-Shifts : (mea : MeaRequest) → Shifts plugin_moves (create_mea env drv context mea)
  unfolding create_mea
  create_mea-Shifts mea =
      search (shifts_rules, client_get_vim-Shifts, create_in_driver-Shifts) depth 16

  or_type_error-Shifts : (o : Option MeaDict) → Shifts plugin_moves (or_type_error o)
  or_type_error-Shifts none = search shifts_rules
  or_type_error-Shifts (some d) = search shifts_rules

  pub create_mea_sync-Shifts :
      (mea : MeaDict) → Shifts plugin_moves (create_mea_sync env drv context mea)
  unfolding create_mea_sync
  create_mea_sync-Shifts mea =
      search
        (
          shifts_rules, get_infra_driver-Shifts, create_in_driver-Shifts, or_type_error-Shifts,
          wait_create-Shifts,
        )
        depth 16
