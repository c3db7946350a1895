-- ===== src/Mec/Actions.antt =====
-- mem/policy_actions: what the monitor and the triggers do to a MEA.
use apmec.Prelude.{
  String, ◌<>◌, Bool, false, Option, none, some, ◌==◌, not, suc, zero, if◌then◌else◌,
}
use apmec.Errors.{Result, ok, err, key_error, value_error}
use apmec.Exec.{Exec, pure, raise, lift, ◌>>=◌, ◌>>◌}
use apmec.Dict.{Dict, lookup, insert, erase}
use apmec.Value.{ℤ, pos, negsuc}
use apmec.Text.{int_of_text, int_text}
use apmec.Db.{Env, Context}
use apmec.Mem.MeaRow.{MeaDict}
use apmec.Mem.Mea.Create.{none_or}
use apmec.Mem.Mea.Mark.{mark_mea_dead}
use apmec.Monitor
use apmec.Monitor.{Hosted}
use apmec.Mec.World.{World, Drivers, on_db, call}
use apmec.Mec.VimClient.{client_get_vim}
use apmec.Mec.Alarms.{log_monitor_events}
use apmec.Mec.Scaling.{create_mea_scale}
use apmec.Mec.Delete.{delete_mea}
use apmec.Mec.Create.{create_mea_sync, config_mea, add_mea_to_monitor}

-- The arguments of an action: those of the scaling have a policy and a direction.
pub data Args : Type 0 where
  no_args : Args
  scale_args : String → Option String → Args

-- mea_dict['attributes'].get(key), as a test
abbrev has_attribute : String → MeaDict → Bool
has_attribute key mea_dict = elim (lookup key mea_dict.attributes) [
  | none ↦ false
  | some v ↦ not (v == "")
]

-- n + 1
abbrev int_suc : ℤ → ℤ
int_suc (pos n) = pos (suc n)
int_suc (negsuc zero) = pos 0
int_suc (negsuc (suc n)) = negsuc n

abbrev count_of : Option String → Result ℤ
count_of none = ok (pos 0)
count_of (some s) = elim (int_of_text s) [ none ↦ err value_error | some n ↦ ok n ]

-- `_update_failure_count`
unfoldable pub update_failure_count : MeaDict → Exec World MeaDict
update_failure_count mea_dict = do
  count ← lift (count_of (lookup "failure_count" mea_dict.attributes))
  let text : String = int_text (int_suc count)
  pure (record mea_dict {
    attributes =
        insert ("dead_instance_id_" <> text) (none_or mea_dict.instance_id)
          (insert "failure_count" text mea_dict.attributes);
  })

abbrev pub marked : World → Result Hosted → Result (Unit {0}) × World
marked w (ok m) = (ok tt, record w { monitor = m })
marked w (err e) = (err e, w)

-- `mark_dead` of the monitor
unfoldable pub mark_dead : String → Exec World (Unit {0})
mark_dead mea_id w = marked w (Monitor.mark_dead mea_id w.monitor)

module _ (env : Env) (drv : Drivers) where
  -- the action `autoscaling`
  unfoldable pub autoscaling : Context → MeaDict → Args → Exec World (Unit {0})
  autoscaling context mea_dict args = do
    log_monitor_events env drv mea_dict.id mea_dict.status "ActionAutoscalingHeat invoked"
    elim args [
      | no_args ↦ raise key_error
      | scale_args policy type ↦ create_mea_scale env drv context mea_dict.id policy type
    ]

  -- the action `log_and_kill`
  unfoldable pub log_and_kill : Context → MeaDict → Exec World (Unit {0})
  log_and_kill context mea_dict = do
    log_monitor_events env drv mea_dict.id mea_dict.status "ActionLogAndKill invoked"
    marked ← on_db (mark_mea_dead env mea_dict.id)
    if marked
        then (do
          if has_attribute "monitoring_policy" mea_dict then mark_dead mea_dict.id else pure tt
          delete_mea env drv context mea_dict.id)
        else pure tt

  unfoldable pub delete_heat_stack : Dict String → MeaDict → Exec World (Unit {0})
  delete_heat_stack vim_auth mea_dict = do
    call (λ n. drv.delete_stack n vim_auth mea_dict)
    log_monitor_events env drv mea_dict.id mea_dict.status "ActionRespawnHeat invoked"

  unfoldable pub respawn_mea : Context → MeaDict → Exec World MeaDict
  respawn_mea context mea_dict = do
    updated ← create_mea_sync env drv context mea_dict
    config_mea env drv context updated
    pure updated

  unfoldable pub monitored : Context → Dict String → MeaDict → Exec World MeaDict
  unfolding delete_heat_stack respawn_mea
  monitored context vim_auth mea_dict =
      if has_attribute "monitoring_policy" mea_dict
      then (do
        mark_dead mea_dict.id
        delete_heat_stack vim_auth mea_dict
        updated ← respawn_mea context mea_dict
        add_mea_to_monitor env drv context updated
        pure updated)
      else pure mea_dict

  unfoldable pub alarmed : Context → Dict String → MeaDict → Exec World MeaDict
  unfolding delete_heat_stack respawn_mea
  alarmed context vim_auth mea_dict =
      if has_attribute "alarming_policy" mea_dict
      then (do
        delete_heat_stack vim_auth mea_dict
        respawn_mea context
            (record mea_dict { attributes = erase "alarming_policy" mea_dict.attributes }))
      else pure mea_dict

  -- the action `respawn`, with the MEA's dict, into which it writes
  unfoldable pub respawn : Context → MeaDict → Exec World MeaDict
  unfolding monitored alarmed
  respawn context mea_dict = do
    marked ← on_db (mark_mea_dead env mea_dict.id)
    if marked
        then (do
          counted ← update_failure_count mea_dict
          vim_res ← client_get_vim env drv context mea_dict.vim_id none
          updated ← monitored context vim_res.vim_auth counted
          alarmed context vim_res.vim_auth updated)
        else pure mea_dict

  -- `execute_action` of the driver of an action, of those of the default `policy_action`: what is
  -- returned is the MEA's dict after it
  unfoldable pub execute_action : String → Context → MeaDict → Args → Exec World MeaDict
  unfolding autoscaling log_and_kill respawn
  execute_action action context mea_dict args =
      if action == "autoscaling"
      then (do autoscaling context mea_dict args; pure mea_dict)
      else if action == "respawn"
      then respawn context mea_dict
      else if action == "log"
      then (do
        log_monitor_events env drv mea_dict.id mea_dict.status "ActionLogOnly invoked"
        pure mea_dict)
      else if action == "log_and_kill"
      then (do log_and_kill context mea_dict; pure mea_dict)
      else raise key_error
