-- ===== src/Mec/Delete.antt =====
-- mem/plugin.py: the deletion of a MEA, up to the spawned function and in it.
use apmec.Prelude.{String, Bool, true, false, Option, none, some, ◌==◌, not, if◌then◌else◌}
use apmec.Constants.{error}
use apmec.Errors.{Error, ok, err}
use apmec.Exec.{Exec, pure, raise, ◌>>=◌, ◌>>◌}
use apmec.Dict.{Dict}
use apmec.Db.{Env, Context}
use apmec.Monitor.{delete_hosting_mea}
use apmec.Mem.MeaRow.{MeaDict}
use apmec.Mem.Mea.Delete.{delete_mea_pre, delete_mea_post}
use apmec.Mem.Mea.Mark.{set_mea_error_status_reason}
use apmec.Mec.World.{
  World, Drivers, Driven, delete_pre, delete_post, call_delete, delete_mea_wait, on_db, drive,
  registered_result, spawn_n, on_monitor,
}
use apmec.Mec.VimClient.{get_infra_driver}
use apmec.Mec.Update.{manage, and_then, try_mgmt}

-- if instance_id
abbrev pub has_instance : Option String → Bool
has_instance none = false
has_instance (some instance_id) = not (instance_id == "")

module _ (env : Env) (drv : Drivers) where
  unfoldable pub infra_delete : Dict String → String → MeaDict → Exec World (Driven (Unit {0}))
  infra_delete vim_auth driver_name mea_dict =
      if has_instance mea_dict.instance_id
      then drive (λ n. (
        registered_result (drv.knows driver_name) (drv.delete n driver_name mea_dict vim_auth),
        mea_dict,
      ))
      else pure (ok tt, mea_dict)

  unfoldable pub try_delete : Dict String → String → MeaDict → Exec World (Driven (Unit {0}))
  unfolding infra_delete
  try_delete vim_auth driver_name mea_dict = do
    pre ← try_mgmt env drv delete_pre mea_dict
    called ← and_then (try_mgmt env drv call_delete) pre
    and_then (infra_delete vim_auth driver_name) called

  abbrev failed_dict : Error → MeaDict → MeaDict
  failed_dict e mea_dict = record mea_dict { status = error; error_reason = some (drv.text_of e) }

  -- What `delete_mea` does where a driver raises.
  unfoldable pub undo_delete : Context → Error → MeaDict → Exec World (Unit {0})
  undo_delete context e mea_dict = do
    on_db (set_mea_error_status_reason context mea_dict.id (drv.text_of e))
    posted ← manage env drv delete_post (failed_dict e mea_dict)
    on_db (delete_mea_post env context posted true true)
    raise e

  abbrev pub finish_delete :
      Context → Dict String → String → Driven (Unit {0}) → Exec World (Unit {0})
  finish_delete context vim_auth driver_name (ok _, mea_dict) =
      spawn_n (delete_mea_wait context mea_dict vim_auth driver_name)
  finish_delete context vim_auth driver_name (err e, mea_dict) = undo_delete context e mea_dict

  -- `delete_mea`
  unfoldable pub delete_mea : Context → String → Exec World (Unit {0})
  unfolding try_delete undo_delete
  delete_mea context mea_id = do
    going ← on_db (delete_mea_pre env context mea_id)
    found ← get_infra_driver env drv context going
    on_monitor (delete_hosting_mea mea_id)
    driven ← try_delete found.0.vim_auth found.0.vim_type found.1
    finish_delete context found.0.vim_auth found.0.vim_type driven

  unfoldable pub try_delete_wait : Dict String → String → MeaDict → Exec World (Driven (Unit {0}))
  try_delete_wait vim_auth driver_name mea_dict =
      if has_instance mea_dict.instance_id
      then drive (λ n. (
        registered_result (drv.knows driver_name) (drv.delete_wait n driver_name mea_dict vim_auth),
        mea_dict,
      ))
      else pure (ok tt, mea_dict)

  -- the `except` of `_delete_mea_wait`: whether the deletion failed, and the dict
  abbrev pub after_delete : Context → Driven (Unit {0}) → Exec World (Bool × MeaDict)
  after_delete context (ok _, mea_dict) = pure (false, mea_dict)
  after_delete context (err e, mea_dict) = do
    on_db (set_mea_error_status_reason context mea_dict.id (drv.text_of e))
    pure (true, failed_dict e mea_dict)

  -- `_delete_mea_wait`
  unfoldable pub wait_delete : Context → MeaDict → Dict String → String → Exec World (Unit {0})
  unfolding try_delete_wait
  wait_delete context mea_dict vim_auth driver_name = do
    driven ← try_delete_wait vim_auth driver_name mea_dict
    waited ← after_delete context driven
    posted ← manage env drv delete_post waited.1
    on_db (delete_mea_post env context posted waited.0 true)
