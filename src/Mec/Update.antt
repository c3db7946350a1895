-- ===== src/Mec/Update.antt =====
-- mem/plugin.py: the update of a MEA, up to the spawned function and in it.
use apmec.Prelude.{String}
use apmec.Constants.{Status, active, error}
use apmec.Errors.{Error, ok, err, mgmt_driver_exception}
use apmec.Exec.{Exec, pure, raise, ◌>>=◌, ◌>>◌}
use apmec.Dict.{Dict}
use apmec.Db.{Env, Context}
use apmec.Monitor.{delete_hosting_mea}
use apmec.Mem.MeaRow.{MeaDict}
use apmec.Mem.Mea.Update.{update_mea_pre, update_mea_post}
use apmec.Mem.Mea.Mark.{set_mea_error_status_reason}
use apmec.Mec.World.{
  World, Drivers, Driven, MgmtCall, update_pre, update_post, call_update, update_mea_wait, on_db,
  drive, registered, registered_result, spawn_n, on_monitor,
}
use apmec.Mec.VimClient.{get_infra_driver}

abbrev pub reraise : Driven (Unit {0}) → Exec World MeaDict
reraise (ok _, mea_dict) = pure mea_dict
reraise (err e, mea_dict) = raise e

-- The next step of a `try`, if none has raised.
abbrev pub and_then :
    (MeaDict → Exec World (Driven (Unit {0}))) → Driven (Unit {0}) → Exec World (Driven (Unit {0}))
and_then next (ok _, mea_dict) = next mea_dict
and_then next (err e, mea_dict) = pure (err e, mea_dict)

abbrev with_error : MeaDict → MeaDict
with_error mea_dict = record mea_dict { status = error }

module _ (env : Env) (drv : Drivers) where
  -- A call of the MEA's management driver whose raise is not caught.
  unfoldable pub manage : MgmtCall → MeaDict → Exec World MeaDict
  manage method mea_dict = do
    driven ← drive (λ n. drv.mgmt n mea_dict.mead.mgmt_driver method mea_dict)
    reraise driven

  unfoldable pub try_mgmt : MgmtCall → MeaDict → Exec World (Driven (Unit {0}))
  try_mgmt method mea_dict = drive (λ n. drv.mgmt n mea_dict.mead.mgmt_driver method mea_dict)

  unfoldable pub try_update :
      Dict String → Dict String → String → MeaDict → Exec World (Driven (Unit {0}))
  unfolding try_mgmt
  try_update attributes vim_auth driver_name mea_dict = do
    driven ← try_mgmt update_pre mea_dict
    and_then
        (λ d. drive (λ n.
          registered (drv.knows driver_name) d (drv.update n driver_name d attributes vim_auth)))
        driven

  -- What `update_mea` does where the management or the infrastructure driver raises.
  unfoldable pub undo_update : Context → String → Error → MeaDict → Exec World MeaDict
  unfolding manage
  undo_update context mea_id e mea_dict = do
    on_monitor (delete_hosting_mea mea_id)
    on_db (set_mea_error_status_reason context mea_dict.id (drv.text_of e))
    posted ← manage update_post (with_error mea_dict)
    on_db (update_mea_post env context mea_id error posted)
    raise e

  abbrev pub finish_update :
      Context → String → Dict String → String → Driven (Unit {0}) → Exec World MeaDict
  finish_update context mea_id vim_auth driver_name (ok _, mea_dict) = do
    spawn_n (update_mea_wait context mea_dict vim_auth driver_name)
    pure mea_dict
  finish_update context mea_id vim_auth driver_name (err e, mea_dict) =
      undo_update context mea_id e mea_dict

  -- `update_mea`, with the attributes of the request
  unfoldable pub update_mea : Context → String → Dict String → Exec World MeaDict
  unfolding try_update undo_update
  update_mea context mea_id attributes = do
    locked ← on_db (update_mea_pre env context mea_id)
    found ← get_infra_driver env drv context locked
    driven ← try_update attributes found.0.vim_auth found.0.vim_type found.1
    finish_update context mea_id found.0.vim_auth found.0.vim_type driven

  -- the `try` of `_update_mea_wait`
  unfoldable pub try_update_wait : Dict String → String → MeaDict → Exec World (Driven (Unit {0}))
  unfolding try_mgmt
  try_update_wait vim_auth driver_name mea_dict = do
    driven ← drive (λ n. (
      registered_result (drv.knows driver_name) (drv.update_wait n driver_name mea_dict vim_auth),
      mea_dict,
    ))
    and_then (try_mgmt call_update) driven

  abbrev pub after_update : Context → Driven (Unit {0}) → Exec World (Status × MeaDict)
  after_update context (ok _, mea_dict) = pure (active, mea_dict)
  after_update context (err (mgmt_driver_exception reason), mea_dict) = do
    on_monitor (delete_hosting_mea mea_dict.id)
    on_db (
        set_mea_error_status_reason context mea_dict.id
          (drv.text_of (mgmt_driver_exception reason)))
    pure (error, mea_dict)
  after_update context (err e, mea_dict) = raise e

  -- `_update_mea_wait`
  unfoldable pub wait_update : Context → MeaDict → Dict String → String → Exec World (Unit {0})
  unfolding try_update_wait manage
  wait_update context mea_dict vim_auth driver_name = do
    driven ← try_update_wait vim_auth driver_name mea_dict
    waited ← after_update context driven
    posted ← manage update_post (record waited.1 { status = waited.0 })
    on_db (update_mea_post env context posted.id waited.0 posted)
