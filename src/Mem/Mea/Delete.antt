-- ===== src/Mem/Mea/Delete.antt =====
-- db/mem/mem_db.py: the two database steps of the deletion of a MEA.
use apmec.Prelude.{String, Bool, true, some, ◌==◌, if◌then◌else◌}
use apmec.Constants.{pending_delete, error, status_eq, in_status, res_mea, evt_delete}
use apmec.Exec.{Exec, pure, ◌>>=◌, ◌>>◌}
use apmec.Table
use apmec.Db.{Db, Env, Context, MeaAttribute}
use apmec.Session.{transaction, write, utcnow}
use apmec.Events.{create_event}
use apmec.Mem.Mead.{delete_mead}
use apmec.Mem.MeaRow.{
  MeaDict, with_meas, flush_meas, update_meas, mea_query, set_status, active_update_error_dead,
  make_mea_dict,
}
use apmec.Mem.Mea.Update.{get_mea_db}

module _ (env : Env) where
  -- `_delete_mea_pre`
  unfoldable pub delete_mea_pre : Context → String → Exec Db MeaDict
  delete_mea_pre context mea_id = do
    row ← transaction (get_mea_db context mea_id active_update_error_dead pending_delete)
    mea_dict ← make_mea_dict row
    now ← utcnow env
    create_event env mea_id res_mea (in_status mea_dict.status) evt_delete now
        "MEA delete initiated"
    pure mea_dict

  unfoldable pub mark_delete_error : Context → String → Exec Db (Unit {0})
  mark_delete_error context mea_id = do
    update_meas (mea_query context mea_id (status_eq pending_delete)) (set_status error)
    now ← utcnow env
    create_event env mea_id res_mea (in_status error) evt_delete now "MEA Delete ERROR"
    pure tt

  unfoldable pub soft_delete_mea : Context → String → Exec Db (Unit {0})
  soft_delete_mea context mea_id = do
    now ← utcnow env
    flush_meas (
        Table.update (mea_query context mea_id (status_eq pending_delete))
          (λ r. record r { deleted_at = some now }))
    create_event env mea_id res_mea (in_status pending_delete) evt_delete now "MEA Delete Complete"
    pure tt

  unfoldable remove_mea : Context → String → Exec Db (Unit {0})
  remove_mea context mea_id = do
    write (λ t. record t {
      mea_attributes = Table.delete (λ (a : MeaAttribute). a.mea_id == mea_id) t.mea_attributes;
    })
    write (with_meas (Table.delete (mea_query context mea_id (status_eq pending_delete))))

  -- `_delete_mea_post`; the MEAD of an inline template goes with its MEA
  unfoldable pub delete_mea_post : Context → MeaDict → Bool → Bool → Exec Db (Unit {0})
  unfolding mark_delete_error soft_delete_mea remove_mea
  delete_mea_post context mea_dict failed soft_delete = transaction (
      if failed then mark_delete_error context mea_dict.id else do
        if soft_delete then soft_delete_mea context mea_dict.id else remove_mea context mea_dict.id
        if mea_dict.mead.template_source == "inline"
            then delete_mead env context mea_dict.mead_id true
            else pure tt)
