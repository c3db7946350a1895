-- ===== src/Mem/Mea/Mark.antt =====
-- db/mem/mem_db.py: the marks that the monitor and the drivers set.
use apmec.Prelude.{String, Bool, true, false, some, List, [], ◌∷◌, not}
use apmec.Constants.{
  Status, down, pending_create, pending_update, pending_delete, inactive, error, dead, in_statuses,
  in_status, res_mea, evt_monitor,
}
use apmec.Errors.{ok, multiple_results_found}
use apmec.Exec.{Exec, pure, raise, ◌>>=◌, ◌>>◌}
use apmec.Table
use apmec.Db.{Db, Env, Context, Mea}
use apmec.Session.{transaction, query, utcnow}
use apmec.Events.{create_event}
use apmec.Mem.MeaRow.{update_meas, mea_query, has_id, set_status}

-- `get_admin_context` of context.py, whose tenant is None
abbrev pub admin_context : Context
admin_context = record { is_admin = true; tenant_id = "" }

-- `set_mea_error_status_reason`
unfoldable pub set_mea_error_status_reason : Context → String → String → Exec Db (Unit {0})
set_mea_error_status_reason context mea_id new_reason = transaction (
    update_meas (mea_query context mea_id (λ _. true))
      (λ r. record r { error_reason = some new_reason }))

module _ (env : Env) where
  mark_found : String → Status → Mea → Exec Db Bool
  mark_found mea_id new_status row = do
    update_meas (has_id row.id) (set_status new_status)
    now ← utcnow env
    create_event env mea_id res_mea (in_status new_status) evt_monitor now ""
    pure true

  unfoldable pub mark_rows : String → Status → List Mea → Exec Db Bool
  unfolding mark_found
  mark_rows mea_id new_status [] = pure false
  mark_rows mea_id new_status (row ∷ []) = mark_found mea_id new_status row
  mark_rows mea_id new_status _ = raise multiple_results_found

  -- `_mark_mea_status`: false, and no change, where `one()` finds no row
  unfoldable pub mark_mea_status : String → List Status → Status → Exec Db Bool
  unfolding mark_rows
  mark_mea_status mea_id exclude_status new_status = transaction do
    rows ← query (λ t. ok (
        Table.select (mea_query admin_context mea_id (λ s. not (in_statuses exclude_status s)))
          t.meas))
    mark_rows mea_id new_status rows

  -- `_mark_mea_error`
  unfoldable mark_mea_error : String → Exec Db Bool
  mark_mea_error mea_id = mark_mea_status mea_id (dead ∷ []) error

  -- `_mark_mea_dead`
  unfoldable pub mark_mea_dead : String → Exec Db Bool
  mark_mea_dead mea_id =
      mark_mea_status mea_id
        (down ∷ pending_create ∷ pending_update ∷ pending_delete ∷ inactive ∷ error ∷ []) dead
