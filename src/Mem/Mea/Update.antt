-- ===== src/Mem/Mea/Update.antt =====
-- db/mem/mem_db.py: the row lock `_get_mea_db`, scaling, and the two database steps of an update.
use apmec.Prelude.{String, Bool, Option, none, some, List, ◌&&◌, ◌==◌, not, if◌then◌else◌}
use apmec.Constants.{
  Status, pending_update, in_statuses, status_eq, in_status, res_mea, evt_scale, evt_update,
}
use apmec.Errors.{Error, Result, ok, err, no_result_found, mea_not_found, mea_in_use}
use apmec.Exec.{Exec, pure, raise, ◌>>=◌, ◌>>◌}
use apmec.Table
use apmec.Dict.{Dict, contains}
use apmec.Db.{Db, Env, Context, Mea, MeaAttribute}
use apmec.Session.{transaction, query, write, utcnow, the_one}
use apmec.Events.{create_event}
use apmec.Mem.MeaRow.{
  MeaDict, update_meas, mea_query, has_id, set_status, active_update, make_mea_dict,
  store_attributes,
}

abbrev pub not_found_as : {A : Type 0} → Error → Result A → Result A
not_found_as e (ok a) = ok a
not_found_as e (err no_result_found) = err e
not_found_as e (err e') = err e'

-- `_get_mea_db`
unfoldable pub get_mea_db : Context → String → List Status → Status → Exec Db Mea
get_mea_db context mea_id current_statuses new_status = do
  row ← query (λ t.
      not_found_as (mea_not_found mea_id)
        (the_one (Table.select (mea_query context mea_id (in_statuses current_statuses)) t.meas)))
  if status_eq row.status pending_update
      then raise (mea_in_use mea_id)
      else do update_meas (has_id row.id) (set_status new_status); pure (set_status new_status row)

-- `if mgmt_url: mea_db.update({'mgmt_url': mgmt_url})`
unfoldable pub set_mgmt_url : Option String → Mea → Exec Db Mea
set_mgmt_url none row = pure row
set_mgmt_url (some url) row = if url == "" then pure row else do
  update_meas (has_id row.id) (λ r. record r { mgmt_url = some url })
  pure (record row { mgmt_url = some url })

-- The attributes of the MEA whose key the dict does not have.
abbrev is_stale : String → Dict String → MeaAttribute → Bool
is_stale mea_id attributes a = a.mea_id == mea_id && not (contains a.key attributes)

module _ (env : Env) where
  -- `_update_mea_scaling_status`, of the policy's MEA
  unfoldable pub update_mea_scaling_status :
      Context → String → List Status → Status → Option String → Exec Db MeaDict
  unfolding set_mgmt_url
  update_mea_scaling_status context mea_id previous_statuses status mgmt_url = do
    row ←
        transaction do
          locked ← get_mea_db context mea_id previous_statuses status
          set_mgmt_url mgmt_url locked
    mea_dict ← make_mea_dict row
    now ← utcnow env
    create_event env mea_dict.id res_mea (in_status mea_dict.status) evt_scale now ""
    pure mea_dict

  -- `_update_mea_pre`
  unfoldable pub update_mea_pre : Context → String → Exec Db MeaDict
  update_mea_pre context mea_id = do
    row ← transaction (get_mea_db context mea_id active_update pending_update)
    mea_dict ← make_mea_dict row
    now ← utcnow env
    create_event env mea_id res_mea (in_status mea_dict.status) evt_update now ""
    pure mea_dict

  -- `_update_mea_post`
  unfoldable pub update_mea_post : Context → String → Status → MeaDict → Exec Db (Unit {0})
  update_mea_post context mea_id new_status new_mea_dict = do
    now ← utcnow env
    transaction do
      update_meas (mea_query context mea_id (status_eq pending_update))
          (λ r. record r { status = new_status; updated_at = some now })
      write (λ t. record t {
        mea_attributes = Table.delete (is_stale mea_id new_mea_dict.attributes) t.mea_attributes;
      })
      store_attributes env mea_id new_mea_dict.attributes
    create_event env mea_id res_mea (in_status new_status) evt_update now ""
    pure tt
