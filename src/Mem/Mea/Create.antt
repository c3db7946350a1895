-- ===== src/Mem/Mea/Create.antt =====
-- db/mem/mem_db.py: the three database steps of the creation of a MEA.
use apmec.Prelude.{String, ◌<>◌, Option, none, some, [], ◌∷◌, ◌++◌, ◌||◌, is_none, if◌then◌else◌}
use apmec.Constants.{
  Status, pending_create, error, in_statuses, status_eq, in_status, res_mea, evt_create,
}
use apmec.Exec.{Exec, pure, lift, ◌>>=◌, ◌>>◌, rescue}
use apmec.Table
use apmec.Dict.{Dict}
use apmec.Db.{Db, Env, Context, Mea, datetime_min}
use apmec.Session.{get_tenant_id_for_create, transaction, query, write, generate_uuid, utcnow}
use apmec.Session.{the_one, not_none}
use apmec.Events.{create_event}
use apmec.Mem.MeadRow.{as_duplicate}
use apmec.Mem.Mead.{get_mead_resource}
use apmec.Mem.MeaRow.{
  MeaDict, flush_meas, update_meas, mea_query, has_id, set_status, create_states, make_mea_dict,
  store_attributes,
}

-- The body of a POST, after the MEAD of an inline template has got its id.
pub record MeaRequest : Type 0 where
  pub tenant_id : Option String
  pub mead_id : String
  pub name : String
  pub attributes : Dict String
  pub vim_id : String
  pub placement_attr : String

abbrev pub none_or : Option String → String
none_or none = "None"
none_or (some s) = s

module _ (env : Env) where
  unfoldable pub add_mea_attributes : String → Dict String → Exec Db (Unit {0})
  add_mea_attributes mea_id [] = pure tt
  add_mea_attributes mea_id ((key, value) ∷ rest) = do
    id ← generate_uuid env
    write (λ t. record t {
      mea_attributes =
          t.mea_attributes ++ (record { id = id; mea_id = mea_id; key = key; value = value } ∷ []);
    })
    add_mea_attributes mea_id rest

  unfoldable pub insert_mea : Context → String → String → MeaRequest → Exec Db Mea
  insert_mea context tenant_id mea_id mea = do
    found ← get_mead_resource env context mea.mead_id
    mead ← lift (not_none found)
    created_at ← utcnow env
    let row : Mea = record {
      id = mea_id;
      tenant_id = tenant_id;
      name = mea.name;
      description = mead.description;
      instance_id = none;
      mgmt_url = none;
      mead_id = mea.mead_id;
      vim_id = mea.vim_id;
      placement_attr = mea.placement_attr;
      status = pending_create;
      error_reason = none;
      created_at = created_at;
      updated_at = none;
      deleted_at = some datetime_min;
    }
    flush_meas (λ rows. rows ++ (row ∷ []))
    add_mea_attributes mea_id mea.attributes
    pure row

  -- `_create_mea_pre`
  unfoldable pub create_mea_pre : Context → MeaRequest → Exec Db MeaDict
  create_mea_pre context mea = do
    tenant_id ← lift (get_tenant_id_for_create context mea.tenant_id)
    mea_id ← generate_uuid env
    row ← rescue (transaction (insert_mea context tenant_id mea_id mea)) (as_duplicate "mea")
    create_event env mea_id res_mea (in_status pending_create) evt_create row.created_at
        "MEA UUID assigned."
    make_mea_dict row

  -- `_create_mea_post`; an `instance_id` of None means that the creation failed
  unfoldable pub create_mea_post :
      Context → String → Option String → Option String → MeaDict → Exec Db (Unit {0})
  create_mea_post context mea_id instance_id mgmt_url mea_dict = do
    transaction do
      row ← query (λ t.
          the_one (Table.select (mea_query context mea_id (in_statuses create_states)) t.meas))
      update_meas (has_id row.id) (λ r. record r { instance_id = instance_id; mgmt_url = mgmt_url })
      if is_none instance_id || status_eq mea_dict.status error
          then update_meas (has_id row.id) (set_status error)
          else pure tt
      store_attributes env mea_id mea_dict.attributes
    now ← utcnow env
    create_event env mea_dict.id res_mea (in_status mea_dict.status) evt_create now (
        "Infra Instance ID created: "
        <> (none_or instance_id <> (" and Mgmt URL set: " <> none_or mgmt_url)))
    pure tt

  -- `_create_mea_status`
  unfoldable pub create_mea_status : Context → String → Status → Exec Db (Unit {0})
  create_mea_status context mea_id new_status = transaction do
    row ←
        query (λ t.
          the_one (Table.select (mea_query context mea_id (in_statuses create_states)) t.meas))
    update_meas (has_id row.id) (set_status new_status)
    now ← utcnow env
    create_event env mea_id res_mea (in_status new_status) evt_create now "MEA creation completed"
    pure tt
