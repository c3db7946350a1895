-- ===== src/Mem/Mead.antt =====
-- db/mem/mem_db.py: MEADs, the descriptors from which MEAs are made.
pub mod Guard
use apmec.Prelude.{
  ℕ, String, Bool, Option, none, some, List, [], ◌∷◌, ◌++◌, ◌==◌, not, if◌then◌else◌,
}
use apmec.Constants.{na_state, onboarded, res_mead, evt_create, evt_update, evt_delete}
use apmec.Errors.{Result, ok, err, service_types_not_specified, mead_not_found, mead_in_use}
use apmec.Exec.{Exec, pure, raise, lift, ◌>>=◌, ◌>>◌, rescue}
use apmec.Table
use apmec.Dict.{Dict}
use apmec.Db.{Tables, Db, Env, Context, datetime_min, Mead, ServiceType, MeadAttribute, Mea}
use apmec.Session.{get_by_id, get_by_name, get_tenant_id_for_create}
use apmec.Session.{transaction, query, write, generate_uuid, utcnow, not_none, not_none_dict}
use apmec.Events.{create_event}
use apmec.Mem.MeadRow.{
  MeadDict, MeadRequest, MeadChanges, mead_columns, flush_meads, or_not_found, is_attr_set,
  given_list, or_default, make_mead_dict, as_duplicate,
}

abbrev or_old : {A : Type 0} → Option A → A → A
or_old none old = old
or_old (some new) old = new

abbrev apply_changes : MeadChanges → Option ℕ → Mead → Mead
apply_changes c now r = record r {
  name = or_old c.name r.name;
  description = elim c.description [ none ↦ r.description | some d ↦ some d ];
  updated_at = now;
}

abbrev has_id : String → Mead → Bool
has_id id r = r.id == id

-- the first MEA of the MEAD, of any tenant and also if it is deleted
abbrev pub check_unused : String → Tables → Result (Unit {0})
check_unused mead_id t = elim (Table.first (λ (r : Mea). r.mead_id == mead_id) t.meas) [
  | none ↦ ok tt
  | some r ↦ elim r.deleted_at [ none ↦ err (mead_in_use mead_id) | some _ ↦ ok tt ]
]

unfoldable pub remove_mead : String → Mead → Exec Db (Unit {0})
remove_mead mead_id row = write (λ t. record t {
  service_types = Table.delete (λ (s : ServiceType). s.mead_id == mead_id) t.service_types;
  mead_attributes = Table.delete (λ (a : MeadAttribute). a.mead_id == mead_id) t.mead_attributes;
  meads = Table.delete (has_id row.id) t.meads;
})

module _ (env : Env) where
  -- `_get_resource` with the model MEAD: an unknown id raises, an unknown name gives None
  unfoldable pub get_mead_resource : Context → String → Exec Db (Option Mead)
  get_mead_resource context id =
      if env.is_uuid_like id
      then query (λ t. or_not_found (mead_not_found id) (get_by_id mead_columns context id t.meads))
      else query (λ t. get_by_name mead_columns context id t.meads)

  unfoldable pub add_mead_attributes : String → Dict String → Exec Db (Unit {0})
  add_mead_attributes mead_id [] = pure tt
  add_mead_attributes mead_id ((key, value) ∷ rest) = do
    id ← generate_uuid env
    write (λ t. record t {
      mead_attributes =
          t.mead_attributes
          ++ (record { id = id; mead_id = mead_id; key = key; value = value } ∷ []);
    })
    add_mead_attributes mead_id rest

  unfoldable pub add_service_types : String → String → List String → Exec Db (Unit {0})
  add_service_types tenant_id mead_id [] = pure tt
  add_service_types tenant_id mead_id (service_type ∷ rest) = do
    id ← generate_uuid env
    write (λ t. record t {
      service_types =
          t.service_types
          ++ (record {
            id = id;
            tenant_id = tenant_id;
            mead_id = mead_id;
            service_type = service_type;
          }
              ∷ []);
    })
    add_service_types tenant_id mead_id rest

  insert_mead : String → MeadRequest → Exec Db Mead
  insert_mead tenant_id mead = do
    mead_id ← generate_uuid env
    created_at ← utcnow env
    let row : Mead = record {
      id = mead_id;
      tenant_id = tenant_id;
      name = mead.name;
      description = mead.description;
      mgmt_driver = mead.mgmt_driver;
      template_source = or_default "onboarded" mead.template_source;
      created_at = created_at;
      updated_at = none;
      deleted_at = some datetime_min;
    }
    flush_meads (λ rows. rows ++ (row ∷ []))
    add_mead_attributes mead_id mead.attributes
    add_service_types tenant_id mead_id (given_list mead.service_types)
    pure row

  unfoldable pub create_mead : Context → MeadRequest → Exec Db MeadDict
  unfolding insert_mead
  create_mead context mead = do
    tenant_id ← lift (get_tenant_id_for_create context mead.tenant_id)
    if not (is_attr_set mead.service_types) then raise service_types_not_specified else do
      row ← rescue (transaction (insert_mead tenant_id mead)) (as_duplicate "mead")
      mead_dict ← make_mead_dict row
      create_event env mead_dict.id res_mead onboarded evt_create mead_dict.created_at ""
      pure mead_dict

  unfoldable pub update_mead : Context → String → MeadChanges → Exec Db MeadDict
  update_mead context mead_id changes = transaction do
    found ← get_mead_resource context mead_id
    row ← lift (not_none found)
    now ← utcnow env
    flush_meads (Table.update (has_id row.id) (apply_changes changes (some now)))
    mead_dict ← make_mead_dict (apply_changes changes (some now) row)
    create_event env mead_dict.id res_mead na_state evt_update now ""
    pure mead_dict

  unfoldable pub soft_delete_mead : Mead → Exec Db (Unit {0})
  soft_delete_mead row = do
    now ← utcnow env
    flush_meads (Table.update (has_id row.id) (λ r. record r { deleted_at = some now }))
    create_event env row.id res_mead na_state evt_delete now ""
    pure tt

  unfoldable pub delete_mead : Context → String → Bool → Exec Db (Unit {0})
  unfolding soft_delete_mead remove_mead
  delete_mead context mead_id soft_delete = transaction do
    query (check_unused mead_id)
    found ← get_mead_resource context mead_id
    row ← lift (not_none found)
    if soft_delete then soft_delete_mead row else remove_mead mead_id row

  unfoldable get_mead : Context → String → Exec Db MeadDict
  get_mead context mead_id = do
    found ← get_mead_resource context mead_id
    row ← lift (not_none_dict found)
    make_mead_dict row
