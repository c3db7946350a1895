-- ===== src/Meo/Nsd.antt =====
-- db/meo/ns_db.py: the operations on NSDs.
pub mod Names
use apmec.Prelude.{ℕ, String, Bool, Option, none, some, List, [], ◌∷◌, ◌++◌, ◌==◌, if◌then◌else◌}
use apmec.Constants.{onboarded, na_state, res_nsd, evt_create, evt_delete}
use apmec.Errors.{Result, ok, err, nsd_in_use}
use apmec.Exec.{Exec, pure, lift, ◌>>=◌, ◌>>◌, rescue}
use apmec.Table
use apmec.Dict.{Dict}
use apmec.Db.{Tables, Db, Env, Context, Nsd, NsdAttribute, Ns, datetime_min}
use apmec.Session.{get_tenant_id_for_create, transaction, query, write, generate_uuid, utcnow}
use apmec.Events.{create_event}
use apmec.Mem.MeadRow.{as_duplicate, or_default}
use apmec.Meo.NsRow.{NsdDict, flush_nsds, update_nsds, with_nsds, make_nsd_dict, get_nsd_resource}

-- The body of a POST, with the text of the MEADs that the template names.
pub record NsdRequest : Type 0 where
  pub tenant_id : Option String
  pub name : String
  pub description : Option String
  pub template_source : Option String
  pub attributes : Dict String
  pub meads : String

abbrev pub nsd_row : NsdRequest → String → String → ℕ → Nsd
nsd_row nsd nsd_id tenant_id created_at = record {
  id = nsd_id;
  tenant_id = tenant_id;
  name = nsd.name;
  description = nsd.description;
  meads = nsd.meads;
  template_source = or_default "onboarded" nsd.template_source;
  created_at = created_at;
  updated_at = none;
  deleted_at = some datetime_min;
}

abbrev pub has_id : String → Nsd → Bool
has_id id r = r.id == id

-- the first NS of the NSD, of any tenant and also if it is deleted
abbrev pub check_unused : String → Tables → Result (Unit {0})
check_unused nsd_id t = elim (Table.first (λ (r : Ns). r.nsd_id == nsd_id) t.nss) [
  | none ↦ ok tt
  | some r ↦ elim r.deleted_at [ none ↦ err (nsd_in_use nsd_id) | some _ ↦ ok tt ]
]

module _ (env : Env) where
  unfoldable pub add_nsd_attributes : String → Dict String → Exec Db (Unit {0})
  add_nsd_attributes nsd_id [] = pure tt
  add_nsd_attributes nsd_id ((key, value) ∷ rest) = do
    id ← generate_uuid env
    write (λ t. record t {
      nsd_attributes =
          t.nsd_attributes ++ (record { id = id; nsd_id = nsd_id; key = key; value = value } ∷ []);
    })
    add_nsd_attributes nsd_id rest

  unfoldable pub insert_nsd : String → NsdRequest → Exec Db Nsd
  insert_nsd tenant_id nsd = do
    nsd_id ← generate_uuid env
    created_at ← utcnow env
    flush_nsds (λ rows. rows ++ (nsd_row nsd nsd_id tenant_id created_at ∷ []))
    add_nsd_attributes nsd_id nsd.attributes
    pure (nsd_row nsd nsd_id tenant_id created_at)

  unfoldable pub create_nsd : Context → NsdRequest → Exec Db NsdDict
  create_nsd context nsd = do
    tenant_id ← lift (get_tenant_id_for_create context nsd.tenant_id)
    row ← rescue (transaction (insert_nsd tenant_id nsd)) (as_duplicate "nsd")
    nsd_dict ← make_nsd_dict row
    create_event env nsd_dict.id res_nsd onboarded evt_create nsd_dict.created_at ""
    pure nsd_dict

  unfoldable pub soft_delete_nsd : Nsd → Exec Db (Unit {0})
  soft_delete_nsd row = do
    now ← utcnow env
    flush_nsds (Table.update (has_id row.id) (λ r. record r { deleted_at = some now }))
    create_event env row.id res_nsd na_state evt_delete now ""
    pure tt

  unfoldable pub remove_nsd : String → Nsd → Exec Db (Unit {0})
  remove_nsd nsd_id row = do
    write (λ t. record t {
      nsd_attributes = Table.delete (λ (a : NsdAttribute). a.nsd_id == nsd_id) t.nsd_attributes;
    })
    write (with_nsds (Table.delete (has_id row.id)))

  unfoldable pub delete_nsd : Context → String → Bool → Exec Db (Unit {0})
  delete_nsd context nsd_id soft_delete = transaction do
    query (check_unused nsd_id)
    row ← query (get_nsd_resource context nsd_id)
    if soft_delete then soft_delete_nsd row else remove_nsd nsd_id row

unfoldable get_nsd : Context → String → Exec Db NsdDict
get_nsd context nsd_id = do row ← query (get_nsd_resource context nsd_id); make_nsd_dict row
