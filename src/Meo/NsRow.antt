-- ===== src/Meo/NsRow.antt =====
-- db/meo/ns_db.py: the rows of NSDs and NSs, their keys and dicts.
use apmec.Prelude.{
  ℕ, String, Bool, false, Option, none, some, List, ◌&&◌, ◌||◌, ◌==◌, nat_eq, map, if◌then◌else◌,
}
use apmec.Constants.{Status}
use apmec.Errors.{
  Error, Result, ok, err, no_result_found, db_duplicate_entry, nsd_not_found, ns_not_found,
}
use apmec.Exec.{Exec, ◌>>◌}
use apmec.Table
use apmec.Dict.{Dict, of_pairs}
use apmec.Db.{Tables, Db, Context, Nsd, NsdAttribute, Ns}
use apmec.Session.{Columns, model_query, get_by_id, query, write, has_clash}

abbrev nsd_columns : Columns Nsd
nsd_columns = record {
  id = λ r. r.id;
  name = λ r. r.name;
  tenant_id = some (λ r. r.tenant_id);
  shared = none;
  deleted_at = some (λ r. r.deleted_at);
}

abbrev pub ns_columns : Columns Ns
ns_columns = record {
  id = λ r. r.id;
  name = λ r. r.name;
  tenant_id = some (λ r. r.tenant_id);
  shared = none;
  deleted_at = some (λ r. r.deleted_at);
}

-- The keys of the migrated tables: `id`, and the tenant, the name and `deleted_at`, which the
-- migration e7993093baf1 has added and the models leave out; two NULLs differ
abbrev same_deleted : Option ℕ → Option ℕ → Bool
same_deleted (some a) (some b) = nat_eq a b
same_deleted _ _ = false

abbrev pub nsd_clashes : Nsd → Nsd → Bool
nsd_clashes a b =
    a.id == b.id
    || a.tenant_id == b.tenant_id && (a.name == b.name && same_deleted a.deleted_at b.deleted_at)

abbrev ns_clashes : Ns → Ns → Bool
ns_clashes a b =
    a.id == b.id
    || a.tenant_id == b.tenant_id && (a.name == b.name && same_deleted a.deleted_at b.deleted_at)

abbrev checked_nsds : (List Nsd → List Nsd) → Tables → Result (Unit {0})
checked_nsds f t = if has_clash nsd_clashes (f t.nsds) then err db_duplicate_entry else ok tt

abbrev checked_nss : (List Ns → List Ns) → Tables → Result (Unit {0})
checked_nss f t = if has_clash ns_clashes (f t.nss) then err db_duplicate_entry else ok tt

abbrev pub with_nsds : (List Nsd → List Nsd) → Tables → Tables
with_nsds f t = record t { nsds = f t.nsds }

abbrev pub with_nss : (List Ns → List Ns) → Tables → Tables
with_nss f t = record t { nss = f t.nss }

-- Writes that the keys of the tables refuse or let through.
unfoldable pub flush_nsds : (List Nsd → List Nsd) → Exec Db (Unit {0})
flush_nsds f = do query (checked_nsds f); write (with_nsds f)

unfoldable pub flush_nss : (List Ns → List Ns) → Exec Db (Unit {0})
flush_nss f = do query (checked_nss f); write (with_nss f)

-- Writes that leave the columns of the keys as they are.
unfoldable pub update_nsds : (Nsd → Bool) → (Nsd → Nsd) → Exec Db (Unit {0})
update_nsds p f = write (with_nsds (Table.update p f))

unfoldable pub update_nss : (Ns → Bool) → (Ns → Ns) → Exec Db (Unit {0})
update_nss p f = write (with_nss (Table.update p f))

-- What `_make_nsd_dict` returns.
pub record NsdDict : Type 0 where
  pub attributes : Dict String
  pub id : String
  pub tenant_id : String
  pub name : String
  pub description : Option String
  pub created_at : ℕ
  pub updated_at : Option ℕ
  pub meads : String
  pub template_source : String

-- `_make_nsd_dict`, of the row and the rows of its relationship
unfoldable pub make_nsd_dict : Nsd → Exec Db NsdDict
make_nsd_dict r = query (λ t. ok (record {
  attributes = of_pairs (
      map (λ (a : NsdAttribute). (a.key, a.value))
        (Table.select (λ (a : NsdAttribute). a.nsd_id == r.id) t.nsd_attributes));
  id = r.id;
  tenant_id = r.tenant_id;
  name = r.name;
  description = r.description;
  created_at = r.created_at;
  updated_at = r.updated_at;
  meads = r.meads;
  template_source = r.template_source;
}))

-- What `_make_ns_dict` returns.
pub record NsDict : Type 0 where
  pub id : String
  pub tenant_id : String
  pub nsd_id : String
  pub name : String
  pub description : Option String
  pub mea_ids : Option (Dict String)
  pub status : Status
  pub mgmt_urls : Option (Dict String)
  pub error_reason : Option String
  pub vim_id : String
  pub created_at : ℕ
  pub updated_at : Option ℕ

abbrev pub make_ns_dict : Ns → NsDict
make_ns_dict r = record {
  id = r.id;
  tenant_id = r.tenant_id;
  nsd_id = r.nsd_id;
  name = r.name;
  description = r.description;
  mea_ids = r.mea_ids;
  status = r.status;
  mgmt_urls = r.mgmt_urls;
  error_reason = r.error_reason;
  vim_id = r.vim_id;
  created_at = r.created_at;
  updated_at = r.updated_at;
}

-- except NoResultFound: raise missing
abbrev pub or_missing : {A : Type 0} → Error → Result A → Result A
or_missing missing (ok a) = ok a
or_missing missing (err no_result_found) = err missing
or_missing missing (err e) = err e

-- `_get_resource`, with the models NSD and NS
abbrev pub get_nsd_resource : Context → String → Tables → Result Nsd
get_nsd_resource context id t =
    or_missing (nsd_not_found id) (get_by_id nsd_columns context id t.nsds)

abbrev pub get_ns_resource : Context → String → Tables → Result Ns
get_ns_resource context id t = or_missing (ns_not_found id) (get_by_id ns_columns context id t.nss)

-- self._model_query(context, NS).filter(NS.id == ns_id).filter(p)
abbrev pub ns_query : Context → String → (Status → Bool) → Ns → Bool
ns_query context ns_id p r = (model_query ns_columns context r && r.id == ns_id) && p r.status

abbrev pub set_status : Status → Ns → Ns
set_status status r = record r { status = status }
