-- ===== src/Meo/VimRow.antt =====
-- db/meo/meo_db_plugin.py and db/meo/meo_db.py: the rows of VIMs, their keys and dicts.
use apmec.Prelude.{
  ℕ, String, Bool, false, Option, none, some, List, ◌&&◌, ◌||◌, ◌==◌, not, if◌then◌else◌,
}
use apmec.Errors.{
  Result, ok, err, no_result_found, db_duplicate_entry, key_error, index_error, vim_not_found,
  vim_default_duplicate,
}
use apmec.Exec.{Exec, ◌>>◌}
use apmec.Table
use apmec.Dict.{Dict, lookup, insert, erase}
use apmec.Db.{Tables, Db, Env, Context, Vim, VimAuth}
use apmec.Session.{Columns, model_query, get_by_id, the_one, query, write, has_clash}
use apmec.Mem.MeadRow.{same_time}

abbrev pub vim_columns : Columns Vim
vim_columns = record {
  id = λ r. r.id;
  name = λ r. r.name;
  tenant_id = some (λ r. r.tenant_id);
  shared = some (λ r. r.shared);
  deleted_at = some (λ r. r.deleted_at);
}

-- The keys of the table: `id`, and `uniq_vim0tenant_id0name0deleted_at`
abbrev pub vim_clashes : Vim → Vim → Bool
vim_clashes a b =
    a.id == b.id
    || a.tenant_id == b.tenant_id && a.name == b.name && same_time a.deleted_at b.deleted_at

abbrev pub with_vims : (List Vim → List Vim) → Tables → Tables
with_vims f t = record t { vims = f t.vims }

abbrev checked_vims : (List Vim → List Vim) → Tables → Result (Unit {0})
checked_vims f t = if has_clash vim_clashes (f t.vims) then err db_duplicate_entry else ok tt

-- A write that the keys of the table refuse or let through.
unfoldable pub flush_vims : (List Vim → List Vim) → Exec Db (Unit {0})
flush_vims f = do query (checked_vims f); write (with_vims f)

-- A write that leaves the columns of the keys as they are.
unfoldable pub update_vims : (Vim → Bool) → (Vim → Vim) → Exec Db (Unit {0})
update_vims p f = write (with_vims (Table.update p f))

abbrev pub has_id : String → Vim → Bool
has_id id r = r.id == id

-- What `_make_vim_dict` returns.
pub record VimDict : Type 0 where
  pub id : String
  pub type : String
  pub tenant_id : String
  pub name : String
  pub description : Option String
  pub placement_attr : String
  pub shared : Bool
  pub is_default : Bool
  pub created_at : ℕ
  pub updated_at : Option ℕ
  pub status : String
  pub auth_url : String
  pub vim_project : String
  pub auth_cred : Dict String

abbrev masked : Env → Bool → Dict String → Dict String
masked env mask_password auth_cred =
    if mask_password then env.mask_dict_password auth_cred else auth_cred

abbrev vim_dict : Env → Bool → Vim → VimAuth → VimDict
vim_dict env mask_password r auth = record {
  id = r.id;
  type = r.type;
  tenant_id = r.tenant_id;
  name = r.name;
  description = r.description;
  placement_attr = r.placement_attr;
  shared = r.shared;
  is_default = r.is_default;
  created_at = r.created_at;
  updated_at = r.updated_at;
  status = r.status;
  auth_url = auth.auth_url;
  vim_project = auth.vim_project;
  auth_cred = masked env mask_password (insert "password" auth.password auth.auth_cred);
}

abbrev dict_of_vim : Env → Bool → Vim → Tables → Result VimDict
dict_of_vim env mask_password r t =
    elim (Table.first (λ (a : VimAuth). a.vim_id == r.id) t.vim_auths) [
      | none ↦ err index_error
      | some auth ↦ ok (vim_dict env mask_password r auth)
    ]

-- `_make_vim_dict`, with the first row of the relationship `vim_auth`
unfoldable pub make_vim_dict : Env → Bool → Vim → Exec Db VimDict
make_vim_dict env mask_password r = query (dict_of_vim env mask_password r)

-- `_get_resource` with the model Vim
abbrev pub or_vim_not_found : {A : Type 0} → String → Result A → Result A
or_vim_not_found id (ok a) = ok a
or_vim_not_found id (err no_result_found) = err (vim_not_found id)
or_vim_not_found id (err e) = err e

abbrev pub get_vim_resource : Context → String → Tables → Result Vim
get_vim_resource context id t = or_vim_not_found id (get_by_id vim_columns context id t.vims)

-- The default VIMs that a query of the context sees.
abbrev pub is_default_seen : Context → Vim → Bool
is_default_seen context r = model_query vim_columns context r && r.is_default

-- `_get_default_vim`
abbrev pub get_default : Context → Tables → Result Vim
get_default context t = the_one (Table.select (is_default_seen context) t.vims)

abbrev pub same_vim : Option String → String → Bool
same_vim none id = false
same_vim (some vim_id) id = vim_id == id

abbrev pub unless_other : Option String → Result Vim → Result (Unit {0})
unless_other vim_id (err no_result_found) = ok tt
unless_other vim_id (err e) = err e
unless_other vim_id (ok r) =
    if same_vim vim_id r.id then ok tt else err (vim_default_duplicate r.id)

-- `_validate_default_vim`
abbrev pub validate_default_vim : Context → Bool → Option String → Tables → Result (Unit {0})
validate_default_vim context is_default vim_id t =
    if not is_default then ok tt else unless_other vim_id (get_default context t)

-- vim_cred.pop('password')
abbrev pub pop_password : Dict String → Result (String × Dict String)
pop_password vim_cred = elim (lookup "password" vim_cred) [
  | none ↦ err key_error
  | some password ↦ ok (password, erase "password" vim_cred)
]
