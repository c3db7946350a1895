-- ===== src/Meo/Vim.antt =====
-- db/meo/meo_db_plugin.py: the operations on VIMs.
pub mod Keeps
pub mod Default
use apmec.Prelude.{
  ℕ, String, Bool, true, false, Option, none, some, List, [], ◌∷◌, ◌++◌, ◌&&◌, ◌==◌, if◌then◌else◌,
}
use apmec.Constants.{res_vim, in_vim_status, evt_create, evt_update, evt_delete}
use apmec.Errors.{Result, ok, err, vim_in_use}
use apmec.Exec.{Exec, pure, lift, ◌>>=◌, ◌>>◌, rescue}
use apmec.Table
use apmec.Dict.{Dict}
use apmec.Db.{Tables, Db, Env, Context, Mea, Vim, VimAuth, datetime_min}
use apmec.Session.{model_query, the_one, transaction, query, write, generate_uuid, utcnow}
use apmec.Events.{create_event}
use apmec.Mem.MeadRow.{as_duplicate}
use apmec.Mem.MeaRow.{mea_columns}
use apmec.Meo.VimRow.{
  VimDict, vim_columns, flush_vims, update_vims, with_vims, has_id, make_vim_dict, or_vim_not_found,
  get_vim_resource, validate_default_vim, pop_password, get_default,
}

-- The dict of a VIM to create, with the id and the status that the plugin has put into it.
pub record VimRequest : Type 0 where
  pub id : String
  pub type : String
  pub tenant_id : String
  pub name : String
  pub description : Option String
  pub placement_attr : String
  pub is_default : Bool
  pub status : String
  pub auth_url : String
  pub vim_project : String
  pub auth_cred : Dict String

-- The dict of an update, where an absent key is none.
pub record VimChanges : Type 0 where
  pub name : Option String
  pub description : Option (Option String)
  pub is_default : Option Bool
  pub placement_attr : Option String
  pub vim_project : String
  pub auth_cred : Dict String

abbrev pub or_else {ℓ} : {A : Type ℓ} → Option A → A → A
or_else none old = old
or_else (some new) old = new

-- vim.get('is_default')
abbrev pub wants_default : VimChanges → Bool
wants_default vim = or_else vim.is_default false

abbrev pub apply_changes : VimChanges → Vim → Vim
apply_changes vim r = record r {
  name = or_else vim.name r.name;
  description = or_else vim.description r.description;
  is_default = or_else vim.is_default r.is_default;
  placement_attr = or_else vim.placement_attr r.placement_attr;
}

abbrev pub row_of : VimRequest → ℕ → Vim
row_of vim created_at = record {
  id = vim.id;
  type = vim.type;
  tenant_id = vim.tenant_id;
  name = vim.name;
  description = vim.description;
  placement_attr = vim.placement_attr;
  shared = false;
  is_default = vim.is_default;
  status = vim.status;
  created_at = created_at;
  updated_at = none;
  deleted_at = some datetime_min;
}

module _ (env : Env) where
  unfoldable pub insert_vim : VimRequest → Exec Db Vim
  insert_vim vim = do
    auth_id ← generate_uuid env
    popped ← lift (pop_password vim.auth_cred)
    created_at ← utcnow env
    flush_vims (λ rows. rows ++ (row_of vim created_at ∷ []))
    write (λ t. record t {
      vim_auths =
          t.vim_auths
          ++ (record {
            id = auth_id;
            vim_id = vim.id;
            password = popped.0;
            auth_url = vim.auth_url;
            vim_project = vim.vim_project;
            auth_cred = popped.1;
          }
              ∷ []);
    })
    pure (row_of vim created_at)

  -- What follows the check of the default VIM.
  unfoldable pub add_vim : VimRequest → Exec Db VimDict
  add_vim vim = do
    row ← rescue (transaction (insert_vim vim)) (as_duplicate "vim")
    vim_dict ← make_vim_dict env true row
    create_event env vim_dict.id res_vim (in_vim_status vim_dict.status) evt_create
        vim_dict.created_at ""
    pure vim_dict

  unfoldable pub create_vim : Context → VimRequest → Exec Db VimDict
  create_vim context vim = do query (validate_default_vim context vim.is_default none); add_vim vim

  unfoldable pub soft_delete_vim : Vim → Exec Db (Unit {0})
  soft_delete_vim row = do
    now ← utcnow env
    flush_vims (Table.update (has_id row.id) (λ r. record r { deleted_at = some now }))
    create_event env row.id res_vim (in_vim_status row.status) evt_delete now ""
    pure tt

  unfoldable pub remove_vim : String → Vim → Exec Db (Unit {0})
  remove_vim vim_id row = do
    write (λ t. record t {
      vim_auths = Table.delete (λ (a : VimAuth). a.vim_id == vim_id) t.vim_auths;
    })
    write (with_vims (Table.delete (has_id row.id)))

  unfoldable pub delete_vim : Context → String → Bool → Exec Db (Unit {0})
  delete_vim context vim_id soft_delete = transaction do
    row ← query (get_vim_resource context vim_id)
    if soft_delete then soft_delete_vim row else remove_vim vim_id row

  unfoldable pub get_vim : Context → String → Bool → Exec Db VimDict
  get_vim context vim_id mask_password = do
    row ← query (get_vim_resource context vim_id)
    make_vim_dict env mask_password row

  -- The changes of an update, of a VIM that was found.
  unfoldable pub change_vim : String → VimChanges → Vim → Exec Db (Unit {0})
  change_vim vim_id vim row = do
    flush_vims (Table.update (has_id row.id) (apply_changes vim))
    auth ← query (λ t.
        or_vim_not_found vim_id
          (the_one (Table.select (λ (a : VimAuth). a.vim_id == vim_id) t.vim_auths)))
    popped ← lift (pop_password vim.auth_cred)
    write (λ t. record t {
      vim_auths =
          Table.update (λ (a : VimAuth). a.id == auth.id)
            (λ a. record a {
              auth_cred = popped.1;
              password = popped.0;
              vim_project = vim.vim_project;
            })
            t.vim_auths;
    })
    now ← utcnow env
    update_vims (has_id row.id) (λ r. record r { updated_at = some now })
    create_event env row.id res_vim (in_vim_status row.status) evt_update now ""
    pure tt

  unfoldable pub update_vim : Context → String → VimChanges → Exec Db VimDict
  update_vim context vim_id vim = do
    query (validate_default_vim context (wants_default vim) (some vim_id))
    transaction do row ← query (get_vim_resource context vim_id); change_vim vim_id vim row
    get_vim context vim_id true

  unfoldable pub update_vim_status : Context → String → String → Exec Db VimDict
  update_vim_status context vim_id status = do
    row ← transaction do
      found ← query (get_vim_resource context vim_id)
      now ← utcnow env
      update_vims (has_id found.id) (λ r. record r { status = status; updated_at = some now })
      pure (record found { status = status; updated_at = some now })
    make_vim_dict env true row

  unfoldable pub get_default_vim : Context → Exec Db VimDict
  get_default_vim context = do row ← query (get_default context); make_vim_dict env false row

-- the first MEA on the VIM that the context sees
abbrev pub in_use : Context → String → Tables → Result (Unit {0})
in_use context vim_id t =
    elim (Table.first (λ (r : Mea). model_query mea_columns context r && r.vim_id == vim_id)
      t.meas) [ none ↦ ok tt | some _ ↦ err (vim_in_use vim_id) ]

unfoldable pub is_vim_still_in_use : Context → String → Exec Db (Unit {0})
is_vim_still_in_use context vim_id = transaction (query (in_use context vim_id))
