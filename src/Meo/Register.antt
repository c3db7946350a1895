-- ===== src/Meo/Register.antt =====
-- meo/meo_plugin.py: the VIMs, between the drivers that register them and their tables.
pub mod Refuses
pub mod Default
use apmec.Prelude.{ℕ, ◌+◌, String, Bool, true, false, Option, none, some, ◌==◌, if◌then◌else◌}
use apmec.Errors.{Error, Result, ok, err, key_error}
use apmec.Exec.{Exec, pure, raise, rescue, ◌>>=◌, ◌>>◌}
use apmec.Dict.{Dict, lookup, contains, update}
use apmec.Db.{Env, Context}
use apmec.Session.{generate_uuid}
use apmec.Meo.VimRow.{VimDict}
use apmec.Meo.Vim.{VimRequest, VimChanges, or_else, is_vim_still_in_use}
use apmec.Meo.Vim
use apmec.Mec.World.{World, on_db, call}

-- What a driver sees of the dict of a VIM, and may write into.
pub record VimObj : Type 0 where
  pub id : String
  pub type : String
  pub placement_attr : String
  pub auth_url : String
  pub vim_project : String
  pub auth_cred : Dict String

-- The drivers of VIMs; the number tells calls apart.
pub record VimDrivers : Type 0 where
  pub knows : String → Bool
  pub register_vim : ℕ → VimObj → Result (Unit {0}) × VimObj
  pub deregister_vim : ℕ → VimObj → Result (Unit {0})
  pub delete_vim_auth : ℕ → String → Dict String → Result (Unit {0})

-- The dict of an update, where an absent key is none.
pub record VimUpdate : Type 0 where
  pub name : Option String
  pub description : Option (Option String)
  pub is_default : Option Bool
  pub placement_attr : Option String
  pub vim_project : Option String
  pub auth_cred : Option (Dict String)

abbrev obj_of_request : VimRequest → VimObj
obj_of_request vim = record {
  id = vim.id;
  type = vim.type;
  placement_attr = vim.placement_attr;
  auth_url = vim.auth_url;
  vim_project = vim.vim_project;
  auth_cred = vim.auth_cred;
}

abbrev with_obj : VimRequest → VimObj → VimRequest
with_obj vim vim_obj = record vim {
  placement_attr = vim_obj.placement_attr;
  auth_url = vim_obj.auth_url;
  auth_cred = vim_obj.auth_cred;
}

abbrev merged_cred : Dict String → Option (Dict String) → Dict String
merged_cred old none = old
merged_cred old (some new) = update old new

-- utils.deep_update(vim_obj, vim['vim']), of what a driver sees
abbrev updated_obj : VimDict → VimUpdate → VimObj
updated_obj old vim = record {
  id = old.id;
  type = old.type;
  placement_attr = or_else vim.placement_attr old.placement_attr;
  auth_url = old.auth_url;
  vim_project = or_else vim.vim_project old.vim_project;
  auth_cred = merged_cred old.auth_cred vim.auth_cred;
}

-- and of the rest, with what the driver has made of it: the dict has all keys
abbrev changes_of : VimDict → VimUpdate → VimObj → VimChanges
changes_of old vim vim_obj = record {
  name = some (or_else vim.name old.name);
  description = some (or_else vim.description old.description);
  is_default = some (or_else vim.is_default old.is_default);
  placement_attr = some vim_obj.placement_attr;
  vim_project = vim_obj.vim_project;
  auth_cred = vim_obj.auth_cred;
}

abbrev has_password : Option (Dict String) → Bool
has_password none = false
has_password (some auth_cred) = contains "password" auth_cred

-- auth_cred.get('key_type') == 'barbican_key'
abbrev in_barbican : Dict String → Bool
in_barbican auth_cred = elim (lookup "key_type" auth_cred) [
  | none ↦ false
  | some t ↦ t == "barbican_key"
]

unfoldable pub attempt : {A : Type 0} → (ℕ → A) → Exec World A
attempt f w = (ok (f w.calls), record w { calls = w.calls + 1 })

module _ (env : Env) (vims : VimDrivers) where
  unfoldable pub register : VimObj → Exec World (Result (Unit {0}) × VimObj)
  register vim_obj =
      if vims.knows vim_obj.type
      then attempt (λ n. vims.register_vim n vim_obj)
      else pure (err key_error, vim_obj)

  unfoldable pub delete_auth : String → String → Dict String → Exec World (Unit {0})
  delete_auth type id auth_cred =
      if vims.knows type then call (λ n. vims.delete_vim_auth n id auth_cred) else raise key_error

  unfoldable pub forget : {A : Type 0} → VimRequest → Error → Exec World A
  unfolding delete_auth
  forget vim e = do delete_auth vim.type vim.id vim.auth_cred; raise e

  abbrev pub store : Context → VimRequest → Result (Unit {0}) → Exec World VimDict
  store context vim (ok _) = rescue (on_db (Vim.create_vim env context vim)) (forget vim)
  store context vim (err e) = forget vim e

  -- `create_vim`; what `monitor_vim` raises is caught, and it leaves the tables alone
  unfoldable pub create_vim : Context → VimRequest → Exec World VimDict
  unfolding register forget
  create_vim context given = do
    id ← on_db (generate_uuid env)
    let vim : VimRequest = record given { id = id; status = "PENDING" }
    registered ← register (obj_of_request vim)
    store context (with_obj vim registered.1) registered.0

  -- `_get_vim`
  unfoldable pub get_unused_vim : Context → String → Exec World VimDict
  get_unused_vim context vim_id = do
    on_db (is_vim_still_in_use context vim_id)
    on_db (Vim.get_vim env context vim_id false)

  unfoldable pub discard : {A : Type 0} → VimObj → Error → Exec World A
  unfolding delete_auth
  discard vim_obj e = do delete_auth vim_obj.type vim_obj.id vim_obj.auth_cred; raise e

  -- The new credentials are stored, or deleted where that raises; old ones in barbican are deleted.
  abbrev pub restore :
      Context → String → VimDict → VimUpdate → Result (Unit {0}) × VimObj → Exec World VimDict
  restore context vim_id old vim (err e, vim_obj) = raise e
  restore context vim_id old vim (ok _, vim_obj) = do
    vim_dict ←
        rescue (on_db (Vim.update_vim env context vim_id (changes_of old vim vim_obj)))
          (discard vim_obj)
    if in_barbican old.auth_cred
        then rescue (delete_auth old.type old.id old.auth_cred) (λ e. pure tt)
        else pure tt
    pure vim_dict

  -- `update_vim`
  unfoldable pub update_vim : Context → String → VimUpdate → Exec World VimDict
  unfolding get_unused_vim register discard
  update_vim context vim_id vim = do
    old ← get_unused_vim context vim_id
    if has_password vim.auth_cred
        then (do
          registered ← register (updated_obj old vim)
          restore context vim_id old vim registered)
        else on_db (Vim.update_vim env context vim_id (changes_of old vim (updated_obj old vim)))

  unfoldable pub deregister : VimObj → Exec World (Unit {0})
  deregister vim_obj =
      if vims.knows vim_obj.type then call (λ n. vims.deregister_vim n vim_obj) else raise key_error

  -- `delete_vim`; what the removal of the monitor raises is caught
  unfoldable pub delete_vim : Context → String → Exec World (Unit {0})
  unfolding get_unused_vim deregister
  delete_vim context vim_id = do
    vim_obj ← get_unused_vim context vim_id
    deregister (record {
      id = vim_obj.id;
      type = vim_obj.type;
      placement_attr = vim_obj.placement_attr;
      auth_url = vim_obj.auth_url;
      vim_project = vim_obj.vim_project;
      auth_cred = vim_obj.auth_cred;
    })
    on_db (Vim.delete_vim env context vim_id true)
