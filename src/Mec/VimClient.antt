-- ===== src/Mec/VimClient.antt =====
-- mem/vim_client.py, and `get_vim` and `_get_infra_driver` of mem/plugin.py: the VIM of a MEA.
use apmec.Prelude.{String, Bool, false, Option, none, some, any, ◌==◌, ◌&&◌, not, if◌then◌else◌}
use apmec.Errors.{vim_default_not_defined, vim_not_found, vim_region_not_found}
use apmec.Exec.{Exec, pure, raise, rescue, ◌>>=◌}
use apmec.Dict.{Dict, insert, erase}
use apmec.Db.{Env, Context}
use apmec.Mem.MeaRow.{MeaDict}
use apmec.Meo.VimRow.{VimDict}
use apmec.Meo.Vim.{get_default_vim}
use apmec.Meo.Vim
use apmec.Mec.World.{World, Drivers, on_db, call}

-- What `VimClient.get_vim` returns.
pub record VimRes : Type 0 where
  pub vim_auth : Dict String
  pub vim_id : String
  pub vim_name : String
  pub vim_type : String

-- `_build_vim_auth`, with the decrypted password
abbrev vim_auth_of : VimDict → String → Dict String
vim_auth_of vim_info password = erase "secret_uuid" (
    erase "key_type"
      (insert "auth_url" vim_info.auth_url (insert "password" password vim_info.auth_cred)))

module _ (env : Env) (drv : Drivers) where
  unfoldable pub find_vim : Context → String → Exec World VimDict
  find_vim context vim_id =
      if vim_id == ""
      then rescue (on_db (get_default_vim env context)) (λ _. raise vim_default_not_defined)
      else rescue (on_db (Vim.get_vim env context vim_id false)) (λ _. raise (vim_not_found vim_id))

  -- `region_name and not self.region_valid(...)`
  abbrev is_bad_region : VimDict → Option String → Bool
  is_bad_region vim_info none = false
  is_bad_region vim_info (some region_name) =
      not (region_name == "")
      && not (any (λ r. r == region_name) (drv.regions_of vim_info.placement_attr))

  abbrev region_text : Option String → String
  region_text none = ""
  region_text (some region_name) = region_name

  -- `VimClient.get_vim`
  unfoldable pub client_get_vim : Context → String → Option String → Exec World VimRes
  unfolding find_vim
  client_get_vim context vim_id region_name = do
    vim_info ← find_vim context vim_id
    if is_bad_region vim_info region_name
        then raise (vim_region_not_found (region_text region_name))
        else do
          password ← call (λ n. drv.decode n vim_info.id vim_info.auth_cred)
          pure (record {
            vim_auth = vim_auth_of vim_info password;
            vim_id = vim_info.id;
            vim_name = vim_info.name;
            vim_type = vim_info.type;
          })

  -- `_get_infra_driver` with `get_vim`: the VIM of a MEA, and the MEA with what is written into it
  unfoldable pub get_infra_driver : Context → MeaDict → Exec World (VimRes × MeaDict)
  get_infra_driver context mea = do
    vim_res ← client_get_vim context mea.vim_id (drv.region_of mea.placement_attr)
    pure (
      vim_res,
      record mea {
        vim_id = vim_res.vim_id;
        placement_attr = drv.with_vim_name mea.placement_attr vim_res.vim_name;
      },
    )
