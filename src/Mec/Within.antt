-- ===== src/Mec/Within.antt =====
-- mem/plugin.py: every method and every spawned function reaches the table `mea` through the
-- operations of the database plugin only.
pub mod Policies
pub mod Create
pub mod Act
pub mod React
use apmec.Prelude.{String, Bool, true, false, Option, none, some, List, [], ◌∷◌}
use apmec.Constants.{Status}
use apmec.Errors.{Error, Result, ok, err, mgmt_driver_exception}
use apmec.Exec.{Exec}
use apmec.Dict.{Dict}
use apmec.Db.{Env, Context}
use apmec.Session.Moves.{Preorder}
use apmec.Mem.Change.{mea_moves}
use apmec.Mem.Mea.Any.{any_rule}
use apmec.Mem.MeaRow.{MeaDict}
use apmec.Mec.World.{World, Drivers, Driven, MgmtCall}
use apmec.Mec.Moves.{Shifts, Shifts-on_db, Shifts-bind, shifts_rules}
use apmec.Mec.Database.{database}
use apmec.Mec.VimClient.{find_vim, client_get_vim, get_infra_driver}
use apmec.Mec.Update.{
  and_then, reraise, manage, try_mgmt, try_update, undo_update, finish_update, update_mea,
  after_update, try_update_wait, wait_update,
}
use apmec.Mec.Delete.{
  infra_delete, try_delete, undo_delete, finish_delete, delete_mea, try_delete_wait, after_delete,
  wait_delete,
}

abbrev pub plugin_moves : Preorder
plugin_moves = mea_moves any_rule

module _ (env : Env) (drv : Drivers) (context : Context) where
  find_vim-Shifts : (vim_id : String) → Shifts plugin_moves (find_vim env drv context vim_id)
  unfolding find_vim
  find_vim-Shifts vim_id = search (shifts_rules, database) depth 8

  pub client_get_vim-Shifts :
      (vim_id : String) (region_name : Option String)
      → Shifts plugin_moves (client_get_vim env drv context vim_id region_name)
  unfolding client_get_vim
  client_get_vim-Shifts vim_id region_name = search (shifts_rules, find_vim-Shifts) depth 8

  pub get_infra_driver-Shifts :
      (mea : MeaDict) → Shifts plugin_moves (get_infra_driver env drv context mea)
  unfolding get_infra_driver
  get_infra_driver-Shifts mea = search (shifts_rules, client_get_vim-Shifts) depth 8

  reraise-Shifts : (driven : Driven (Unit {0})) → Shifts plugin_moves (reraise driven)
  reraise-Shifts (ok _, d) = search shifts_rules
  reraise-Shifts (err e, d) = search shifts_rules

  pub manage-Shifts :
      (method : MgmtCall) (mea_dict : MeaDict)
      → Shifts plugin_moves (manage env drv method mea_dict)
  unfolding manage
  manage-Shifts method mea_dict = search (shifts_rules, reraise-Shifts) depth 8

  pub try_mgmt-Shifts :
      (method : MgmtCall) (mea_dict : MeaDict)
      → Shifts plugin_moves (try_mgmt env drv method mea_dict)
  unfolding try_mgmt
  try_mgmt-Shifts method mea_dict = search shifts_rules

  and_then-Shifts :
      (next : MeaDict → Exec World (Driven (Unit {0}))) (driven : Driven (Unit {0}))
      → ((d : MeaDict) → Shifts plugin_moves (next d))
      → Shifts plugin_moves (and_then next driven)
  and_then-Shifts next (ok _, d) h = h d
  and_then-Shifts next (err e, d) h = search shifts_rules

  undo_update-Shifts :
      (mea_id : String) (e : Error) (d : MeaDict)
      → Shifts plugin_moves (undo_update env drv context mea_id e d)
  unfolding undo_update
  undo_update-Shifts mea_id e d = search (shifts_rules, database, manage-Shifts) depth 12

  finish_update-Shifts :
      (mea_id : String) (auth : Dict String) (name : String) (driven : Driven (Unit {0}))
      → Shifts plugin_moves (finish_update env drv context mea_id auth name driven)
  finish_update-Shifts mea_id auth name (ok _, d) = search shifts_rules depth 8
  finish_update-Shifts mea_id auth name (err e, d) = undo_update-Shifts mea_id e d

  try_update-Shifts :
      (attributes auth : Dict String) (name : String) (d : MeaDict)
      → Shifts plugin_moves (try_update env drv attributes auth name d)
  unfolding try_update
  try_update-Shifts attributes auth name d = search (shifts_rules, and_then-Shifts) depth 8

  pub update_mea-Shifts :
      (mea_id : String) (attributes : Dict String)
      → Shifts plugin_moves (update_mea env drv context mea_id attributes)
  unfolding update_mea
  update_mea-Shifts mea_id attributes =
      search
        (shifts_rules, database, get_infra_driver-Shifts, try_update-Shifts, finish_update-Shifts)
        depth 12

  after_update-Shifts :
      (driven : Driven (Unit {0})) → Shifts plugin_moves (after_update env drv context driven)
  after_update-Shifts (ok _, d) = search shifts_rules
  after_update-Shifts (err e, d) = go e
    where
      go : (e : Error) → Shifts plugin_moves (after_update env drv context (err e, d))
      go (mgmt_driver_exception reason) = search (shifts_rules, database) depth 8
      go _ = search shifts_rules

  try_update_wait-Shifts :
      (auth : Dict String) (name : String) (d : MeaDict)
      → Shifts plugin_moves (try_update_wait env drv auth name d)
  unfolding try_update_wait
  try_update_wait-Shifts auth name d = search (shifts_rules, and_then-Shifts) depth 8

  pub wait_update-Shifts :
      (d : MeaDict) (auth : Dict String) (name : String)
      → Shifts plugin_moves (wait_update env drv context d auth name)
  unfolding wait_update
  wait_update-Shifts d auth name =
      search (shifts_rules, database, try_update_wait-Shifts, after_update-Shifts, manage-Shifts)
        depth 12

  infra_delete-Shifts :
      (auth : Dict String) (name : String) (d : MeaDict)
      → Shifts plugin_moves (infra_delete env drv auth name d)
  unfolding infra_delete
  infra_delete-Shifts auth name d = search shifts_rules

  try_delete-Shifts :
      (auth : Dict String) (name : String) (d : MeaDict)
      → Shifts plugin_moves (try_delete env drv auth name d)
  unfolding try_delete
  try_delete-Shifts auth name d =
      search (shifts_rules, try_mgmt-Shifts, and_then-Shifts, infra_delete-Shifts) depth 8

  undo_delete-Shifts :
      (e : Error) (d : MeaDict) → Shifts plugin_moves (undo_delete env drv context e d)
  unfolding undo_delete
  undo_delete-Shifts e d = search (shifts_rules, database, manage-Shifts) depth 12

  finish_delete-Shifts :
      (auth : Dict String) (name : String) (driven : Driven (Unit {0}))
      → Shifts plugin_moves (finish_delete env drv context auth name driven)
  finish_delete-Shifts auth name (ok _, d) = search shifts_rules
  finish_delete-Shifts auth name (err e, d) = undo_delete-Shifts e d

  pub delete_mea-Shifts :
      (mea_id : String) → Shifts plugin_moves (delete_mea env drv context mea_id)
  unfolding delete_mea
  delete_mea-Shifts mea_id =
      search
        (shifts_rules, database, get_infra_driver-Shifts, try_delete-Shifts, finish_delete-Shifts)
        depth 12

  after_delete-Shifts :
      (driven : Driven (Unit {0})) → Shifts plugin_moves (after_delete env drv context driven)
  after_delete-Shifts (ok _, d) = search shifts_rules
  after_delete-Shifts (err e, d) = search (shifts_rules, database) depth 8

  try_delete_wait-Shifts :
      (auth : Dict String) (name : String) (d : MeaDict)
      → Shifts plugin_moves (try_delete_wait env drv auth name d)
  unfolding try_delete_wait
  try_delete_wait-Shifts auth name d = search shifts_rules

  pub wait_delete-Shifts :
      (d : MeaDict) (auth : Dict String) (name : String)
      → Shifts plugin_moves (wait_delete env drv context d auth name)
  unfolding wait_delete
  wait_delete-Shifts d auth name =
      search (shifts_rules, database, try_delete_wait-Shifts, after_delete-Shifts, manage-Shifts)
        depth 12
