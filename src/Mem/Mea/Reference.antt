-- ===== src/Mem/Mea/Reference.antt =====
-- db/mem/mem_db.py: the reference operations, which run the steps of Create, Update and Delete with
-- nothing between them, and the reads.
use apmec.Prelude.{String, Bool, false, none, some}
use apmec.Constants.{active}
use apmec.Exec.{Exec, pure, lift, ◌>>=◌, ◌>>◌}
use apmec.Db.{Db, Env, Context}
use apmec.Session.{generate_uuid, not_none}
use apmec.Mem.MeaRow.{MeaDict, get_mea_resource, make_mea_dict}
use apmec.Mem.Mea.Create.{MeaRequest, create_mea_pre, create_mea_post, create_mea_status}
use apmec.Mem.Mea.Update.{update_mea_pre, update_mea_post}
use apmec.Mem.Mea.Delete.{delete_mea_pre, delete_mea_post}

module _ (env : Env) where
  unfoldable pub create_mea : Context → MeaRequest → Exec Db MeaDict
  create_mea context mea = do
    created ← create_mea_pre env context mea
    instance_id ← generate_uuid env
    let mea_dict : MeaDict = record created { instance_id = some instance_id }
    create_mea_post env context mea_dict.id (some instance_id) none mea_dict
    create_mea_status env context mea_dict.id active
    pure mea_dict

  unfoldable pub update_mea : Context → String → Exec Db MeaDict
  update_mea context mea_id = do
    mea_dict ← update_mea_pre env context mea_id
    update_mea_post env context mea_id active mea_dict
    pure mea_dict

  unfoldable pub delete_mea : Context → String → Bool → Exec Db (Unit {0})
  delete_mea context mea_id soft_delete = do
    mea_dict ← delete_mea_pre env context mea_id
    delete_mea_post env context mea_dict false soft_delete

  unfoldable pub get_mea : Context → String → Exec Db MeaDict
  get_mea context mea_id = do
    found ← get_mea_resource env context mea_id
    row ← lift (not_none found)
    make_mea_dict row
