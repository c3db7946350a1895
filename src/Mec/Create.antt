-- ===== src/Mec/Create.antt =====
-- mem/plugin.py: the creation of a MEA, up to the spawned function and in it.
use apmec.Prelude.{
  String, Bool, true, false, Option, none, some, is_none, [], not, ◌||◌, ◌==◌, ◌<>◌, if◌then◌else◌,
}
use apmec.Constants.{Status, active, error, status_eq}
use apmec.Errors.{
  ok, err, type_error, mea_create_wait_failed, mgmt_driver_exception, invalid_infra_driver,
}
use apmec.Exec.{Exec, pure, raise, lift, ◌>>=◌, ◌>>◌}
use apmec.Dict.{Dict, lookup, insert}
use apmec.Db.{Env, Context}
use apmec.Session.{utcnow}
use apmec.Monitor.{to_hosting_mea, add_hosting_mea}
use apmec.Mem.MeaRow.{MeaDict}
use apmec.Mem.Mea.Create.{MeaRequest, create_mea_pre, create_mea_post, create_mea_status}
use apmec.Mem.Mea.Mark.{set_mea_error_status_reason}
use apmec.Mec.World.{
  World, Drivers, Driven, create_pre, create_post, call_create, create_mea_wait, on_db, drive,
  registered, spawn_n, on_monitor,
}
use apmec.Mec.VimClient.{get_infra_driver, client_get_vim}
use apmec.Mec.Update.{manage, try_mgmt, update_mea}
use apmec.Mec.Delete.{delete_mea}
use apmec.Mec.Alarms.{add_alarm_url_to_mea, log_monitor_events}

-- A MEA to create, or one that is there and is created anew, with its id.
pub data NewMea : Type 0 where
  requested : MeaRequest → NewMea
  existing : MeaDict → NewMea

abbrev is_given : Option String → Bool
is_given none = false
is_given (some s) = not (s == "")

abbrev pub or_type_error : Option MeaDict → Exec World MeaDict
or_type_error none = raise type_error
or_type_error (some mea_dict) = pure mea_dict

module _ (env : Env) (drv : Drivers) where
  abbrev pub row_of : Context → NewMea → Exec World MeaDict
  row_of context (requested mea) = on_db (create_mea_pre env context mea)
  row_of context (existing mea_dict) = pure mea_dict

  -- What `_create_mea` makes of the driver's answer: none where there is no instance.
  abbrev pub created : Context → Driven (Option String) → Exec World (Option MeaDict)
  created context (ok none, mea_dict) = do
    on_db (create_mea_post env context mea_dict.id none none mea_dict)
    pure none
  created context (ok (some instance_id), mea_dict) =
      pure (some (record mea_dict { instance_id = some instance_id }))
  created context (err e, mea_dict) = do delete_mea env drv context mea_dict.id; raise e

  -- `_create_mea`
  unfoldable pub create_in_driver :
      Context → NewMea → Dict String → String → Exec World (Option MeaDict)
  create_in_driver context mea vim_auth driver_name = do
    row ← row_of context mea
    managed ← manage env drv create_pre row
    alarmed ← add_alarm_url_to_mea env drv context managed
    driven ← drive (λ n.
        let answer = drv.create n driver_name alarmed vim_auth in
        registered (drv.knows driver_name) alarmed answer)
    created context driven

  -- the `except` of the first `try` of `_create_mea_wait`: whether the creation failed, and the dict
  abbrev pub after_wait : Context → Driven (Unit {0}) → Exec World (Bool × MeaDict)
  after_wait context (ok _, mea_dict) = pure (false, mea_dict)
  after_wait context (err (mea_create_wait_failed reason), mea_dict) = do
    on_db (
        set_mea_error_status_reason context mea_dict.id
          (drv.text_of (mea_create_wait_failed reason)))
    pure (true, record mea_dict { status = error })
  after_wait context (err e, mea_dict) = raise e

  -- the `except` of the second one
  abbrev pub after_call : Context → Driven (Unit {0}) → Exec World (Status × MeaDict)
  after_call context (ok _, mea_dict) = pure (active, mea_dict)
  after_call context (err (mgmt_driver_exception reason), mea_dict) = do
    on_db (set_mea_error_status_reason context mea_dict.id "Unable to configure VDU")
    pure (error, mea_dict)
  after_call context (err e, mea_dict) = raise e

  unfoldable pub configure : Context → MeaDict → Exec World MeaDict
  configure context mea_dict = do
    driven ← try_mgmt env drv call_create mea_dict
    called ← after_call context driven
    on_db (create_mea_status env context called.1.id called.0)
    pure (record called.1 { status = called.0 })

  -- `_create_mea_wait`
  unfoldable pub wait_create : Context → MeaDict → Dict String → String → Exec World MeaDict
  unfolding configure
  wait_create context mea_dict vim_auth driver_name = do
    driven ← drive (λ n.
        let answer = drv.create_wait n driver_name mea_dict mea_dict.instance_id vim_auth in
        registered (drv.knows driver_name) mea_dict answer)
    waited ← after_wait context driven
    let failed : Bool = is_none mea_dict.instance_id || waited.0
    let mgmt_url : Option String = if failed then none else waited.1.mgmt_url
    on_db (create_mea_post env context mea_dict.id mea_dict.instance_id mgmt_url waited.1)
    posted ← manage env drv create_post waited.1
    if failed then pure posted else configure context (record posted { mgmt_url = mgmt_url })

  unfoldable pub add_policy : Context → MeaDict → String → Exec World (Unit {0})
  add_policy context mea_dict monitoring_policy = do
    ips ← lift (drv.loads_ips mea_dict.mgmt_url)
    policy ← lift (drv.loads_policy monitoring_policy)
    boot_at ← on_db (utcnow env)
    on_monitor (add_hosting_mea (to_hosting_mea context mea_dict ips policy boot_at))
    log_monitor_events env drv mea_dict.id mea_dict.status
        ("MEA added for monitoring. mon_policy_dict = " <> (monitoring_policy <> ","))

  -- `add_mea_to_monitor`, with `to_hosting_mea` and `add_hosting_mea` of the monitor
  unfoldable pub add_mea_to_monitor : Context → MeaDict → Exec World (Unit {0})
  unfolding add_policy
  add_mea_to_monitor context mea_dict = elim (lookup "monitoring_policy" mea_dict.attributes) [
    | none ↦ pure tt
    | some policy ↦
        if is_given mea_dict.mgmt_url then add_policy context mea_dict policy else pure tt
  ]

  -- `config_mea`
  unfoldable pub config_mea : Context → MeaDict → Exec World (Unit {0})
  config_mea context mea_dict = elim (lookup "config" mea_dict.attributes) [
    | none ↦ pure tt
    | some config ↦
        if config == ""
        then pure tt
        else do update_mea env drv context mea_dict.id (insert "config" config []); pure tt
  ]

  unfoldable pub after_creation : Context → MeaDict → Exec World (Unit {0})
  unfolding add_mea_to_monitor config_mea
  after_creation context mea_dict = do
    if status_eq mea_dict.status error then pure tt else add_mea_to_monitor context mea_dict
    config_mea context mea_dict

  -- the function `create_mea_wait` that `create_mea` spawns
  unfoldable pub create_wait_task :
      Context → Option MeaDict → Dict String → String → Exec World (Unit {0})
  unfolding wait_create after_creation
  create_wait_task context none vim_auth driver_name = raise type_error
  create_wait_task context (some mea_dict) vim_auth driver_name = do
    waited ← wait_create context mea_dict vim_auth driver_name
    after_creation context waited

  -- `create_mea`, once a template has got its MEAD and the dicts of attributes are texts
  unfoldable pub create_mea : Context → MeaRequest → Exec World (Option MeaDict)
  create_mea context mea = do
    vim_res ← client_get_vim env drv context mea.vim_id (drv.region_of mea.placement_attr)
    let placed : MeaRequest = record mea {
      vim_id = vim_res.vim_id;
      placement_attr = drv.with_vim_name mea.placement_attr vim_res.vim_name;
    }
    if drv.knows vim_res.vim_type
        then (do
          mea_dict ← create_in_driver context (requested placed) vim_res.vim_auth vim_res.vim_type
          spawn_n (create_mea_wait context mea_dict vim_res.vim_auth vim_res.vim_type)
          pure mea_dict)
        else raise (invalid_infra_driver vim_res.vim_type)

  -- `create_mea_sync` of a MEA that is there
  unfoldable pub create_mea_sync : Context → MeaDict → Exec World MeaDict
  unfolding wait_create
  create_mea_sync context mea = do
    found ← get_infra_driver env drv context mea
    made ← create_in_driver context (existing found.1) found.0.vim_auth found.0.vim_type
    mea_dict ← or_type_error made
    wait_create context mea_dict found.0.vim_auth found.0.vim_type
