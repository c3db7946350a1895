-- ===== src/Mec/World.antt =====
-- mem/plugin.py: what the MEC plugin works on: the database, the hosting MEAs of its monitor, the
-- functions that it has spawned, and the drivers.
use apmec.Prelude.{ℕ, ◌+◌, String, Bool, Option, List, [], ◌∷◌, ◌++◌, if◌then◌else◌}
use apmec.Errors.{Error, Result, ok, err, key_error}
use apmec.Exec.{Exec}
use apmec.Dict.{Dict}
use apmec.Value.{Value}
use apmec.Db.{Db, Context}
use apmec.Mem.MeaRow.{MeaDict}
use apmec.Monitor.{Hosted, MonitoringPolicy}

-- The dict that `_make_policy_dict` makes of a policy of the MEA's template.
pub record Policy : Type 0 where
  pub type : Value
  pub properties : Value
  pub mea : MeaDict
  pub name : String
  pub id : String

-- A call of a management driver, by the method's name and its `action`.
pub data MgmtCall : Type 0 where
  create_pre create_post update_pre update_post delete_pre delete_post : MgmtCall
  call_create call_update call_delete : MgmtCall

-- What a driver returns or raises, and the dict of the MEA after it: drivers write into the dict.
abbrev pub Driven : Type 0 → Type 0
Driven A = Result A × MeaDict

-- What the code calls and this library does not implement. The number tells calls apart: two calls
-- with the same arguments may end differently. A driver leaves the database alone.
pub record Drivers : Type 0 where
  -- the infrastructure drivers that are registered, and their methods
  pub knows : String → Bool
  pub create : ℕ → String → MeaDict → Dict String → Driven (Option String)
  pub create_wait : ℕ → String → MeaDict → Option String → Dict String → Driven (Unit {0})
  pub update : ℕ → String → MeaDict → Dict String → Dict String → Driven (Unit {0})
  pub update_wait : ℕ → String → MeaDict → Dict String → Result (Unit {0})
  pub delete : ℕ → String → MeaDict → Dict String → Result (Unit {0})
  pub delete_wait : ℕ → String → MeaDict → Dict String → Result (Unit {0})
  pub scale : ℕ → String → Policy → String → Dict String → Result (Option String)
  pub scale_wait :
      ℕ → String → Policy → String → Option String → Dict String → Result (Option String)
  -- the management drivers, by the name in the MEAD
  pub mgmt : ℕ → Option String → MgmtCall → MeaDict → Driven (Unit {0})
  -- the alarm drivers: process_alarm and call_alarm_url
  pub process_alarm : ℕ → Value → String → Value → Result Bool
  pub call_alarm_url : ℕ → Value → MeaDict → String → String → Result String
  -- `monitor_call` of the monitor drivers, with the management address
  pub monitor_call : ℕ → String → MeaDict → String → Result String
  -- heatclient.delete of the respawning
  pub delete_stack : ℕ → Dict String → MeaDict → Result (Unit {0})
  -- six.text_type of an exception
  pub text_of : Error → String
  -- str of a dict of alarm URLs
  pub show_urls : Dict String → String
  -- yaml.safe_load, and jsonutils.loads of the two texts that the monitor reads
  pub safe_load : String → Result Value
  pub loads_ips : Option String → Result (Dict String)
  pub loads_policy : String → Result MonitoringPolicy
  -- the regions of a VIM, the region of a MEA, and a MEA's placement with the name of its VIM
  pub regions_of : String → List String
  pub region_of : String → Option String
  pub with_vim_name : String → String → String
  -- the decryption of a VIM's password, by the VIM's id and its credentials
  pub decode : ℕ → String → Dict String → Result String

-- A function that the plugin has spawned, with what its closure holds. The MEA of a creation is none
-- where the driver gave no instance.
pub data Task : Type 0 where
  create_mea_wait : Context → Option MeaDict → Dict String → String → Task
  update_mea_wait delete_mea_wait : Context → MeaDict → Dict String → String → Task
  action_wait : Context → Policy → String → Dict String → String → Option String → Task

pub record World : Type 0 where
  pub db : Db
  pub monitor : Hosted
  pub spawned : List Task
  pub calls : ℕ

module _ {A : Type 0} where
  -- A call of the database plugin.
  unfoldable pub on_db : Exec Db A → Exec World A
  on_db m w = let (r, s) = m w.db in (r, record w { db = s })

  -- A call of a driver that may raise, and of one that also gives a dict back.
  unfoldable pub call : (ℕ → Result A) → Exec World A
  call f w = (f w.calls, record w { calls = w.calls + 1 })

  unfoldable pub drive : (ℕ → Driven A) → Exec World (Driven A)
  drive f w = (ok (f w.calls), record w { calls = w.calls + 1 })

  -- `invoke` of a driver by its type: self._drivers[type_]
  abbrev pub registered : Bool → MeaDict → Driven A → Driven A
  registered known mea_dict driven = if known then driven else (err key_error, mea_dict)

  abbrev pub registered_result : Bool → Result A → Result A
  registered_result known r = if known then r else err key_error

unfoldable pub spawn_n : Task → Exec World (Unit {0})
spawn_n task w = (ok tt, record w { spawned = w.spawned ++ (task ∷ []) })

unfoldable pub on_monitor : (Hosted → Hosted) → Exec World (Unit {0})
on_monitor f w = (ok tt, record w { monitor = f w.monitor })
