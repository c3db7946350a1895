-- ===== src/Mec/Rounds.antt =====
-- mem/monitor.py, class MEAMonitor: one pass of the thread's loop over the hosting MEAs.
use apmec.Prelude.{
  ℕ, String, ◌-◌, ◌*◌, Bool, Option, none, some, List, [], ◌∷◌, map, ltb, not, if◌then◌else◌,
}
use apmec.Errors.{Result, ok, err, key_error}
use apmec.Exec.{Exec, pure, lift, ◌>>=◌, ◌>>◌}
use apmec.Dict.{Dict, lookup}
use apmec.Db.{Env}
use apmec.Session.{utcnow}
use apmec.Monitor.{Hosting, DriverPolicy, object_at, set_object}
use apmec.Mec.World.{World, Drivers, on_db, on_monitor, call}
use apmec.Mec.Actions.{no_args, execute_action}

abbrev pub or_key_error : {A : Type 0} → Option A → Result A
or_key_error none = err key_error
or_key_error (some a) = ok a

-- The object of a number, as it is now.
unfoldable pub read_object : ℕ → Exec World Hosting
read_object n w = (or_key_error (object_at n w.monitor.objects), w)

abbrev pub or_default : Option ℕ → ℕ → ℕ
or_default none default = default
or_default (some n) default = n

-- timeutils.is_older_than(boot_at, seconds), where a time counts microseconds
abbrev is_older_than : ℕ → ℕ → ℕ → Bool
is_older_than now boot_at seconds = ltb (seconds * 1000000) (now - boot_at)

-- params['mgmt_ip'], which is filled in from the MEA's addresses
abbrev mgmt_ip_of : DriverPolicy → String → Dict String → Result String
mgmt_ip_of policy vdu ips = elim policy.mgmt_ip [
  | some ip ↦ ok ip
  | none ↦ or_key_error (lookup vdu ips)
]

module _ (env : Env) (drv : Drivers) (boot_wait : ℕ) where
  -- `action_cb`, which works on the MEA's dict of the object
  unfoldable pub action_cb : ℕ → String → Exec World (Unit {0})
  action_cb n action = do
    hosting_mea ← read_object n
    after ← execute_action env drv action hosting_mea.context hosting_mea.mea no_args
    on_monitor (λ m. record m { objects = set_object n (λ h. record h { mea = after }) m.objects })

  unfoldable pub monitor_driver : ℕ → String → String → DriverPolicy → Exec World (Unit {0})
  unfolding action_cb
  monitor_driver n vdu driver policy = do
    hosting_mea ← read_object n
    let mea_delay : ℕ = or_default hosting_mea.monitoring_policy.monitoring_delay boot_wait
    now ← on_db (utcnow env)
    if not (is_older_than now hosting_mea.boot_at (or_default policy.monitoring_delay mea_delay))
        then pure tt
        else do
          mgmt_ip ← lift (mgmt_ip_of policy vdu hosting_mea.management_ip_addresses)
          driver_return ← call (λ k. drv.monitor_call k driver hosting_mea.mea mgmt_ip)
          elim (lookup driver_return policy.actions) [
            | none ↦ pure tt
            | some action ↦ action_cb n action
          ]

  unfoldable pub monitor_drivers : ℕ → String → Dict DriverPolicy → Exec World (Unit {0})
  unfolding monitor_driver
  monitor_drivers n vdu [] = pure tt
  monitor_drivers n vdu ((driver, policy) ∷ more) = do
    monitor_driver n vdu driver policy
    monitor_drivers n vdu more

  unfoldable pub monitor_vdus : ℕ → Dict (Dict DriverPolicy) → Exec World (Unit {0})
  unfolding monitor_drivers
  monitor_vdus n [] = pure tt
  monitor_vdus n ((vdu, policy) ∷ more) = do
    hosting_mea ← read_object n
    if hosting_mea.dead then pure tt else do monitor_drivers n vdu policy; monitor_vdus n more

  -- `run_monitor`
  unfoldable pub run_monitor : ℕ → Exec World (Unit {0})
  unfolding monitor_vdus
  run_monitor n = do
    hosting_mea ← read_object n
    vdupolicies ← lift (or_key_error hosting_mea.monitoring_policy.vdus)
    monitor_vdus n vdupolicies

  -- The loop of `__run__` over the objects that the dict had when it began.
  unfoldable pub monitor_all : List ℕ → Exec World (Unit {0})
  unfolding run_monitor
  monitor_all [] = pure tt
  monitor_all (n ∷ more) = do
    hosting_mea ← read_object n
    if hosting_mea.dead then pure tt else run_monitor n
    monitor_all more

  -- One pass of `__run__`, under the lock.
  unfoldable pub monitor_pass : Exec World (Unit {0})
  unfolding monitor_all
  monitor_pass w = monitor_all (map (λ (p : String × ℕ). p.1) w.monitor.hosting_meas) w
