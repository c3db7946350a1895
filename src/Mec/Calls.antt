-- ===== src/Mec/Calls.antt =====
-- mem/plugin.py: the calls that reach the MEC plugin: of the API, of its monitor's thread, and of the
-- functions that it has spawned. Each runs to its end before the next, in any order.
use apmec.Prelude.{ℕ, zero, suc, String, Option, none, some, List, [], ◌∷◌}
use apmec.Exec.{Exec, pure, ◌>>=◌}
use apmec.Dict.{Dict}
use apmec.Value.{Value}
use apmec.Table.Evolves.{Evolves}
use apmec.Db.{Env, Context}
use apmec.Mem.Change.{mea_change, MeaIds}
use apmec.Mem.Mea.Any.{any_rule}
use apmec.Mem.Mea.Create.{MeaRequest}
use apmec.Mec.World.{
  World, Drivers, Task, create_mea_wait, update_mea_wait, delete_mea_wait, action_wait,
}
use apmec.Mec.Update.{update_mea, wait_update}
use apmec.Mec.Delete.{delete_mea, wait_delete}
use apmec.Mec.Create.{create_mea, create_wait_task}
use apmec.Mec.Scaling.{create_mea_scale, policy_action_wait}
use apmec.Mec.Triggers.{create_mea_trigger}
use apmec.Mec.Rounds.{monitor_pass}
use apmec.Mec.Moves.{Shifts, Shifts-pure, shifts_rules}
use apmec.Mec.Within.{
  plugin_moves, update_mea-Shifts, wait_update-Shifts, delete_mea-Shifts, wait_delete-Shifts,
}
use apmec.Mec.Within.Create.{create_mea-Shifts, create_wait_task-Shifts}
use apmec.Mec.Within.Act.{create_mea_scale-Shifts, action_wait-Shifts}
use apmec.Mec.Within.React.{create_mea_trigger-Shifts, monitor_pass-Shifts}

pub data Call : Type 0 where
  create_call : Context → MeaRequest → Call
  update_call : Context → String → Dict String → Call
  delete_call : Context → String → Call
  scale_call : Context → String → String → Option String → Call
  trigger_call : Context → String → String → String → Value → Call
  -- one pass of the monitor
  pass_call : Call
  -- the spawned function of a number, if there is one
  task_call : ℕ → Call

abbrev nth : ℕ → List Task → Option Task
nth n [] = none
nth zero (t ∷ ts) = some t
nth (suc n) (t ∷ ts) = nth n ts

abbrev pub without : ℕ → List Task → List Task
without n [] = []
without zero (t ∷ ts) = ts
without (suc n) (t ∷ ts) = t ∷ without n ts

abbrev drop : {A : Type 0} → Exec World A → Exec World (Unit {0})
drop m = m >>= λ _. pure tt

module _ (env : Env) (drv : Drivers) (boot_wait : ℕ) where
  unfoldable run_task : Task → Exec World (Unit {0})
  run_task (create_mea_wait context mea vim_auth driver_name) =
      create_wait_task env drv context mea vim_auth driver_name
  run_task (update_mea_wait context mea_dict vim_auth driver_name) =
      wait_update env drv context mea_dict vim_auth driver_name
  run_task (delete_mea_wait context mea_dict vim_auth driver_name) =
      wait_delete env drv context mea_dict vim_auth driver_name
  run_task (action_wait context policy action vim_auth driver_name last_event_id) =
      policy_action_wait env drv context policy action vim_auth driver_name last_event_id

  abbrev run_nth : Option Task → Exec World (Unit {0})
  run_nth none = pure tt
  run_nth (some task) = run_task task

  unfoldable pub run_call : Call → Exec World (Unit {0})
  unfolding run_task
  run_call (create_call context mea) = drop (create_mea env drv context mea)
  run_call (update_call context mea_id attributes) =
      drop (update_mea env drv context mea_id attributes)
  run_call (delete_call context mea_id) = delete_mea env drv context mea_id
  run_call (scale_call context mea_id policy type) =
      create_mea_scale env drv context mea_id policy type
  run_call (trigger_call context mea_id policy action params) =
      create_mea_trigger env drv context mea_id policy action params
  run_call pass_call = monitor_pass env drv boot_wait
  run_call (task_call n) =
      λ w. run_nth (nth n w.spawned) (record w { spawned = without n w.spawned })

  -- A call that raises ends itself only.
  unfoldable pub run_calls : World → List Call → World
  run_calls w [] = w
  run_calls w (c ∷ cs) = run_calls (run_call c w).1 cs

  run_task-Shifts : (task : Task) → Shifts plugin_moves (run_task task)
  unfolding run_task
  run_task-Shifts (create_mea_wait c d a n) = create_wait_task-Shifts env drv c d a n
  run_task-Shifts (update_mea_wait c d a n) = wait_update-Shifts env drv c d a n
  run_task-Shifts (delete_mea_wait c d a n) = wait_delete-Shifts env drv c d a n
  run_task-Shifts (action_wait c p x a n e) = action_wait-Shifts env drv c p x a n e

  run_nth-Shifts : (o : Option Task) → Shifts plugin_moves (run_nth o)
  run_nth-Shifts none = Shifts-pure _ tt
  run_nth-Shifts (some task) = run_task-Shifts task

  run_call-Shifts : (c : Call) → Shifts plugin_moves (run_call c)
  unfolding run_call
  run_call-Shifts (create_call c mea) = search (shifts_rules, create_mea-Shifts)
  run_call-Shifts (update_call c mea_id attributes) = search (shifts_rules, update_mea-Shifts)
  run_call-Shifts (delete_call c mea_id) = delete_mea-Shifts env drv c mea_id
  run_call-Shifts (scale_call c mea_id policy type) =
      create_mea_scale-Shifts env drv c mea_id policy type
  run_call-Shifts (trigger_call c mea_id policy action params) =
      create_mea_trigger-Shifts env drv c mea_id policy action params
  run_call-Shifts pass_call = monitor_pass-Shifts env drv boot_wait
  run_call-Shifts (task_call n) = record {
    at = λ w. (run_nth-Shifts (nth n w.spawned)).at (record w { spawned = without n w.spawned });
  }

  run_calls_moves :
      (w : World) (cs : List Call) → plugin_moves.Rel w.db.tables (run_calls w cs).db.tables
  unfolding run_calls
  run_calls_moves w [] = plugin_moves.rel_refl w.db.tables
  run_calls_moves w (c ∷ cs) =
      plugin_moves.rel_trans w.db.tables (run_call c w).1.db.tables
        (run_calls (run_call c w).1 cs).db.tables ((run_call-Shifts c).at w)
        (run_calls_moves (run_call c w).1 cs)

  -- Whatever calls reach the plugin, in any order and in any contexts, with any drivers, whether they
  -- return or raise, and whichever of the spawned functions run between them: the primary keys of the
  -- MEAs stay distinct, no MEA leaves the table, a new one has a time in `deleted_at` and not NULL, a
  -- deleted one keeps every column, and of the others the id, tenant, name, MEAD, VIM and time of
  -- creation stay.
  pub run_calls-Evolves :
      (w : World) (cs : List Call)
      → MeaIds w.db.tables
      → MeaIds (run_calls w cs).db.tables
        × Evolves (mea_change any_rule) w.db.tables.meas (run_calls w cs).db.tables.meas
  run_calls-Evolves w cs d = run_calls_moves w cs d
