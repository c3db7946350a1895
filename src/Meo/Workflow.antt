-- ===== src/Meo/Workflow.antt =====
-- meo/meo_plugin.py: the network services, between the workflows that make and remove their MEAs and
-- their table. `create_ns` is modelled from its third step on, where the workflow is made.
pub mod Poll
pub mod Settled
pub mod Returns
use apmec.Prelude.{
  ℕ, zero, suc, ◌+◌, String, ◌<>◌, Bool, true, false, Option, none, some, List, [], ◌∷◌, ◌++◌, ◌==◌,
  ◌&&◌, ◌||◌, not, nat_eq, if◌then◌else◌,
}
use apmec.Errors.{Error, Result, ok, err, no_tasks}
use apmec.Exec.{Exec, pure, raise, rescue, ◌>>=◌, ◌>>◌}
use apmec.Dict.{Dict}
use apmec.Db.{Env, Context}
use apmec.Meo.NsRow.{NsDict}
use apmec.Meo.Ns.{NsRequest, MistralObj, create_ns_post, delete_ns_post, get_ns}
use apmec.Meo.Ns
use apmec.Mec.World.{World, Drivers, call}
use apmec.Mec.World
use apmec.Mec.VimClient.{client_get_vim}

-- The VIM driver's calls on workflows, by the VIM's type; the number tells calls apart.
pub record Workflows : Type 0 where
  pub prepare_create : ℕ → String → NsRequest → Result String
  pub prepare_delete : ℕ → String → NsDict → Result String
  pub execute_workflow : ℕ → String → String → Result String
  pub get_execution : ℕ → String → String → Result MistralObj
  pub delete_execution : ℕ → String → String → Result (Unit {0})
  pub delete_workflow : ℕ → String → String → Result (Unit {0})
  -- ast.literal_eval of an output
  pub literal_eval : String → Result String

-- A function that the plugin has spawned: the VIM's type, the NS, the execution and the workflow, and
-- for a creation the instances of its MEAs.
pub data NsTask : Type 0 where
  create_ns_wait : Context → String → String → String → String → List String → NsTask
  delete_ns_wait : Context → String → String → String → String → NsTask

pub record Orchestra : Type 0 where
  pub world : World
  pub spawned : List NsTask

unfoldable pub on_world : {A : Type 0} → Exec World A → Exec Orchestra A
on_world m o = let (r, w) = m o.world in (r, record o { world = w })

unfoldable pub ask : {A : Type 0} → (ℕ → Result A) → Exec Orchestra A
unfolding on_world
ask f = on_world (call f)

unfoldable pub spawn_n : NsTask → Exec Orchestra (Unit {0})
spawn_n task o = (ok tt, record o { spawned = o.spawned ++ (task ∷ []) })

abbrev pub mistral_retries : ℕ
mistral_retries = 30

abbrev pub is_done : String → Bool
is_done state = state == "SUCCESS" || state == "ERROR"

-- error_reason, where the retries ran out while the execution ran
abbrev pub reason_of : String → String → String × ℕ → Option String
reason_of what execution_id (exec_state, retries) =
    if nat_eq retries 0 && exec_state == "RUNNING"
    then some (
        "NS "
        <> (what
            <> ("ion is not completed within 180 seconds as "
                <> (what
                    <> ("ion of mistral execution " <> (execution_id <> " is not completed"))))))
    else none

-- what prepare gives: none where it raises NoTasksException
abbrev or_no_tasks : Error → Exec Orchestra (Option String)
or_no_tasks no_tasks = pure none
or_no_tasks e = raise e

module _ (flows : Workflows) where
  -- The loop of both waits, from a state and the retries that are left.
  unfoldable pub poll : String → String → ℕ → String → Exec Orchestra (String × ℕ)
  poll driver_type execution_id zero exec_state = pure (exec_state, zero)
  poll driver_type execution_id (suc retries) exec_state =
      if not (exec_state == "RUNNING") then pure (exec_state, suc retries) else do
        exec_obj ← ask (λ n. flows.get_execution n driver_type execution_id)
        if is_done exec_obj.state
            then pure (exec_obj.state, suc retries)
            else poll driver_type execution_id retries exec_obj.state

  -- What both waits do once the loop has ended: the execution as it is then.
  unfoldable pub clean_up : String → String → String → Exec Orchestra MistralObj
  clean_up driver_type execution_id workflow_id = do
    exec_obj ← ask (λ n. flows.get_execution n driver_type execution_id)
    ask (λ n. flows.delete_execution n driver_type execution_id)
    ask (λ n. flows.delete_workflow n driver_type workflow_id)
    pure exec_obj

  -- the workflow is deleted where its execution cannot be started
  unfoldable pub execute : String → String → Exec Orchestra String
  execute driver_type workflow_id =
      rescue (ask (λ n. flows.execute_workflow n driver_type workflow_id))
        λ e. do ask (λ n. flows.delete_workflow n driver_type workflow_id); raise e

  module _ (env : Env) (drv : Drivers) where
    -- `_create_ns_wait`
    unfoldable pub wait_create :
        Context → String → String → String → String → List String → Exec Orchestra (Unit {0})
    unfolding poll clean_up
    wait_create context driver_type ns_id execution_id workflow_id instances = do
      polled ← poll driver_type execution_id mistral_retries "RUNNING"
      exec_obj ← clean_up driver_type execution_id workflow_id
      on_world (
          World.on_db (
            create_ns_post env flows.literal_eval context ns_id exec_obj instances
              (reason_of "creat" execution_id polled)))
      pure tt

    -- `create_ns`, of a VIM's type and the instances of the MEADs
    unfoldable pub create_ns : Context → String → NsRequest → List String → Exec Orchestra NsDict
    unfolding execute
    create_ns context driver_type ns instances = do
      workflow_id ← ask (λ n. flows.prepare_create n driver_type ns)
      execution_id ← execute driver_type workflow_id
      ns_dict ← on_world (World.on_db (Ns.create_ns env context ns))
      spawn_n (create_ns_wait context driver_type ns_dict.id execution_id workflow_id instances)
      pure ns_dict

    -- `_delete_ns_wait`, where the reason of a failure is not stored
    unfoldable pub wait_delete :
        Context → String → String → String → String → Exec Orchestra (Unit {0})
    unfolding poll clean_up
    wait_delete context driver_type ns_id execution_id workflow_id = do
      poll driver_type execution_id mistral_retries "RUNNING"
      exec_obj ← clean_up driver_type execution_id workflow_id
      on_world (World.on_db (delete_ns_post env context ns_id (exec_obj.state == "ERROR") true))

    abbrev pub start : String → Option String → Exec Orchestra (Option (String × String))
    start driver_type none = pure none
    start driver_type (some workflow_id) = do
      execution_id ← execute driver_type workflow_id
      pure (some (execution_id, workflow_id))

    abbrev pub finish :
        Context → String → String → Option (String × String) → Exec Orchestra (Unit {0})
    finish context driver_type ns_id none =
        on_world (World.on_db (delete_ns_post env context ns_id false true))
    finish context driver_type ns_id (some (execution_id, workflow_id)) =
        spawn_n (delete_ns_wait context driver_type ns_id execution_id workflow_id)

    -- `delete_ns`
    unfoldable pub delete_ns : Context → String → Exec Orchestra String
    unfolding execute
    delete_ns context ns_id = do
      ns ← on_world (World.on_db (get_ns context ns_id))
      vim_res ← on_world (client_get_vim env drv context ns.vim_id none)
      workflow ←
          rescue
            (do
              workflow_id ← ask (λ n. flows.prepare_delete n vim_res.vim_type ns)
              pure (some workflow_id))
            or_no_tasks
      started ← start vim_res.vim_type workflow
      on_world (World.on_db (Ns.delete_ns env context ns_id))
      finish context vim_res.vim_type ns.id started
      pure ns.id

    -- A spawned function.
    unfoldable run_ns_task : NsTask → Exec Orchestra (Unit {0})
    unfolding wait_create wait_delete
    run_ns_task (create_ns_wait context driver_type ns_id execution_id workflow_id instances) =
        wait_create context driver_type ns_id execution_id workflow_id instances
    run_ns_task (delete_ns_wait context driver_type ns_id execution_id workflow_id) =
        wait_delete context driver_type ns_id execution_id workflow_id
