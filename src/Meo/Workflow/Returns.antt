-- ===== src/Meo/Workflow/Returns.antt =====
-- meo/meo_plugin.py: the wait for the creation of a network service returns.
use apmec.Prelude.{ℕ, String, ◌≡◌, refl, Bool, true, false, Option, List, []}
use apmec.Errors.{Result, ok, err}
use apmec.Exec.{Exec, pure, proceed, ◌>>=◌}
use apmec.Db.{Db, Env, Context, Ns, Event}
use apmec.Session.{query, transaction, write, utcnow}
use apmec.Events.{create_event}
use apmec.Meo.NsRow.{get_ns_resource, update_nss}
use apmec.Meo.Ns.{MistralObj, Outputs, outputs_of, create_ns_post}
use apmec.Mec.World.{Drivers, on_db, call}
use apmec.Meo.Workflow.{Workflows, Orchestra, on_world, ask, clean_up, wait_create, mistral_retries}
use apmec.Meo.Workflow.Poll.{poll-Ends}

-- A run that has returned, and not raised.
abbrev pub returned : {S A : Type 0} → Result A × S → Bool
returned (ok a, s) = true
returned (err e, s) = false

post_returns :
    (env : Env) (literal_eval : String → Result String) (context : Context) (ns_id : String)
    (exec_obj : MistralObj) (instances : List String) (reason : Option String) (s : Db) (row : Ns)
    (found : Outputs)
    → ((event : Event) → env.refuses event ≡ false)
    → get_ns_resource context ns_id s.tables ≡ ok row
    → outputs_of literal_eval exec_obj.output instances ([], []) ≡ ok found
    → returned (create_ns_post env literal_eval context ns_id exec_obj instances reason s) ≡ true
unfolding create_ns_post query transaction write utcnow update_nss create_event ◌>>=◌
post_returns env literal_eval context ns_id exec_obj instances reason s row found stores there
      outputs =
    rw (outputs, there, stores) refl

ends_returned :
    {A : Type 0} (o : Orchestra) (r : Result A × Db)
    → returned r ≡ true
    → returned
        (proceed (λ _. pure (tt {0})) (r.0, record o { world = record o.world { db = r.1 } }))
      ≡ true
unfolding pure
ends_returned o (ok a, t) h = refl
ends_returned o (err e, t) h = cc

finished_returns :
    {A : Type 0} (m : Exec Db A) (o : Orchestra)
    → returned (m o.world.db) ≡ true
    → returned ((on_world (on_db m) >>= λ _. pure (tt {0})) o) ≡ true
unfolding on_world on_db ◌>>=◌
finished_returns m o h = ends_returned o (m o.world.db) h

module _ (flows : Workflows) (driver_type ns_id execution_id workflow_id : String)
    (instances : List String) where
  -- The driver answers, and the outputs of every answer can be read.
  pub record Answers : Type 0 where
    pub execution : ℕ → MistralObj
    pub found : ℕ → Outputs
    pub shows : (n : ℕ) → flows.get_execution n driver_type execution_id ≡ ok (execution n)
    pub reads :
        (n : ℕ)
        → outputs_of flows.literal_eval (execution n).output instances ([], []) ≡ ok (found n)
    pub forgets_execution : (n : ℕ) → flows.delete_execution n driver_type execution_id ≡ ok tt
    pub forgets_workflow : (n : ℕ) → flows.delete_workflow n driver_type workflow_id ≡ ok tt

  -- `_create_ns_wait` returns, where the driver answers with executions whose outputs can be read,
  -- the context finds the NS, and the log takes its event.
  pub wait_create-returned :
      (env : Env) (drv : Drivers) (context : Context) (o : Orchestra) (row : Ns)
      → Answers
      → ((event : Event) → env.refuses event ≡ false)
      → get_ns_resource context ns_id o.world.db.tables ≡ ok row
      → returned
          (wait_create flows env drv context driver_type ns_id execution_id workflow_id instances o)
        ≡ true
  unfolding wait_create clean_up ask on_world call ◌>>=◌
  wait_create-returned env drv context o row a stores there =
      let (last, left, c, same, few, why) =
        poll-Ends flows driver_type execution_id a.execution a.shows mistral_retries "RUNNING" o in
      rw (same, a.shows, a.forgets_execution, a.forgets_workflow)
        (finished_returns _ _ (
          post_returns env flows.literal_eval context ns_id (a.execution _) instances _ _ row
            (a.found _) stores there (a.reads _)))
