-- ===== src/Tests/PluginExamples.antt =====
-- meo/meo_plugin.py on a small database, with drivers of VIMs and of workflows.
use mathlib.Core.List.{Memᴰ}
use apmec.Prelude.{ℕ, String, ◌≡◌, ◌≤◌, refl, true, false, none, some, [], ◌∷◌, ◌==◌, ◌⊎◌, arith}
use apmec.Errors.{ok, err, vim_in_use}
use apmec.Exec
use apmec.Table
use apmec.Session
use apmec.Events.{create_event}
use apmec.Value.{text, object, Fields, object_end, entry}
use apmec.Meo.NsRow.{update_nss}
use apmec.Meo.Ns.{MistralObj, outputs_of, status_of, create_ns_post}
use apmec.Meo.Vim.Default.{OneDefault}
use apmec.Meo.Params.{process_parameterized_input, mentions, update_params, update_nodes}
use apmec.Meo.Params.Filled.{are_filled, process_input-filled}
use apmec.Meo.Register.{VimDrivers, VimUpdate, update_vim, delete_vim}
use apmec.Meo.Register.Refuses.{change_vim-refused}
use apmec.Meo.Register.Default.{create_vim_call, run_vim_call, run_vim_call-OneDefault}
use apmec.Meo.Workflow.{Workflows, Orchestra, poll, clean_up, wait_create, on_world, ask}
use apmec.Meo.Workflow.Poll.{after_calls, poll-Ends}
use apmec.Meo.Workflow.Settled.{AllHave, ShownLast, wait_create-AllHave}
use apmec.Meo.Workflow.Returns.{Answers, returned, wait_create-returned}
use apmec.Mec.World.{World}
use apmec.Mec.World
use apmec.Tests.{test_env, test_env-IsLater, alice, running}
use apmec.Tests.MecExamples.{world, test_drivers}
use apmec.Tests.MeoExamples.{first_vim, service}

-- {nsd: {flavor: m1}} and VDU: {properties: {flavor: {get_input: flavor}}}
abbrev inputs : Fields
inputs = entry "flavor" (text "m1") object_end

abbrev nodes : Fields
nodes =
    entry "VDU"
      (object (
        entry "properties"
          (object
            (entry "flavor" (object (entry "get_input" (text "flavor") object_end)) object_end))
          object_end))
      object_end

abbrev filled_nodes : Fields
filled_nodes =
    entry "VDU"
      (object (entry "properties" (object (entry "flavor" (text "m1") object_end)) object_end))
      object_end

fills :
    process_parameterized_input (some (object (entry "nsd" (object inputs) object_end))) nodes
    ≡ ok filled_nodes
unfolding process_parameterized_input update_nodes update_params mentions
fills = refl

process_input-filled_example : are_filled filled_nodes ≡ true
unfolding are_filled
process_input-filled_example =
    process_input-filled (object (entry "nsd" (object inputs) object_end)) inputs nodes filled_nodes
      refl refl refl fills

abbrev test_vims : VimDrivers
test_vims = record {
  knows = λ type. type == "openstack";
  register_vim = λ n vim_obj. (ok tt, vim_obj);
  deregister_vim = λ n vim_obj. ok tt;
  delete_vim_auth = λ n id cred. ok tt;
}

run_vim_call-OneDefault_example :
    OneDefault alice
      (run_vim_call test_env test_vims alice (create_vim_call first_vim) world).1.db.tables
unfolding Table.select
run_vim_call-OneDefault_example =
    run_vim_call-OneDefault test_env test_env-IsLater test_vims alice (create_vim_call first_vim)
      world ((tt, tt), omega arith)

abbrev renamed : VimUpdate
renamed = record {
  name = some "north";
  description = none;
  is_default = none;
  placement_attr = none;
  vim_project = none;
  auth_cred = none;
}

change_vim-refused_example :
    (update_vim test_env test_vims alice "#vim" renamed world ≡ (err (vim_in_use "#vim"), world))
    × (delete_vim test_env test_vims alice "#vim" world ≡ (err (vim_in_use "#vim"), world))
change_vim-refused_example =
    change_vim-refused alice "#vim" running refl test_env test_vims world (Memᴰ.head refl) renamed

abbrev done : MistralObj
done = record { state = "SUCCESS"; output = [] }

abbrev test_flows : Workflows
test_flows = record {
  prepare_create = λ n type ns. ok "workflow";
  prepare_delete = λ n type ns. ok "workflow";
  execute_workflow = λ n type workflow. ok "execution";
  get_execution = λ n type execution. ok done;
  delete_execution = λ n type execution. ok tt;
  delete_workflow = λ n type workflow. ok tt;
  literal_eval = λ s. ok s;
}

-- A workflow that never ends.
abbrev running_flow : MistralObj
running_flow = record { state = "RUNNING"; output = [] }

abbrev slow_flows : Workflows
slow_flows = record test_flows { get_execution = λ n type execution. ok running_flow }

abbrev orchestra : Orchestra
orchestra = record {
  world = record world {
    db = record world.db { tables = record world.db.tables { nss = service ∷ [] } };
  };
  spawned = [];
}

poll-Ends_example :
    (last : String) × (left : ℕ) × (c : ℕ) × (poll slow_flows "openstack" "execution" 30 "RUNNING"
        orchestra
      ≡ (ok (last, left), after_calls c orchestra))
    × (c ≤ 30)
    × (((last == "RUNNING") ≡ false) ⊎ ((left ≡ 0) × (c ≡ 30)))
poll-Ends_example =
    poll-Ends slow_flows "openstack" "execution" (λ _. running_flow) (λ _. refl) 30 "RUNNING"
      orchestra

abbrev created_orchestra : Orchestra
created_orchestra =
    (wait_create test_flows test_env test_drivers alice "openstack" "#ns" "execution" "workflow" []
      orchestra).1

creates :
    wait_create test_flows test_env test_drivers alice "openstack" "#ns" "execution" "workflow" []
      orchestra
    ≡ (ok tt, created_orchestra)
unfolding wait_create poll clean_up ask on_world World.on_db World.call create_ns_post outputs_of
    update_nss Session.query Session.write Session.transaction Session.utcnow create_event
    Table.select Table.update Exec.◌>>=◌
creates = refl

wait_create-AllHave_example :
    (exec_obj : MistralObj) × ShownLast test_flows "openstack" "execution" "workflow" exec_obj
      created_orchestra
    × AllHave "#ns" (status_of exec_obj) created_orchestra.world.db.tables
wait_create-AllHave_example =
    wait_create-AllHave test_flows "openstack" "execution" "workflow" test_env alice "#ns" []
      test_drivers orchestra created_orchestra creates

test_answers : Answers test_flows "openstack" "#ns" "execution" "workflow" []
unfolding outputs_of
test_answers = record {
  execution = λ _. done;
  found = λ _. ([], []);
  shows = λ _. refl;
  reads = λ _. refl;
  forgets_execution = λ _. refl;
  forgets_workflow = λ _. refl;
}

wait_create-returned_example :
    returned (
      wait_create test_flows test_env test_drivers alice "openstack" "#ns" "execution" "workflow" []
        orchestra)
    ≡ true
unfolding Table.select
wait_create-returned_example =
    wait_create-returned test_flows "openstack" "#ns" "execution" "workflow" [] test_env
      test_drivers alice orchestra service test_answers (λ _. refl) refl
