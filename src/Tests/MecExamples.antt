-- ===== src/Tests/MecExamples.antt =====
-- mem/plugin.py on a small database, with a VIM and drivers that succeed.
use apmec.Prelude.{String, ◌≡◌, refl, true, false, none, some, List, [], ◌∷◌, ◌==◌, ◌↔◌}
use apmec.Errors.{ok, err, value_error, driver_failed}
use apmec.Exec
use apmec.Exec.{Exec, pure, ◌>>=◌, ◌>>◌}
use apmec.Table
use apmec.Table.Evolves.{Evolves}
use apmec.Dict
use apmec.Dict.{Dict}
use apmec.Text.{split_on}
use apmec.Value.{Value, text, object, array, object_end, entry, array_end, element, value_eq}
use apmec.Db.{Vim, VimAuth, datetime_min}
use apmec.Session
use apmec.Events.{create_event}
use apmec.Mem.Change.{mea_change, MeaIds}
use apmec.Mem.MeadRow.{make_mead_dict}
use apmec.Mem.MeaRow.{MeaDict, mea_dict, get_mea_resource, make_mea_dict, flush_meas, update_meas}
use apmec.Mem.Mea.Any.{any_rule}
use apmec.Mem.Mea.Reference.{get_mea}
use apmec.Mem.Mea.Update.{get_mea_db, update_mea_scaling_status}
use apmec.Mem.Mea.Delete.{delete_mea_pre}
use apmec.Meo.VimRow.{make_vim_dict}
use apmec.Mec.World
use apmec.Mec.World.{World, Drivers, Policy}
use apmec.Mec.VimClient.{find_vim, client_get_vim, get_infra_driver}
use apmec.Mec.Policies.{
  Filters, fits, make_policy_dict, policies_of_entry, policies_of, read_template, get_mea_policies,
  get_mea_policy,
}
use apmec.Mec.Scaling.{
  policy_scaling, create_mea_scale, handle_mea_scaling, scaling_pre, policy_action,
  validate_scaling_policy,
}
use apmec.Mec.Delete.{delete_mea, try_delete, infra_delete}
use apmec.Mec.Update.{try_mgmt}
use apmec.Mec.Calls.{
  Call, update_call, delete_call, pass_call, task_call, run_calls, run_calls-Evolves,
}
use apmec.Mec.Asked.{IsScaling, IsDirection, create_mea_scale-Spawned}
use apmec.Mec.Asked
use apmec.Mec.Unhosted
use apmec.Mec.Unhosted.{Unhosted, delete_mea-Unhosted}
use apmec.Mec.Names.{IsWithout, scaling_name_iff}
use apmec.Mec.Triggers.{
  name_and_action, Trigger, PolicyActions, process_alarm_for_mea, by_parts, custom_action,
  sort_actions, validate_alarming_policy, run_customs, handle_mea_monitoring,
}
use apmec.Mec.Actions.{no_args, execute_action}
use apmec.Mec.Twice.{handle_monitoring-twice}
use apmec.Mec.Declared.{IsDeclared}
use apmec.Tests.{test_env, alice, running, removed, two_meas, firewall}
use apmec.Tests.MemExamples.{two_meas_ids}

-- topology_template: {policies: [{SP1: {type: tosca.policies.apmec.Scaling}}]}
abbrev pub template : Value
template = object (
    entry "topology_template"
      (object (
        entry "policies"
          (array (
            element
              (object
                (entry "SP1" (object (entry "type" (text policy_scaling) object_end)) object_end))
              array_end))
          object_end))
      object_end)

abbrev pub test_drivers : Drivers
test_drivers = record {
  knows = λ name. name == "openstack";
  create = λ n name mea auth. (ok (some "stack"), mea);
  create_wait = λ n name mea instance_id auth. (ok tt, mea);
  update = λ n name mea attributes auth. (ok tt, mea);
  update_wait = λ n name mea auth. err (driver_failed "timeout");
  delete = λ n name mea auth. ok tt;
  delete_wait = λ n name mea auth. ok tt;
  scale = λ n name policy action auth. ok (some "event");
  scale_wait = λ n name policy action event auth. ok none;
  mgmt = λ n driver method mea. (ok tt, mea);
  process_alarm = λ n driver mea_id params. ok true;
  call_alarm_url = λ n driver mea trigger actions. ok "http://alarm";
  monitor_call = λ n driver mea ip. ok "failure";
  delete_stack = λ n auth mea. ok tt;
  text_of = λ e. "error";
  show_urls = λ urls. "urls";
  safe_load = λ s. ok template;
  loads_ips = λ url. ok [];
  loads_policy = λ s. err value_error;
  regions_of = λ s. [];
  region_of = λ s. none;
  with_vim_name = λ s name. s;
  decode = λ n id auth. ok "secret";
}

abbrev site : Vim
site = record {
  id = "#vim";
  type = "openstack";
  tenant_id = "alice";
  name = "site";
  description = none;
  placement_attr = "";
  shared = false;
  is_default = true;
  status = "REACHABLE";
  created_at = 5;
  updated_at = none;
  deleted_at = some datetime_min;
}

abbrev site_auth : VimAuth
site_auth = record {
  id = "#auth";
  vim_id = "#vim";
  password = "";
  auth_url = "http://site";
  vim_project = "";
  auth_cred = [];
}

-- A MEA that runs, with its template, on a VIM.
abbrev pub world : World
world = record {
  db = record two_meas {
    tables = record two_meas.tables {
      mead_attributes =
          record { id = "#a"; mead_id = "#mead"; key = "mead"; value = "template" } ∷ [];
      vims = site ∷ [];
      vim_auths = site_auth ∷ [];
    };
  };
  monitor = record { hosting_meas = []; objects = [] };
  spawned = [];
  calls = 0;
}

abbrev some_calls : List Call
some_calls = update_call alice "#mea" [] ∷ task_call 0 ∷ delete_call alice "#mea" ∷ pass_call ∷ []

run_calls-Evolves_example :
    MeaIds (run_calls test_env test_drivers 30 world some_calls).db.tables
    × Evolves
        (mea_change any_rule)
        (running ∷ removed ∷ [])
        (run_calls test_env test_drivers 30 world some_calls).db.tables.meas
run_calls-Evolves_example = run_calls-Evolves test_env test_drivers 30 world some_calls two_meas_ids

abbrev scaled : World
scaled = (create_mea_scale test_env test_drivers alice "#mea" "SP1" (some "out") world).1

scales :
    create_mea_scale test_env test_drivers alice "#mea" "SP1" (some "out") world ≡ (ok tt, scaled)
unfolding create_mea_scale get_mea_policy get_mea_policies read_template policies_of
    policies_of_entry fits make_policy_dict get_mea get_mea_resource handle_mea_scaling
    validate_scaling_policy scaling_pre update_mea_scaling_status get_mea_db get_infra_driver
    client_get_vim find_vim policy_action World.on_db World.call World.spawn_n Session.transaction
    Session.query Session.write Session.utcnow Session.generate_uuid update_meas flush_meas
    make_mea_dict make_mead_dict make_vim_dict create_event Table.select Table.update Table.first
    Dict.update Dict.insert Dict.lookup Dict.erase Exec.◌>>=◌ apmec.Meo.Vim.get_vim value_eq
scales = refl

create_mea_scale-Spawned_example :
    (p : Policy) × (action : String) × (mea : MeaDict) × (template : Value) × (w1 : World)
    × (w2 : World) × (World.on_db (get_mea test_env alice "#mea") world ≡ (ok mea, w1))
    × (read_template test_env test_drivers mea w1 ≡ (ok template, w2))
    × IsDeclared mea p template
    × (p.name ≡ "SP1")
    × IsScaling p
    × (some "out" ≡ some action)
    × IsDirection action
    × Asked.Spawned alice p action scaled
create_mea_scale-Spawned_example =
    create_mea_scale-Spawned test_env test_drivers alice "#mea" "SP1" (some "out") world scaled refl
      scales

abbrev by_type : Filters
by_type = record { name = none; type = some policy_scaling }

abbrev found_policies : List Policy
found_policies =
    record {
      type = text policy_scaling;
      properties = Value.null;
      mea = mea_dict running world.db.tables firewall;
      name = "SP1";
      id = "#";
    }
    ∷ []

abbrev after_policies : World
after_policies = (get_mea_policies test_env test_drivers alice "#mea" by_type world).1

finds :
    get_mea_policies test_env test_drivers alice "#mea" by_type world
    ≡ (ok found_policies, after_policies)
unfolding get_mea_policies read_template policies_of policies_of_entry fits make_policy_dict get_mea
    get_mea_resource World.on_db Session.transaction Session.query Session.generate_uuid
    make_mea_dict make_mead_dict Table.select Table.first Dict.update Dict.insert Dict.lookup
    Exec.◌>>=◌ value_eq
finds = refl

abbrev deleting : World
deleting = (delete_mea test_env test_drivers alice "#mea" world).1

deletes : delete_mea test_env test_drivers alice "#mea" world ≡ (ok tt, deleting)
unfolding delete_mea delete_mea_pre get_mea_db get_infra_driver client_get_vim find_vim try_delete
    infra_delete try_mgmt World.on_db World.call World.drive World.on_monitor World.spawn_n
    Session.transaction Session.query Session.write Session.utcnow update_meas flush_meas
    make_mea_dict make_mead_dict make_vim_dict create_event Table.select Table.update Table.first
    Dict.update Dict.insert Dict.lookup Dict.erase Exec.◌>>=◌ apmec.Meo.Vim.get_vim
deletes = refl

delete_mea-Unhosted_example : Unhosted "#mea" deleting × Unhosted.Spawned alice deleting
delete_mea-Unhosted_example =
    delete_mea-Unhosted "#mea" test_env test_drivers alice world deleting deletes

abbrev gate : MeaDict
gate = mea_dict running world.db.tables firewall

scaling_name_iff_example :
    (name_and_action (split_on 45 "SP1-out") ≡ some ("SP1", "out")) ↔ IsWithout 45 "SP1"
unfolding value_eq
scaling_name_iff_example = scaling_name_iff "SP1" (text "gt")

abbrev log_trigger : Trigger
log_trigger = record {
  trigger_name = "high";
  trigger_dict = object (
      entry "event_type" (object (entry "implementation" (text "ceilometer") object_end))
        object_end);
  mea = gate;
  action_name = "log";
  params = object (entry "data" (object object_end) object_end);
}

abbrev log_only : PolicyActions
log_only = record { def_actions = "log" ∷ []; custom_actions = [] }

abbrev validated : World
validated = (validate_alarming_policy test_env test_drivers alice "#mea" log_trigger world).1

validates :
    validate_alarming_policy test_env test_drivers alice "#mea" log_trigger world
    ≡ (ok log_only, validated)
unfolding validate_alarming_policy process_alarm_for_mea sort_actions custom_action by_parts
    split_on get_mea_policy get_mea_policies read_template policies_of policies_of_entry fits
    make_policy_dict get_mea get_mea_resource World.on_db World.call Session.transaction
    Session.query Session.generate_uuid make_mea_dict make_mead_dict Table.select Table.first
    Dict.update Dict.insert Dict.lookup Exec.◌>>=◌ value_eq
validates = refl

handle_monitoring-twice_example :
    handle_mea_monitoring test_env test_drivers alice log_trigger log_only ≡ (do
      once ← execute_action test_env test_drivers "log" alice gate no_args
      twice ← execute_action test_env test_drivers "log" alice once no_args
      run_customs test_env test_drivers alice twice []
      pure tt)
handle_monitoring-twice_example =
    handle_monitoring-twice test_env test_drivers alice log_trigger "#mea" log_only world validated
      refl (refl, (refl, (refl, tt))) validates
