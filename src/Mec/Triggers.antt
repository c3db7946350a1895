-- ===== src/Mec/Triggers.antt =====
-- mem/plugin.py: the triggers of a MEA's alarming policy, and the actions that they set off.
use apmec.Prelude.{
  ℕ, String, Bool, true, false, Option, none, some, List, [], ◌∷◌, ◌++◌, ◌==◌, not, any,
  if◌then◌else◌,
}
use apmec.Constants.{active, status_eq}
use apmec.Errors.{Result, ok, err, attribute_error, trigger_not_found, alarm_url_invalid}
use apmec.Exec.{Exec, pure, raise, lift, ◌>>=◌, ◌>>◌}
use apmec.Dict.{Dict, insert}
use apmec.Text.{split_on}
use apmec.Value.{Value, text, object, null, object_end, entry, get, value_eq}
use apmec.Db.{Env, Context}
use apmec.Mem.MeaRow.{MeaDict}
use apmec.Mec.World.{World, Drivers, Policy, call}
use apmec.Mec.Policies.{
  index, get_or, get_mea_policies, get_mea_policy, get_mea_policy_by_type, first_policy,
}
use apmec.Mec.Scaling.{policy_scaling}
use apmec.Mec.Alarms.{policy_alarming}
use apmec.Mec.Actions.{no_args, scale_args, execute_action}

-- DEFAULT_ALARM_ACTIONS
abbrev default_alarm_actions : List String
default_alarm_actions = "respawn" ∷ "log" ∷ "log_and_kill" ∷ "notify" ∷ []

abbrev pub is_default : String → Bool
is_default action = any (λ a. a == action) default_alarm_actions

-- The dict of a trigger: its name and declaration, its MEA, and what the request gives.
pub record Trigger : Type 0 where
  pub trigger_name : String
  pub trigger_dict : Value
  pub mea : MeaDict
  pub action_name : String
  pub params : Value

-- An action by a policy: the policy and the direction that the action's name has.
pub record CustomAction : Type 0 where
  pub bckend_policy : Policy
  pub bckend_action : Option String

-- `policy_actions`; the custom actions by the policies' ids
pub record PolicyActions : Type 0 where
  pub def_actions : List String
  pub custom_actions : Dict CustomAction

abbrev trigger_in : String → Value → Result (Option Value)
trigger_in name (object f) = ok (get name f)
trigger_in name v = err attribute_error

-- The name and the direction of `SP1-in`: two parts, or none.
abbrev pub name_and_action : List String → Option (String × String)
name_and_action (name ∷ action ∷ []) = some (name, action)
name_and_action _ = none

abbrev pub code_percent : ℕ
code_percent = 37

abbrev pub code_dash : ℕ
code_dash = 45

module _ (env : Env) (drv : Drivers) where
  unfoldable pub or_not_found : String → String → Option Value → Exec World Value
  or_not_found trigger_name mea_id none = raise (trigger_not_found trigger_name mea_id)
  or_not_found trigger_name mea_id (some trigger_dict) = pure trigger_dict

  -- `get_mea_trigger`, with `_get_mea_triggers`: the declaration of the trigger and its MEA
  unfoldable pub get_mea_trigger : Context → String → String → Exec World (Value × MeaDict)
  unfolding or_not_found
  get_mea_trigger context mea_id trigger_name = do
    policy ← get_mea_policy_by_type env drv context mea_id policy_alarming
    found ← lift (trigger_in trigger_name policy.properties)
    trigger_dict ← or_not_found trigger_name mea_id found
    pure (trigger_dict, policy.mea)

  -- `process_alarm_for_mea` of the alarm monitor
  unfoldable pub process_alarm_for_mea : String → Trigger → Exec World Bool
  process_alarm_for_mea mea_id trigger = do
    given ← lift (index "data" trigger.params)
    alarm_id ← lift (get_or "alarm_id" null given)
    status ← lift (get_or "current" null given)
    event_type ← lift (index "event_type" trigger.trigger_dict)
    driver ← lift (index "implementation" event_type)
    call (λ n.
        drv.process_alarm n driver mea_id
          (object (entry "alarm_id" alarm_id (entry "status" status object_end))))

  unfoldable pub by_parts :
      Context → String → Option (String × String) → Exec World (Option CustomAction)
  by_parts context mea_id none = pure none
  by_parts context mea_id (some (name, action)) = do
    policies ← get_mea_policies env drv context mea_id (record { name = some name; type = none })
    pure (elim (first_policy policies) [
      | none ↦ none
      | some policy ↦ some (record { bckend_policy = policy; bckend_action = some action })
    ])

  -- The policy that one action names, with a direction or without.
  unfoldable pub custom_action : Context → String → String → Exec World (Option CustomAction)
  unfolding by_parts
  custom_action context mea_id action = do
    policy ← get_mea_policy env drv context action mea_id
    elim policy [
      | some p ↦ pure (some (record { bckend_policy = p; bckend_action = none }))
      | none ↦ by_parts context mea_id (name_and_action (split_on code_dash action))
    ]

  abbrev add_default : String → List String → List String
  add_default action actions = if is_default action then actions ++ (action ∷ []) else actions

  abbrev add_custom : Option CustomAction → Dict CustomAction → Dict CustomAction
  add_custom none customs = customs
  add_custom (some c) customs = insert c.bckend_policy.id c customs

  -- The loop over the parts of the action's name.
  unfoldable pub sort_actions :
      Context → String → PolicyActions → List String → Exec World PolicyActions
  sort_actions context mea_id sorted [] = pure sorted
  sort_actions context mea_id sorted (action ∷ more) = do
    custom ← custom_action context mea_id action
    sort_actions context mea_id
        (record {
          def_actions = add_default action sorted.def_actions;
          custom_actions = add_custom custom sorted.custom_actions;
        })
        more

  -- `_validate_alarming_policy`
  unfoldable pub validate_alarming_policy : Context → String → Trigger → Exec World PolicyActions
  validate_alarming_policy context mea_id trigger = do
    valid ← process_alarm_for_mea mea_id trigger
    if valid
        then sort_actions context mea_id (record { def_actions = []; custom_actions = [] })
            (split_on code_percent trigger.action_name)
        else raise (alarm_url_invalid mea_id)

  unfoldable pub run_defaults : Context → MeaDict → List String → Exec World MeaDict
  run_defaults context mea_dict [] = pure mea_dict
  run_defaults context mea_dict (action ∷ more) = do
    after ← execute_action env drv action context mea_dict no_args
    run_defaults context after more

  -- The loop over the custom actions, which returns at a scaling policy if the MEA is not ACTIVE.
  unfoldable pub run_customs : Context → MeaDict → Dict CustomAction → Exec World MeaDict
  run_customs context mea_dict [] = pure mea_dict
  run_customs context mea_dict ((id, c) ∷ more) =
      if not (value_eq c.bckend_policy.type (text policy_scaling))
      then run_customs context mea_dict more
      else elim (status_eq mea_dict.status active) [
        | false ↦ pure mea_dict
        | true ↦ (do
          after ←
              execute_action env drv "autoscaling" context mea_dict
                (scale_args c.bckend_policy.name c.bckend_action)
          run_customs context after more)
      ]

  -- `_handle_mea_monitoring`; the actions write into the trigger's MEA
  unfoldable pub handle_mea_monitoring : Context → Trigger → PolicyActions → Exec World (Unit {0})
  unfolding run_defaults run_customs
  handle_mea_monitoring context trigger policy_actions = do
    after ←
        (if is_default trigger.action_name
          then execute_action env drv trigger.action_name context trigger.mea no_args
          else pure trigger.mea)
    handled ← run_defaults context after policy_actions.def_actions
    run_customs context handled policy_actions.custom_actions
    pure tt

  -- `create_mea_trigger`, of the trigger's name, the action's name and the parameters
  unfoldable pub create_mea_trigger :
      Context → String → String → String → Value → Exec World (Unit {0})
  create_mea_trigger context mea_id policy_name action_name params = do
    found ← get_mea_trigger context mea_id policy_name
    let trigger : Trigger = record {
      trigger_name = policy_name;
      trigger_dict = found.0;
      mea = found.1;
      action_name = action_name;
      params = params;
    }
    policy_actions ← validate_alarming_policy context mea_id trigger
    handle_mea_monitoring context trigger policy_actions
