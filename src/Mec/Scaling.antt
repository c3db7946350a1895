-- ===== src/Mec/Scaling.antt =====
-- mem/plugin.py: the scaling of a MEA by a policy of its template.
use apmec.Prelude.{String, Option, none, some, [], ◌∷◌, ◌==◌, ◌||◌, if◌then◌else◌}
use apmec.Constants.{Status, active, error, pending_scale_in, pending_scale_out}
use apmec.Errors.{Error, mea_policy_type_invalid, mea_policy_action_invalid, mea_policy_not_found}
use apmec.Exec.{Exec, pure, raise, rescue, ◌>>=◌, ◌>>◌}
use apmec.Dict.{Dict}
use apmec.Value.{text, value_eq}
use apmec.Db.{Env, Context}
use apmec.Mem.MeaRow.{MeaDict}
use apmec.Mem.Mea.Update.{update_mea_scaling_status}
use apmec.Mem.Mea.Mark.{set_mea_error_status_reason}
use apmec.Mec.World.{World, Drivers, Policy, action_wait, on_db, call, registered_result, spawn_n}
use apmec.Mec.VimClient.{get_infra_driver}
use apmec.Mec.Policies.{get_mea_policy}

abbrev pub policy_scaling : String
policy_scaling = "tosca.policies.apmec.Scaling"

abbrev pub valid_action : String → Option String → Exec World String
valid_action policy_name none = raise (mea_policy_action_invalid policy_name)
valid_action policy_name (some action) =
    if action == "out" || action == "in"
    then pure action
    else raise (mea_policy_action_invalid policy_name)

-- `_validate_scaling_policy`: POLICY_ACTIONS has one type, with the actions 'out' and 'in'
unfoldable pub validate_scaling_policy : Policy → Option String → Exec World String
validate_scaling_policy policy action =
    if value_eq policy.type (text policy_scaling)
    then valid_action policy.name action
    else raise (mea_policy_type_invalid policy.name)

-- `_get_status`
abbrev scaling_status : String → Status
scaling_status action = if action == "in" then pending_scale_in else pending_scale_out

abbrev pub or_not_found : String → String → Option Policy → Exec World Policy
or_not_found policy mea_id none = raise (mea_policy_not_found policy mea_id)
or_not_found policy mea_id (some p) = pure p

module _ (env : Env) (drv : Drivers) where
  -- `_handle_mea_scaling_pre`
  unfoldable pub scaling_pre : Context → Policy → String → Exec World MeaDict
  scaling_pre context policy action = on_db (
      update_mea_scaling_status env context policy.mea.id (active ∷ []) (scaling_status action)
        none)

  -- `_handle_mea_scaling_post`
  unfoldable pub scaling_post :
      Context → Policy → String → Status → Option String → Exec World MeaDict
  scaling_post context policy action new_status mgmt_url = on_db (
      update_mea_scaling_status env context policy.mea.id (scaling_status action ∷ []) new_status
        mgmt_url)

  -- What the two `except` clauses do before they raise again.
  unfoldable pub scaling_failed : {A : Type 0} → Context → Policy → String → Error → Exec World A
  unfolding scaling_post
  scaling_failed context policy action e = do
    on_db (set_mea_error_status_reason context policy.mea.id (drv.text_of e))
    scaling_post context policy action error none
    raise e

  -- `_mea_policy_action`
  unfoldable pub policy_action :
      Context → Policy → String → Dict String → String → Exec World (Option String)
  unfolding scaling_failed
  policy_action context policy action vim_auth driver_name =
      rescue
        (call (λ n.
          registered_result (drv.knows driver_name)
            (drv.scale n driver_name policy action vim_auth)))
        (scaling_failed context policy action)

  -- `_mea_policy_action_wait`, which the plugin spawns
  unfoldable pub policy_action_wait :
      Context → Policy → String → Dict String → String → Option String → Exec World (Unit {0})
  unfolding scaling_failed scaling_post
  policy_action_wait context policy action vim_auth driver_name last_event_id =
      rescue
        (do
          mgmt_url ← call (λ n.
              registered_result (drv.knows driver_name)
                (drv.scale_wait n driver_name policy action last_event_id vim_auth))
          scaling_post context policy action active mgmt_url
          pure tt)
        (scaling_failed context policy action)

  -- `_handle_mea_scaling`
  unfoldable pub handle_mea_scaling : Context → Policy → Option String → Exec World (Unit {0})
  unfolding validate_scaling_policy scaling_pre policy_action
  handle_mea_scaling context policy given = do
    action ← validate_scaling_policy policy given
    mea ← scaling_pre context policy action
    found ← get_infra_driver env drv context mea
    last_event_id ← policy_action context policy action found.0.vim_auth found.0.vim_type
    spawn_n (action_wait context policy action found.0.vim_auth found.0.vim_type last_event_id)

  -- `create_mea_scale`, of a policy's name and a direction
  unfoldable pub create_mea_scale :
      Context → String → String → Option String → Exec World (Unit {0})
  create_mea_scale context mea_id policy type = do
    found ← get_mea_policy env drv context policy mea_id
    chosen ← or_not_found policy mea_id found
    handle_mea_scaling context chosen type
