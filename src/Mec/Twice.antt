-- ===== src/Mec/Twice.antt =====
-- mem/plugin.py: a trigger whose action's name is one default action.
use mathlib.Core.Path.{fun_ext}
use apmec.Prelude.{String, ◌≡◌, refl, ap, true, [], ◌∷◌}
use apmec.Errors.{ok}
use apmec.Exec.{Exec, pure, ◌>>=◌, ◌>>◌, bind_assoc}
use apmec.Exec.Triple.{Triple, Triple-pure, Triple-raise, Triple-if, Triple-after}
use apmec.Dict.{Dict}
use apmec.Db.{Env, Context}
use apmec.Mem.MeaRow.{MeaDict}
use apmec.Mec.World.{World, Drivers}
use apmec.Mec.Names.{IsWithout, split_on-alone}
use apmec.Mec.Actions.{no_args, execute_action}
use apmec.Mec.Triggers.{
  Trigger, CustomAction, PolicyActions, is_default, code_percent, sort_actions,
  validate_alarming_policy, run_defaults, run_customs, handle_mea_monitoring,
}

module _ (env : Env) (drv : Drivers) (context : Context) (trigger : Trigger) where
  sorted_default :
      (mea_id : String)
      → is_default trigger.action_name ≡ true
      → Triple
          (λ _. Unit {0})
          (sort_actions env drv context mea_id
            (record { def_actions = []; custom_actions = [] })
            (trigger.action_name ∷ []))
          (λ acts _. acts.def_actions ≡ trigger.action_name ∷ [])
  unfolding sort_actions
  sorted_default mea_id h = Triple-after _ _ _ _ λ custom. Triple-pure _ _ _ λ s _. rw h refl

  validated :
      (mea_id : String)
      → is_default trigger.action_name ≡ true
      → IsWithout code_percent trigger.action_name
      → Triple
          (λ _. Unit {0})
          (validate_alarming_policy env drv context mea_id trigger)
          (λ acts _. acts.def_actions ≡ trigger.action_name ∷ [])
  unfolding validate_alarming_policy
  validated mea_id h alone = Triple-after _ _ _ _ λ valid.
      Triple-if _ _ valid _ _
        (λ _. rw (split_on-alone code_percent trigger.action_name alone) (sorted_default mea_id h))
        (λ _. Triple-raise _ _ _)

  once_more :
      (customs : Dict CustomAction) (once : MeaDict)
      → (do
        handled ← run_defaults env drv context once (trigger.action_name ∷ [])
        run_customs env drv context handled customs
        pure tt)
        ≡ (do
          twice ← execute_action env drv trigger.action_name context once no_args
          run_customs env drv context twice customs
          pure tt)
  unfolding run_defaults ◌>>=◌
  once_more customs once =
      bind_assoc (λ after. run_defaults env drv context after [])
        (λ handled. run_customs env drv context handled customs >> pure tt)
        (execute_action env drv trigger.action_name context once no_args)

  -- Where a trigger's action is one of the default actions, and `_validate_alarming_policy` returns,
  -- `_handle_mea_monitoring` with what it returns executes the action twice, the second time on the
  -- dict that the first has left.
  pub handle_monitoring-twice :
      (mea_id : String) (acts : PolicyActions) (w w' : World)
      → is_default trigger.action_name ≡ true
      → IsWithout code_percent trigger.action_name
      → validate_alarming_policy env drv context mea_id trigger w ≡ (ok acts, w')
      → handle_mea_monitoring env drv context trigger acts ≡ (do
        once ← execute_action env drv trigger.action_name context trigger.mea no_args
        twice ← execute_action env drv trigger.action_name context once no_args
        run_customs env drv context twice acts.custom_actions
        pure tt)
  unfolding handle_mea_monitoring
  handle_monitoring-twice mea_id acts w w' h alone e =
      let defs = (validated mea_id h alone).at w tt acts w' e in
      rw (h, defs)
        (ap
          (λ (k : MeaDict → Exec World (Unit {0})).
            execute_action env drv trigger.action_name context trigger.mea no_args >>= k)
          (fun_ext λ once. once_more acts.custom_actions once))
