-- ===== src/Mec/Database.antt =====
-- The operations of the database plugins that the MEC plugin calls: none removes a MEA.
use apmec.Prelude.{ℕ, String, Bool, refl, true, Option, List, [], ◌∷◌}
use apmec.Constants.{
  Status, down, pending_create, pending_update, pending_delete, inactive, error, dead, in_status,
  res_mea, evt_monitor,
}
use apmec.Db.{Env, Context}
use apmec.Session.Moves.{Moves, moves_rules}
use apmec.Events.{create_event}
use apmec.Mem.Change.{mea_moves}
use apmec.Mem.Mea.Any.{any_rule, Moves-any}
use apmec.Mem.MeaRow.{MeaDict, make_mea_dict, get_mea_resource}
use apmec.Mem.Mea.Rules.{
  create_pre_op, create_post_op, create_status_op, scaling_op, update_pre_op, update_post_op,
  delete_pre_op, delete_post_op, error_reason_op, mark_op, rule_of,
}
use apmec.Mem.Mea.Create.{MeaRequest, create_mea_pre, create_mea_post, create_mea_status}
use apmec.Mem.Mea.Update.{update_mea_scaling_status, update_mea_pre, update_mea_post}
use apmec.Mem.Mea.Delete.{delete_mea_pre, delete_mea_post}
use apmec.Mem.Mea.Mark.{admin_context, set_mea_error_status_reason, mark_mea_dead}
use apmec.Mem.Mea.Reference.{get_mea}
use apmec.Mem.Mea.Moves.{create_event-Moves}
use apmec.Mem.Mea.Within.{
  create_pre-Moves, create_status-Moves, scaling-Moves, update_pre-Moves, delete_pre-Moves,
}
use apmec.Mem.Mea.Every.{
  create_post-Moves, update_post-Moves, delete_post-Moves, error_reason-Moves, mark-Moves,
}
use apmec.Meo.Vim.{get_default_vim}
use apmec.Meo.Vim
use apmec.Meo.VimRow.{make_vim_dict}

module _ (env : Env) (context : Context) where
  -- The database operations.
  pub create_pre-any :
      (mea : MeaRequest) → Moves (mea_moves any_rule) (create_mea_pre env context mea)
  create_pre-any mea =
      Moves-any (rule_of context (create_pre_op mea)) refl _ (create_pre-Moves env context mea)

  pub create_post-any :
      (mea_id : String) (instance_id mgmt_url : Option String) (mea_dict : MeaDict)
      → Moves
          (mea_moves any_rule)
          (create_mea_post env context mea_id instance_id mgmt_url mea_dict)
  create_post-any a b c d =
      Moves-any (rule_of context (create_post_op a b c d)) refl _
        (create_post-Moves env context a b c d)

  pub create_status-any :
      (mea_id : String) (status : Status)
      → Moves (mea_moves any_rule) (create_mea_status env context mea_id status)
  create_status-any a b =
      Moves-any (rule_of context (create_status_op a b)) refl _
        (create_status-Moves env context a b)

  pub scaling-any :
      (mea_id : String) (previous : List Status) (status : Status) (mgmt_url : Option String)
      → Moves
          (mea_moves any_rule)
          (update_mea_scaling_status env context mea_id previous status mgmt_url)
  scaling-any a b c d =
      Moves-any (rule_of context (scaling_op a b c d)) refl _ (scaling-Moves env context a b c d)

  pub update_pre-any :
      (mea_id : String) → Moves (mea_moves any_rule) (update_mea_pre env context mea_id)
  update_pre-any a =
      Moves-any (rule_of context (update_pre_op a)) refl _ (update_pre-Moves env context a)

  pub update_post-any :
      (mea_id : String) (status : Status) (mea_dict : MeaDict)
      → Moves (mea_moves any_rule) (update_mea_post env context mea_id status mea_dict)
  update_post-any a b c =
      Moves-any (rule_of context (update_post_op a b c)) refl _
        (update_post-Moves env context a b c)

  pub delete_pre-any :
      (mea_id : String) → Moves (mea_moves any_rule) (delete_mea_pre env context mea_id)
  delete_pre-any a =
      Moves-any (rule_of context (delete_pre_op a)) refl _ (delete_pre-Moves env context a)

  pub delete_post-any :
      (mea_dict : MeaDict) (failed : Bool)
      → Moves (mea_moves any_rule) (delete_mea_post env context mea_dict failed true)
  delete_post-any a b =
      Moves-any (rule_of context (delete_post_op a b true)) refl _
        (delete_post-Moves env context a b true)

  pub error_reason-any :
      (mea_id reason : String)
      → Moves (mea_moves any_rule) (set_mea_error_status_reason context mea_id reason)
  error_reason-any a b =
      Moves-any (rule_of context (error_reason_op a b)) refl _ (error_reason-Moves env context a b)

  -- The reads.
  pub get_mea-any : (mea_id : String) → Moves (mea_moves any_rule) (get_mea env context mea_id)
  unfolding get_mea get_mea_resource make_mea_dict
  get_mea-any mea_id = search moves_rules

  pub get_vim-any :
      (vim_id : String) (mask : Bool)
      → Moves (mea_moves any_rule) (Vim.get_vim env context vim_id mask)
  unfolding Vim.get_vim make_vim_dict
  get_vim-any vim_id mask = search moves_rules

  pub get_default_vim-any : Moves (mea_moves any_rule) (get_default_vim env context)
  unfolding get_default_vim make_vim_dict
  get_default_vim-any = search moves_rules

pub mark_dead-any :
    (env : Env) (mea_id : String) → Moves (mea_moves any_rule) (mark_mea_dead env mea_id)
unfolding mark_mea_dead
mark_dead-any env a =
    Moves-any
      (rule_of admin_context (
        mark_op a (down ∷ pending_create ∷ pending_update ∷ pending_delete ∷ inactive ∷ error ∷ [])
          dead))
      refl _ (mark-Moves env admin_context a _ dead)

pub event-any :
    (env : Env) (mea_id : String) (status : Status) (now : ℕ) (details : String)
    → Moves
        (mea_moves any_rule)
        (create_event env mea_id res_mea (in_status status) evt_monitor now details)
event-any env a b c d = create_event-Moves any_rule env a res_mea (in_status b) evt_monitor c d

pub ruleset database = (
  create_pre-any, create_post-any, create_status-any, scaling-any, update_pre-any, update_post-any,
  delete_pre-any, delete_post-any, error_reason-any, get_mea-any, get_vim-any, get_default_vim-any,
  mark_dead-any, event-any,
)
