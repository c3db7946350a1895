-- ===== src/Mem/Mea/Rules.antt =====
-- Each operation of the database plugin, and the rule on MEAs that it keeps.
use apmec.Prelude.{String, Bool, true, false, Option, List, [], ◌∷◌, ◌&&◌, not}
use apmec.Constants.{
  Status, active, pending_create, pending_update, pending_delete, dead, error, in_statuses,
  status_eq,
}
use apmec.Exec.{Exec, pure, ◌>>=◌}
use apmec.Db.{Db, Env, Context}
use apmec.Mem.MeadRow.{MeadRequest, MeadChanges}
use apmec.Mem.Mead.{create_mead, update_mead, delete_mead}
use apmec.Mem.MeaRow.{MeaDict}
use apmec.Mem.Change.{MeaRule}
use apmec.Mem.Mea.Create.{MeaRequest, create_mea_pre, create_mea_post, create_mea_status}
use apmec.Mem.Mea.Update.{update_mea_scaling_status, update_mea_pre, update_mea_post}
use apmec.Mem.Mea.Delete.{delete_mea_pre, delete_mea_post}
use apmec.Mem.Mea.Mark.{admin_context, set_mea_error_status_reason, mark_mea_status}

-- The operations that a session may make, each in one transaction or a few.
pub data MeaOp : Type 0 where
  create_mead_op : MeadRequest → MeaOp
  update_mead_op : String → MeadChanges → MeaOp
  delete_mead_op : String → Bool → MeaOp
  create_pre_op : MeaRequest → MeaOp
  create_post_op : String → Option String → Option String → MeaDict → MeaOp
  create_status_op : String → Status → MeaOp
  scaling_op : String → List Status → Status → Option String → MeaOp
  update_pre_op : String → MeaOp
  update_post_op : String → Status → MeaDict → MeaOp
  delete_pre_op : String → MeaOp
  delete_post_op : MeaDict → Bool → Bool → MeaOp
  error_reason_op : String → String → MeaOp
  mark_op : String → List Status → Status → MeaOp

abbrev pub drop : {A : Type 0} → Exec Db A → Exec Db (Unit {0})
drop m = m >>= λ _. pure tt

module _ (env : Env) (context : Context) where
  unfoldable pub run_op : MeaOp → Exec Db (Unit {0})
  run_op (create_mead_op mead) = drop (create_mead env context mead)
  run_op (update_mead_op mead_id changes) = drop (update_mead env context mead_id changes)
  run_op (delete_mead_op mead_id soft) = delete_mead env context mead_id soft
  run_op (create_pre_op mea) = drop (create_mea_pre env context mea)
  run_op (create_post_op mea_id instance_id mgmt_url mea_dict) =
      create_mea_post env context mea_id instance_id mgmt_url mea_dict
  run_op (create_status_op mea_id status) = create_mea_status env context mea_id status
  run_op (scaling_op mea_id previous status mgmt_url) =
      drop (update_mea_scaling_status env context mea_id previous status mgmt_url)
  run_op (update_pre_op mea_id) = drop (update_mea_pre env context mea_id)
  run_op (update_post_op mea_id status mea_dict) =
      update_mea_post env context mea_id status mea_dict
  run_op (delete_pre_op mea_id) = drop (delete_mea_pre env context mea_id)
  run_op (delete_post_op mea_dict failed soft) = delete_mea_post env context mea_dict failed soft
  run_op (error_reason_op mea_id reason) = set_mea_error_status_reason context mea_id reason
  run_op (mark_op mea_id exclude status) = drop (mark_mea_status env mea_id exclude status)

abbrev pub locks : List Status → Status → Bool
locks statuses s = in_statuses statuses s && not (status_eq s pending_update)

abbrev pub moving : Context → (Status → Bool) → List Status → MeaRule
moving context from to = record {
  context = context;
  from = from;
  to = in_statuses to;
  creates = false;
  deletes = false;
}

-- Between which statuses an operation moves a MEA, and which operation adds or removes rows.
abbrev pub rule_of : Context → MeaOp → MeaRule
rule_of context (create_pre_op mea) = record (moving context (λ _. false) []) { creates = true }
rule_of context (create_post_op _ _ _ _) =
    moving context (in_statuses (pending_create ∷ dead ∷ [])) (error ∷ [])
rule_of context (create_status_op _ status) =
    moving context (in_statuses (pending_create ∷ dead ∷ [])) (status ∷ [])
rule_of context (scaling_op _ previous status _) = moving context (locks previous) (status ∷ [])
rule_of context (update_pre_op _) = moving context (in_statuses (active ∷ [])) (pending_update ∷ [])
rule_of context (update_post_op _ status _) =
    moving context (in_statuses (pending_update ∷ [])) (status ∷ [])
rule_of context (delete_pre_op _) =
    moving context (in_statuses (pending_create ∷ active ∷ error ∷ dead ∷ [])) (pending_delete ∷ [])
rule_of context (delete_post_op _ _ soft) =
    record (moving context (in_statuses (pending_delete ∷ [])) (error ∷ [])) { deletes = not soft }
rule_of context (mark_op _ exclude status) =
    moving admin_context (λ s. not (in_statuses exclude s)) (status ∷ [])
rule_of context _ = moving context (λ _. false) []
