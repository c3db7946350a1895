-- ===== src/Mem/Mea/Every.antt =====
-- The last steps of an operation within its rule, and then every operation.
use mathlib.Core.Path.{subst}
use apmec.Prelude.{
  sym, String, ◌≡◌, refl, inr, Bool, true, false, Option, List, [], ◌∷◌, arith, ◌==◌, not,
  if◌then◌else◌,
}
use apmec.Constants.{Status, pending_update, pending_delete, error, in_statuses, status_eq}
use apmec.Exec.{Exec, pure, ◌>>=◌, ◌>>◌}
use apmec.Table
use apmec.Db.{Db, Env, Context, Mea}
use apmec.Errors.{Result, multiple_results_found}
use apmec.Session.Moves.{
  Moves, Moves-pure, Moves-raise, Moves-bind, Moves-bind-query, Moves-transaction, moves_rules,
}
use apmec.Mem.Mead.{delete_mead}
use apmec.Mem.MeaRow.{MeaDict, mea_query, update_meas, has_id, set_status, create_states}
use apmec.Table.Evolves.{Evolves}
use apmec.Mem.Change.{MeaIds, mea_change, MeaRule, same_mea, mea_moves}
use apmec.Mem.Writes.{
  Moves-elsewhere, Moves-update_meas, Moves-delete_meas, Moves-flush_update, rel_update_one,
  select_of_one, update_meas-fuse,
}
use apmec.Mem.Mea.Create.{create_mea_post}
use apmec.Mem.Mea.Update.{update_mea_post}
use apmec.Mem.Mea.Delete.{delete_mea_post}
use apmec.Mem.Mea.Mark.{admin_context, set_mea_error_status_reason, mark_rows, mark_mea_status}
use apmec.Mem.Mea.Moves.{create_event-Moves, store_attributes-Moves}
use apmec.Mem.Mea.Rules.{
  MeaOp, create_mead_op, update_mead_op, delete_mead_op, create_pre_op, create_post_op,
  create_status_op, scaling_op, update_pre_op, update_post_op, delete_pre_op, delete_post_op,
  error_reason_op, mark_op, run_op, rule_of, moving,
}
use apmec.Mem.Mea.Within.{
  kept, moved_row, moved, in_own, create_mead-Moves, update_mead-Moves, delete_mead-Moves,
  create_pre-Moves, create_status-Moves, scaling-Moves, update_pre-Moves, delete_pre-Moves,
}

module _ (env : Env) (context : Context) where
  -- the ids that a creation gets from the driver, and its failure
  post_row :
      (mea_id : String) (instance_id mgmt_url : Option String) (failed : Bool)
      (rest : Exec Db (Unit {0})) (s : Db) (row : Mea)
      → let u = moving context (in_statuses create_states) (error ∷ []) in
        Moves (mea_moves u) rest
        → Table.select (mea_query context mea_id (in_statuses create_states)) s.meas ≡ row ∷ []
        → (mea_moves u).Rel s.tables
            ((update_meas
                  (has_id row.id)
                  (λ r. record r { instance_id = instance_id; mgmt_url = mgmt_url })
                >> ((if failed then update_meas (has_id row.id) (set_status error) else pure tt)
                    >> rest))
              s).1.tables
  unfolding ◌>>=◌
  post_row mea_id instance_id mgmt_url true rest s row moves found =
      let u = moving context (in_statuses create_states) (error ∷ []) in
      subst (λ (x : Result (Unit {0}) × Db). (mea_moves u).Rel s.tables x.1.tables)
        (sym (
          update_meas-fuse row.id (λ r. record r { instance_id = instance_id; mgmt_url = mgmt_url })
            (set_status error) rest (λ r. refl) s))
        (rel_update_one u (mea_query context mea_id (in_statuses create_states)) _ rest (λ r. refl)
          moves s row
          (λ fits.
            moved_row u mea_id (in_statuses create_states) row _ fits
              (same_mea row _ refl refl refl refl refl refl refl) (λ h. h) refl)
          found)
  post_row mea_id instance_id mgmt_url false rest s row moves found =
      let u = moving context (in_statuses create_states) (error ∷ []) in
      rel_update_one u (mea_query context mea_id (in_statuses create_states)) _ rest (λ r. refl)
        moves s row
        (λ fits.
          kept u mea_id (in_statuses create_states) row _ fits
            (same_mea row _ refl refl refl refl refl refl refl) refl)
        found

  pub create_post-Moves :
      (mea_id : String) (instance_id mgmt_url : Option String) (mea_dict : MeaDict)
      → Moves
          (mea_moves (rule_of context (create_post_op mea_id instance_id mgmt_url mea_dict)))
          (create_mea_post env context mea_id instance_id mgmt_url mea_dict)
  unfolding create_mea_post
  create_post-Moves mea_id instance_id mgmt_url mea_dict =
      let u = moving context (in_statuses create_states) (error ∷ []) in
      Moves-bind _ _ _
        (Moves-transaction _ _ (
          Moves-bind-query _ _ _ λ s row found.
            post_row mea_id instance_id mgmt_url _ _ s row (store_attributes-Moves u env mea_id _)
              (select_of_one _ s.meas row found)))
        λ _. search (moves_rules, create_event-Moves) depth 8

  pub update_post-Moves :
      (mea_id : String) (status : Status) (mea_dict : MeaDict)
      → Moves
          (mea_moves (rule_of context (update_post_op mea_id status mea_dict)))
          (update_mea_post env context mea_id status mea_dict)
  unfolding update_mea_post
  update_post-Moves mea_id status mea_dict =
      let u = moving context (in_statuses (pending_update ∷ [])) (status ∷ []) in
      Moves-bind _ _ _ (search moves_rules) λ now.
        Moves-bind _ _ _
          (Moves-transaction _ _ (
            Moves-bind _ _ _
              (Moves-update_meas u (mea_query context mea_id (status_eq pending_update)) _
                (λ r. refl)
                λ row fits.
                  moved_row u mea_id (status_eq pending_update) row _ fits
                    (same_mea row _ refl refl refl refl refl refl refl) (λ h. ground arith)
                    (in_own status))
              λ _.
                Moves-bind _ _ _ (Moves-elsewhere u _ λ t. refl)
                  λ _. store_attributes-Moves u env mea_id _))
          λ _. search (moves_rules, create_event-Moves) depth 8

  delete_inline-Moves :
      (u : MeaRule) (mea_dict : MeaDict)
      → Moves (mea_moves u) (
          if mea_dict.mead.template_source == "inline"
          then delete_mead env context mea_dict.mead_id true
          else pure tt)
  delete_inline-Moves u mea_dict = search (moves_rules, delete_mead-Moves)

  pub delete_post-Moves :
      (mea_dict : MeaDict) (failed soft : Bool)
      → Moves
          (mea_moves (rule_of context (delete_post_op mea_dict failed soft)))
          (delete_mea_post env context mea_dict failed soft)
  unfolding delete_mea_post
  delete_post-Moves mea_dict true soft =
      let u = rule_of context (delete_post_op mea_dict true soft) in
      let p = mea_query context mea_dict.id (status_eq pending_delete) in
      Moves-transaction _ _ (
        Moves-bind _ _ _
          (Moves-update_meas u p _ (λ r. refl)
            λ row fits.
              moved u mea_dict.id (status_eq pending_delete) row error fits (λ h. ground arith)
                refl)
          λ _. search (moves_rules, create_event-Moves) depth 8)
  delete_post-Moves mea_dict false true =
      let u = rule_of context (delete_post_op mea_dict false true) in
      let p = mea_query context mea_dict.id (status_eq pending_delete) in
      Moves-transaction _ _ (
        Moves-bind _ _ _
          (Moves-bind _ _ _ (search moves_rules) λ now.
            Moves-bind _ _ _
              (Moves-flush_update u p _ λ row fits.
                kept u mea_dict.id (status_eq pending_delete) row _ fits
                  (same_mea row _ refl refl refl refl refl refl (ground arith)) refl)
              λ _. search (moves_rules, create_event-Moves) depth 8)
          λ _. delete_inline-Moves u mea_dict)
  delete_post-Moves mea_dict false false =
      let u = rule_of context (delete_post_op mea_dict false false) in
      let p = mea_query context mea_dict.id (status_eq pending_delete) in
      Moves-transaction _ _ (
        Moves-bind _ _ _
          (Moves-bind _ _ _ (Moves-elsewhere u _ λ t. refl)
            λ _. Moves-delete_meas u p λ row fits. (refl, ground arith, inr (ground arith)))
          λ _. delete_inline-Moves u mea_dict)

  pub error_reason-Moves :
      (mea_id reason : String)
      → Moves
          (mea_moves (rule_of context (error_reason_op mea_id reason)))
          (set_mea_error_status_reason context mea_id reason)
  unfolding set_mea_error_status_reason
  error_reason-Moves mea_id reason =
      let u = moving context (λ _. false) [] in
      Moves-transaction _ _ (
        Moves-update_meas u _ _ (λ r. refl)
          λ row fits.
            kept u mea_id (λ _. true) row _ fits (same_mea row _ refl refl refl refl refl refl refl)
              refl)

  mark_found-Moves :
      (mea_id : String) (exclude : List Status) (status : Status) (s : Db) (rows : List Mea)
      → Table.select (mea_query admin_context mea_id (λ t. not (in_statuses exclude t))) s.meas
        ≡ rows
      → (mea_moves (rule_of context (mark_op mea_id exclude status))).Rel s.tables
          (mark_rows env mea_id status rows s).1.tables
  unfolding mark_rows
  mark_found-Moves mea_id exclude status s [] found =
      (Moves-pure (mea_moves (rule_of context (mark_op mea_id exclude status))) false).at s
  mark_found-Moves mea_id exclude status s (row ∷ []) found =
      let u = rule_of context (mark_op mea_id exclude status) in
      let p : Status → Bool = λ t. not (in_statuses exclude t) in
      rel_update_one u (mea_query admin_context mea_id p) (set_status status) _ (λ r. refl)
        (search (moves_rules, create_event-Moves)) s row
        (λ fits. moved u mea_id p row status fits (λ h. h) (in_own status)) found
  mark_found-Moves mea_id exclude status s (row ∷ other ∷ rows) found =
      (Moves-raise (mea_moves (rule_of context (mark_op mea_id exclude status))) {A = Bool}
          multiple_results_found).at
        s

  pub mark-Moves :
      (mea_id : String) (exclude : List Status) (status : Status)
      → Moves
          (mea_moves (rule_of context (mark_op mea_id exclude status)))
          (mark_mea_status env mea_id exclude status)
  unfolding mark_mea_status
  mark-Moves mea_id exclude status =
      Moves-transaction _ _
        (Moves-bind-query _ _ _ λ s rows found. mark_found-Moves mea_id exclude status s rows (cc))

  -- Every operation, in every context, moves the MEAs within its rule, also where it raises.
  pub run_op-Moves : (op : MeaOp) → Moves (mea_moves (rule_of context op)) (run_op env context op)
  unfolding run_op
  run_op-Moves (create_mead_op mead) = search (moves_rules, create_mead-Moves)
  run_op-Moves (update_mead_op mead_id changes) = search (moves_rules, update_mead-Moves)
  run_op-Moves (delete_mead_op mead_id soft) = search (delete_mead-Moves)
  run_op-Moves (create_pre_op mea) = search (moves_rules, create_pre-Moves)
  run_op-Moves (create_post_op a b c d) = create_post-Moves a b c d
  run_op-Moves (create_status_op mea_id status) = create_status-Moves env context mea_id status
  run_op-Moves (scaling_op a b c d) = search (moves_rules, scaling-Moves env context a b c d)
  run_op-Moves (update_pre_op mea_id) = search (moves_rules, update_pre-Moves)
  run_op-Moves (update_post_op a b c) = update_post-Moves a b c
  run_op-Moves (delete_pre_op mea_id) = search (moves_rules, delete_pre-Moves)
  run_op-Moves (delete_post_op a b c) = delete_post-Moves a b c
  run_op-Moves (error_reason_op a b) = error_reason-Moves a b
  run_op-Moves (mark_op a b c) = search (moves_rules, mark-Moves)

-- Any operation in any context, whether it returns or raises, leaves the primary keys of the MEAs
-- distinct and changes the table only within the rule of the operation: a row stays as it is, or is
-- one that the context sees and keeps its id, tenant, name, MEAD, VIM and time of creation while its
-- status stays or moves from one of the rule's statuses to another; only an operation that creates
-- adds rows, of its own tenant unless it is an administrator's; only a deletion that is not soft
-- removes rows, in PENDING_DELETE or on their way to it.
pub run_op-Evolves :
    (env : Env) (context : Context) (op : MeaOp) (s : Db)
    → MeaIds s.tables
    → MeaIds (run_op env context op s).1.tables
      × Evolves (mea_change (rule_of context op)) s.meas (run_op env context op s).1.meas
run_op-Evolves env context op s d = (run_op-Moves env context op).at s d
