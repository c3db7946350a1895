-- ===== src/Mem/Mea/Atomic.antt =====
-- The operations that are one transaction each change everything or nothing.
use apmec.Prelude.{String, ◌≡◌, Bool, List}
use apmec.Constants.{Status}
use apmec.Errors.{Error, err}
use apmec.Db.{Db, Env, Context}
use apmec.Session.Results.{transaction-err, drop-err}
use apmec.Mem.Mead.{update_mead, delete_mead}
use apmec.Mem.MeadRow.{MeadChanges}
use apmec.Mem.MeaRow.{MeaDict}
use apmec.Mem.Mea.Create.{create_mea_status}
use apmec.Mem.Mea.Delete.{delete_mea_post}
use apmec.Mem.Mea.Mark.{set_mea_error_status_reason, mark_mea_status}
use apmec.Mem.Mea.Rules.{
  MeaOp, update_mead_op, delete_mead_op, create_status_op, delete_post_op, error_reason_op, mark_op,
  run_op,
}

pub data IsAtomic : MeaOp → Type 0 where
  update_mead_atomic : (mead_id : String) (c : MeadChanges) → IsAtomic (update_mead_op mead_id c)
  delete_mead_atomic : (mead_id : String) (soft : Bool) → IsAtomic (delete_mead_op mead_id soft)
  create_status_atomic : (mea_id : String) (t : Status) → IsAtomic (create_status_op mea_id t)
  delete_post_atomic : (d : MeaDict) (failed soft : Bool) → IsAtomic (delete_post_op d failed soft)
  error_reason_atomic : (mea_id reason : String) → IsAtomic (error_reason_op mea_id reason)
  mark_atomic :
      (mea_id : String) (exclude : List Status) (t : Status) → IsAtomic (mark_op mea_id exclude t)

-- `update_mead`, `delete_mead`, `_create_mea_status`, `_delete_mea_post`,
-- `set_mea_error_status_reason` and `_mark_mea_status` that raise, be it for an event that the
-- database did not take, leave every table as it was.
pub run_op-atomic :
    (env : Env) (context : Context) {op : MeaOp} (s : Db) (e : Error)
    → IsAtomic op
    → (run_op env context op s).0 ≡ err e
    → (run_op env context op s).1.tables ≡ s.tables
unfolding run_op update_mead delete_mead create_mea_status delete_mea_post
    set_mea_error_status_reason mark_mea_status
run_op-atomic env context s e (update_mead_atomic a b) h = drop-err _ s e h
run_op-atomic env context s e (delete_mead_atomic a b) h = transaction-err _ s e h
run_op-atomic env context s e (create_status_atomic a b) h = transaction-err _ s e h
run_op-atomic env context s e (delete_post_atomic a b c) h = transaction-err _ s e h
run_op-atomic env context s e (error_reason_atomic a b) h = transaction-err _ s e h
run_op-atomic env context s e (mark_atomic a b c) h = drop-err _ s e h
