-- ===== src/Mem/Mea/Within.antt =====
-- Each operation moves MEAs within its rule.
use mathlib.Core.Path.{subst}
use apmec.Prelude.{
  sym, String, ◌≡◌, refl, ◌⊎◌, inl, inr, Bool, true, Option, none, some, List, [], ◌∷◌, arith, ◌==◌,
  Bool-cases,
}
use apmec.Constants.{Status, pending_update, pending_delete, in_statuses, status_eq}
use apmec.Exec.{Exec, pure, bind_assoc, ◌>>=◌, ◌>>◌}
use apmec.Table
use apmec.Db.{Db, Env, Context, Mea}
use apmec.Session.{query, write, the_one, get_tenant_id_for_create}
use apmec.Errors.{Result, ok, mea_not_found, mea_in_use}
use apmec.Session.Moves.{
  Moves, Moves-pure, Moves-raise, Moves-bind, Moves-bind-lift, Moves-bind-query, Moves-transaction,
  moves_rules,
}
use apmec.Mem.MeadRow.{MeadRequest, MeadChanges}
use apmec.Mem.Mead.{create_mead, update_mead, delete_mead}
use apmec.Mem.MeaRow.{
  mea_query, update_meas, has_id, set_status, create_states, active_update,
  active_update_error_dead,
}
use apmec.Mem.Change.{MeaRule, SameMea, same_mea, MeaStep, mea_moves, IsVisible}
use apmec.Mem.Writes.{
  Moves-elsewhere, Moves-insert_mea, rel_update_one, select_of_one, update_meas-fuse,
}
use apmec.Mem.Mea.Create.{MeaRequest, insert_mea, create_mea_pre, create_mea_status}
use apmec.Mem.Mea.Update.{
  not_found_as, get_mea_db, set_mgmt_url, update_mea_scaling_status, update_mea_pre,
}
use apmec.Mem.Mea.Delete.{delete_mea_pre}
use apmec.Mem.Mea.Moves.{
  create_event-Moves, get_mead_resource-Moves, flush_meads-Moves, make_mead_dict-Moves,
  make_mea_dict-Moves, add_mead_attributes-Moves, add_service_types-Moves, add_mea_attributes-Moves,
  get_mea_db-Moves, as_duplicate-Moves, one_of_renamed,
}
use apmec.Mem.Mea.Rules.{
  create_pre_op, create_status_op, scaling_op, update_pre_op, delete_pre_op, rule_of, locks, moving,
}

module _ (u : MeaRule) (env : Env) (context : Context) where
  pub create_mead-Moves : (mead : MeadRequest) → Moves (mea_moves u) (create_mead env context mead)
  unfolding create_mead
  create_mead-Moves mead =
      search
        (
          moves_rules, flush_meads-Moves, add_mead_attributes-Moves, add_service_types-Moves,
          make_mead_dict-Moves, create_event-Moves, as_duplicate-Moves,
        )
        depth 12

  pub update_mead-Moves :
      (mead_id : String) (changes : MeadChanges)
      → Moves (mea_moves u) (update_mead env context mead_id changes)
  unfolding update_mead
  update_mead-Moves mead_id changes =
      search
        (
          moves_rules, flush_meads-Moves, get_mead_resource-Moves, make_mead_dict-Moves,
          create_event-Moves,
        )
        depth 12

  pub delete_mead-Moves :
      (mead_id : String) (soft : Bool) → Moves (mea_moves u) (delete_mead env context mead_id soft)
  unfolding delete_mead
  delete_mead-Moves mead_id soft =
      search
        (
          moves_rules, flush_meads-Moves, get_mead_resource-Moves, Moves-elsewhere,
          create_event-Moves,
        )
        depth 12

own_tenant :
    (context : Context) (asked : Option String) (t : String)
    → get_tenant_id_for_create context asked ≡ ok t
    → (context.is_admin ≡ true) ⊎ (t ≡ context.tenant_id)
own_tenant context asked t h = ground arith

-- A visible row whose status the rule moves.
pub moved_row :
    (u : MeaRule) (mea_id : String) (p : Status → Bool) (row new_row : Mea)
    → mea_query u.context mea_id p row ≡ true
    → SameMea row new_row
    → (p row.status ≡ true → u.from row.status ≡ true)
    → u.to new_row.status ≡ true
    → MeaStep u row new_row
moved_row u mea_id p row new_row fits same from to =
    inr (ground arith, same, inr (from (ground arith), to))

pub moved :
    (u : MeaRule) (mea_id : String) (p : Status → Bool) (row : Mea) (new_status : Status)
    → mea_query u.context mea_id p row ≡ true
    → (p row.status ≡ true → u.from row.status ≡ true)
    → u.to new_status ≡ true
    → MeaStep u row (set_status new_status row)
moved u mea_id p row new_status fits from to =
    moved_row u mea_id p row _ fits (same_mea row _ refl refl refl refl refl refl refl) from to

-- A visible row that keeps its status and the columns of SameMea.
pub kept :
    (u : MeaRule) (mea_id : String) (p : Status → Bool) (row new_row : Mea)
    → mea_query u.context mea_id p row ≡ true
    → SameMea row new_row
    → new_row.status ≡ row.status
    → MeaStep u row new_row
kept u mea_id p row new_row fits same status = inr (ground arith, same, inl status)

pub in_own : (s : Status) → in_statuses (s ∷ []) s ≡ true
in_own s = ground arith

module _ (env : Env) (context : Context) where
  insert_mea-Moves :
      (mea : MeaRequest) (tenant_id mea_id : String)
      → (context.is_admin ≡ true) ⊎ (tenant_id ≡ context.tenant_id)
      → Moves
          (mea_moves (rule_of context (create_pre_op mea)))
          (insert_mea env context tenant_id mea_id mea)
  unfolding insert_mea
  insert_mea-Moves mea tenant_id mea_id own =
      let u = rule_of context (create_pre_op mea) in
      Moves-bind _ _ _ (get_mead_resource-Moves u env context mea.mead_id) λ found.
        Moves-bind _ _ _ (search moves_rules) λ mead.
          Moves-bind _ _ _ (search moves_rules) λ created_at.
            Moves-bind _ _ _ (Moves-insert_mea u _ (refl, own, inl refl, refl))
              λ _. search (moves_rules, add_mea_attributes-Moves)

  pub create_pre-Moves :
      (mea : MeaRequest)
      → Moves (mea_moves (rule_of context (create_pre_op mea))) (create_mea_pre env context mea)
  unfolding create_mea_pre
  create_pre-Moves mea = Moves-bind-lift _ _ _ λ tenant_id own.
      search
        (
          moves_rules,
          as_duplicate-Moves,
          create_event-Moves,
          make_mea_dict-Moves,
          λ (id : String).
              insert_mea-Moves mea tenant_id id (own_tenant context mea.tenant_id tenant_id own),
        )
        depth 8

  pub create_status-Moves :
      (mea_id : String) (status : Status)
      → Moves
          (mea_moves (rule_of context (create_status_op mea_id status)))
          (create_mea_status env context mea_id status)
  unfolding create_mea_status
  create_status-Moves mea_id status =
      let u = rule_of context (create_status_op mea_id status) in
      Moves-transaction _ _ (
        Moves-bind-query _ _ _ λ s row found.
          rel_update_one u _ (set_status status) _ (λ r. refl)
            (search (moves_rules, create_event-Moves)) s row
            (λ fits.
              moved u mea_id (in_statuses create_states) row status fits (λ h. h) (in_own status))
            (select_of_one _ s.meas row found))

  -- the locked row with its new status, and perhaps a new URL
  scaled :
      (row : Mea) (previous : List Status) (status : Status) (url : Option String)
      → IsVisible context row × (locks previous row.status ≡ true)
      → MeaStep
          (moving context (locks previous) (status ∷ []))
          row
          (record (set_status status row) { mgmt_url = url })
  scaled row previous status url h =
      inr (h.0, same_mea row _ refl refl refl refl refl refl refl, inr (h.1, in_own _))

  -- the lock, and the new URL after it
  scale_row :
      (mea_id : String) (previous : List Status) (status : Status) (mgmt_url : Option String)
      (s : Db) (row : Mea)
      → (mea_query context mea_id (in_statuses previous) row ≡ true
          → IsVisible context row × (locks previous row.status ≡ true))
      → Table.select (mea_query context mea_id (in_statuses previous)) s.meas ≡ row ∷ []
      → (mea_moves (rule_of context (scaling_op mea_id previous status mgmt_url))).Rel s.tables
          ((update_meas (has_id row.id) (set_status status)
              >> set_mgmt_url mgmt_url (set_status status row))
            s).1.tables
  unfolding set_mgmt_url
  scale_row mea_id previous status none s row step found =
      rel_update_one (moving context (locks previous) (status ∷ [])) _ (set_status status) _
        (λ r. refl) (Moves-pure _ _) s row
        (λ fits. scaled row previous status row.mgmt_url (step fits)) found
  scale_row mea_id previous status (some url) s row step found = elim (Bool-cases (url == "")) [
    | inl empty ↦ rw empty (
        rel_update_one (moving context (locks previous) (status ∷ [])) _ (set_status status) _
          (λ r. refl) (Moves-pure _ _) s row
          (λ fits. scaled row previous status row.mgmt_url (step fits)) found)
    | inr given ↦ rw given (
        subst
          (λ (x : Result Mea × Db).
            (mea_moves (rule_of context (scaling_op mea_id previous status (some url)))).Rel
              s.tables x.1.tables)
          (sym (
            update_meas-fuse row.id (set_status status) (λ r. record r { mgmt_url = some url })
              (pure (record (set_status status row) { mgmt_url = some url })) (λ r. refl) s))
          (rel_update_one (rule_of context (scaling_op mea_id previous status (some url)))
            (mea_query context mea_id (in_statuses previous))
            (λ r. record (set_status status r) { mgmt_url = some url })
            (pure (record (set_status status row) { mgmt_url = some url })) (λ r. refl)
            (Moves-pure _ _) s row (λ fits. scaled row previous status (some url) (step fits))
            found))
  ]

  pub scaling-Moves :
      (mea_id : String) (previous : List Status) (status : Status) (mgmt_url : Option String)
      → Moves
          (mea_moves (rule_of context (scaling_op mea_id previous status mgmt_url)))
          (update_mea_scaling_status env context mea_id previous status mgmt_url)
  unfolding update_mea_scaling_status get_mea_db ◌>>=◌ update_meas write
  scaling-Moves mea_id previous status mgmt_url =
      let u = rule_of context (scaling_op mea_id previous status mgmt_url) in
      Moves-bind _ _ _
        (Moves-transaction _ _ (
          subst (λ (m : Exec Db Mea). Moves (mea_moves u) m)
            (sym (
              bind_assoc _ _ (
                query (λ t. not_found_as (mea_not_found mea_id) (
                  the_one
                    (Table.select (mea_query context mea_id (in_statuses previous)) t.meas))))))
            (Moves-bind-query _ _ _ λ s row found.
              elim (Bool-cases (status_eq row.status pending_update)) [
                | inl updating ↦
                    rw updating ((Moves-raise (mea_moves u) {A = Mea} (mea_in_use mea_id)).at s)
                | inr free ↦ rw free (
                    scale_row mea_id previous status mgmt_url s row
                      (λ fits. (ground arith, ground arith))
                      (select_of_one _ s.meas row (one_of_renamed _ _ row found)))
              ])))
        λ row. search (moves_rules, make_mea_dict-Moves, create_event-Moves) depth 8

  pub update_pre-Moves :
      (mea_id : String)
      → Moves
          (mea_moves (rule_of context (update_pre_op mea_id)))
          (update_mea_pre env context mea_id)
  unfolding update_mea_pre
  update_pre-Moves mea_id =
      let u = rule_of context (update_pre_op mea_id) in
      Moves-bind _ _ _
        (Moves-transaction _ _ (
          get_mea_db-Moves u env mea_id active_update pending_update λ row fits free.
            moved u mea_id (in_statuses active_update) row pending_update fits (λ h. ground arith)
              refl))
        λ row. search (moves_rules, make_mea_dict-Moves, create_event-Moves) depth 8

  pub delete_pre-Moves :
      (mea_id : String)
      → Moves
          (mea_moves (rule_of context (delete_pre_op mea_id)))
          (delete_mea_pre env context mea_id)
  unfolding delete_mea_pre
  delete_pre-Moves mea_id =
      let u = rule_of context (delete_pre_op mea_id) in
      Moves-bind _ _ _
        (Moves-transaction _ _ (
          get_mea_db-Moves u env mea_id active_update_error_dead pending_delete λ row fits free.
            moved u mea_id (in_statuses active_update_error_dead) row pending_delete fits
              (λ h. ground arith) refl))
        λ row. search (moves_rules, make_mea_dict-Moves, create_event-Moves) depth 8
