-- ===== src/Mem/Mea/Moves.antt =====
-- The parts that the operations share, within any rule on MEAs.
use apmec.Prelude.{
  String, ◌≡◌, refl, ◌≢◌, inl, inr, Bool, true, false, Option, none, some, List, [], ◌∷◌, ◌++◌,
  ◌&&◌, arith, ◌==◌, not, eq_iff, Bool-cases, if◌then◌else◌,
}
use apmec.Constants.{
  Status, pending_update, in_statuses, status_eq, ResourceType, EventType, EventState,
}
use apmec.Errors.{Error, Result, ok, err, no_result_found, mea_in_use, db_duplicate_entry}
use apmec.Dict.{Dict}
use apmec.Db.{Env, Context, Mea, Mead}
use apmec.Session.Moves.{Moves, Moves-bind, Moves-bind-query, Moves-raise, Moves-pure, moves_rules}
use apmec.Events.{create_event}
use apmec.Mem.MeadRow.{flush_meads, make_mead_dict, as_duplicate}
use apmec.Mem.Mead.{get_mead_resource, add_mead_attributes, add_service_types}
use apmec.Mem.MeaRow.{
  mea_query, set_status, store_attributes, make_mea_dict, mea_attribute_update_or_create,
}
use apmec.Mem.Change.{MeaRule, MeaStep, mea_moves}
use apmec.Mem.Writes.{Moves-elsewhere, rel_update_one, select_of_one}
use apmec.Mem.Mea.Create.{add_mea_attributes}
use apmec.Mem.Mea.Update.{not_found_as, get_mea_db}

pub one_of_renamed :
    (e : Error) (r : Result Mea) (row : Mea) → not_found_as e r ≡ ok row → r ≡ ok row
one_of_renamed e (ok x) row h = h
one_of_renamed e (err no_result_found) row h = cc
one_of_renamed e (err x) row h = cc

module _ (u : MeaRule) (env : Env) where
  pub create_event-Moves :
      (res_id : String) (res_type : ResourceType) (res_state : EventState) (evt_type : EventType)
      (tstamp : apmec.Prelude.ℕ) (details : String)
      → Moves (mea_moves u) (create_event env res_id res_type res_state evt_type tstamp details)
  unfolding create_event
  create_event-Moves a b c d e f = search (moves_rules, Moves-elsewhere) depth 8

  pub get_mead_resource-Moves :
      (context : Context) (id : String) → Moves (mea_moves u) (get_mead_resource env context id)
  unfolding get_mead_resource
  get_mead_resource-Moves context id = search moves_rules

  pub flush_meads-Moves : (f : List Mead → List Mead) → Moves (mea_moves u) (flush_meads f)
  unfolding flush_meads
  flush_meads-Moves f = search (moves_rules, Moves-elsewhere)

  pub make_mead_dict-Moves : (r : Mead) → Moves (mea_moves u) (make_mead_dict r)
  unfolding make_mead_dict
  make_mead_dict-Moves r = search moves_rules

  pub add_mead_attributes-Moves :
      (id : String) (d : Dict String) → Moves (mea_moves u) (add_mead_attributes env id d)
  unfolding add_mead_attributes
  add_mead_attributes-Moves id [] = search moves_rules
  add_mead_attributes-Moves id ((k, v) ∷ d) = Moves-bind (mea_moves u) _ _ (search moves_rules) λ a.
      Moves-bind (mea_moves u) _ _ (Moves-elsewhere u _ λ t. refl)
        λ _. add_mead_attributes-Moves id d

  pub add_service_types-Moves :
      (tenant_id id : String) (l : List String)
      → Moves (mea_moves u) (add_service_types env tenant_id id l)
  unfolding add_service_types
  add_service_types-Moves tenant_id id [] = search moves_rules
  add_service_types-Moves tenant_id id (t ∷ l) =
      Moves-bind (mea_moves u) _ _ (search moves_rules) λ a.
        Moves-bind (mea_moves u) _ _ (Moves-elsewhere u _ λ t. refl)
          λ _. add_service_types-Moves tenant_id id l

  pub add_mea_attributes-Moves :
      (id : String) (d : Dict String) → Moves (mea_moves u) (add_mea_attributes env id d)
  unfolding add_mea_attributes
  add_mea_attributes-Moves id [] = search moves_rules
  add_mea_attributes-Moves id ((k, v) ∷ d) = Moves-bind (mea_moves u) _ _ (search moves_rules) λ a.
      Moves-bind (mea_moves u) _ _ (Moves-elsewhere u _ λ t. refl)
        λ _. add_mea_attributes-Moves id d

  attribute-Moves :
      (id key value : String)
      → Moves (mea_moves u) (mea_attribute_update_or_create env id key value)
  unfolding mea_attribute_update_or_create
  attribute-Moves id key value = Moves-bind (mea_moves u) _ _ (search moves_rules) (elim [
    | none ↦ search (moves_rules, Moves-elsewhere)
    | some a ↦ search (moves_rules, Moves-elsewhere)
  ])

  pub store_attributes-Moves :
      (id : String) (d : Dict String) → Moves (mea_moves u) (store_attributes env id d)
  unfolding store_attributes
  store_attributes-Moves id [] = search moves_rules
  store_attributes-Moves id ((k, v) ∷ d) =
      Moves-bind (mea_moves u) _ _ (search (moves_rules, attribute-Moves))
        λ a. search (moves_rules, store_attributes-Moves id d)

  pub make_mea_dict-Moves : (r : Mea) → Moves (mea_moves u) (make_mea_dict r)
  unfolding make_mea_dict
  make_mea_dict-Moves r = search moves_rules

  -- `_get_mea_db` moves the row that it locks
  pub get_mea_db-Moves :
      (mea_id : String) (current_statuses : List Status) (new_status : Status)
      → ((row : Mea)
          → mea_query u.context mea_id (in_statuses current_statuses) row ≡ true
          → status_eq row.status pending_update ≡ false
          → MeaStep u row (set_status new_status row))
      → Moves (mea_moves u) (get_mea_db u.context mea_id current_statuses new_status)
  unfolding get_mea_db
  get_mea_db-Moves mea_id current_statuses new_status step =
      Moves-bind-query (mea_moves u) _ _ λ s row found.
        elim (Bool-cases (status_eq row.status pending_update)) [
          | inl updating ↦
              rw updating ((Moves-raise (mea_moves u) {A = Mea} (mea_in_use mea_id)).at s)
          | inr free ↦ rw free (
              rel_update_one u _ (set_status new_status) _ (λ r. refl) (Moves-pure (mea_moves u) _)
                s row (λ fits. step row fits free)
                (select_of_one _ s.meas row (one_of_renamed _ _ row found)))
        ]

  pub as_duplicate-Moves :
      {A : Type 0} (type : String) (e : Error) → Moves (mea_moves u) (as_duplicate {A = A} type e)
  as_duplicate-Moves type db_duplicate_entry = search moves_rules
  as_duplicate-Moves type _ = search moves_rules
