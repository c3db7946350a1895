-- ===== src/Mem/Mea/Lock.antt =====
-- PENDING_UPDATE as a lock: who holds it keeps the other operations out.
use apmec.Prelude.{
  ℕ, String, sym, ◌∙◌, ap, ◌≡◌, refl, inl, inr, Bool, true, false, List, [], ◌∷◌, eq_iff, arith,
  Bool-cases, if◌then◌else◌,
}
use apmec.Constants.{
  Status, in_status, res_mea, evt_update, ResourceType, EventType, EventState, pending_update,
  pending_delete, in_statuses, status_eq,
}
use apmec.Errors.{Result, ok, err, mea_in_use}
use apmec.Exec.{pure, raise, ◌>>=◌, ◌>>◌, bind-ok}
use apmec.Table
use apmec.Table.Keyed.{select-update_one, select-fits}
use apmec.Db.{Tables, Db, Env, Context, Mea}
use apmec.Session.{query, write, transaction, utcnow}
use apmec.Session.Moves.{Preorder, Moves, moves_rules}
use apmec.Session.Results.{transaction-ok, ok_parts, query-ok}
use apmec.Events.{create_event}
use apmec.Mem.MeaRow.{
  MeaDict, with_meas, update_meas, mea_query, has_id, set_status, make_mea_dict, active_update,
  active_update_error_dead,
}
use apmec.Mem.Change.{MeaIds}
use apmec.Mem.Writes.{select_of_one}
use apmec.Mem.Mea.Update.{get_mea_db, update_mea_pre}
use apmec.Mem.Mea.Delete.{delete_mea_pre}
use apmec.Mem.Mea.Moves.{one_of_renamed}

-- The table `mea` stays as it is.
abbrev pub meas_stay : Preorder
meas_stay = record {
  Rel = λ t u. u.meas ≡ t.meas;
  rel_refl = λ t. refl;
  rel_trans = λ t u v p q. q ∙ p;
}

pub create_event-meas :
    (env : Env) (res_id : String) (res_type : ResourceType) (res_state : EventState)
    (evt_type : EventType) (tstamp : ℕ) (details : String)
    → Moves meas_stay (create_event env res_id res_type res_state evt_type tstamp details)
unfolding create_event
create_event-meas env a b c d e f = search moves_rules depth 8

module _ (context : Context) (mea_id : String) (current_statuses : List Status)
    (new_status : Status) where
  abbrev wanted : Mea → Bool
  wanted = mea_query context mea_id (in_statuses current_statuses)

  -- What a `_get_mea_db` that returns has found and done.
  abbrev HasLocked : Db → Mea → Tables → Type 0
  HasLocked s locked t =
      (row : Mea) × (Table.select wanted s.meas ≡ row ∷ [])
      × (status_eq row.status pending_update ≡ false)
      × (locked ≡ set_status new_status row)
      × (t ≡ with_meas (Table.update (has_id row.id) (set_status new_status)) s.tables)

  lock_free :
      (row : Mea) (s : Db) (locked : Mea) (s' : Db)
      → (if status_eq row.status pending_update then raise (mea_in_use mea_id) else do
        update_meas (has_id row.id) (set_status new_status)
        pure (set_status new_status row))
          s
        ≡ (ok locked, s')
      → (status_eq row.status pending_update ≡ false)
        × (locked ≡ set_status new_status row)
        × (s'.tables ≡ with_meas (Table.update (has_id row.id) (set_status new_status)) s.tables)
  unfolding ◌>>=◌ update_meas write
  lock_free row s locked s' h = elim (Bool-cases (status_eq row.status pending_update)) [
    | inl updating ↦ absurd (cc (rw updating at h))
    | inr free ↦
        let (same, moved) = ok_parts (set_status new_status row) locked _ s' (rw free at h) in
        (free, same, ap (λ (x : Db). x.tables) moved)
  ]

  pub get_mea_db-ok :
      (s : Db) (locked : Mea) (s' : Db)
      → get_mea_db context mea_id current_statuses new_status s ≡ (ok locked, s')
      → HasLocked s locked s'.tables
  unfolding get_mea_db
  get_mea_db-ok s locked s' h =
      let (row, t, found, rest) = bind-ok _ _ s locked s' h in
      let (fits, same) = query-ok _ s row t found in
      let (free, set, moved) = lock_free row t locked s' rest in
      (row, select_of_one _ s.meas row (one_of_renamed _ _ row fits), free, set, rw same at moved)

  get_mea_db-busy :
      (s : Db) (row : Mea)
      → Table.select wanted s.meas ≡ row ∷ []
      → row.status ≡ pending_update
      → get_mea_db context mea_id current_statuses new_status s ≡ (err (mea_in_use mea_id), s)
  unfolding get_mea_db query raise ◌>>=◌
  get_mea_db-busy s row found busy = rw (found, busy)

pub of_id :
    (context : Context) (mea_id : String) (p : Status → Bool) (x : Mea)
    → mea_query context mea_id p x ≡ true
    → x.id ≡ mea_id
of_id context mea_id p x h = (eq_iff x.id mea_id).0 (ground arith)

fits_status :
    (context : Context) (mea_id : String) (p q : Status → Bool) (row : Mea)
    → mea_query context mea_id p row ≡ true
    → q pending_update ≡ true
    → mea_query context mea_id q (set_status pending_update row) ≡ true
fits_status context mea_id p q row h fits = ground arith

module _ (env : Env) (context : Context) (mea_id : String) where
  announce-meas :
      (locked : Mea)
      → Moves meas_stay do
        mea_dict ← make_mea_dict locked
        now ← utcnow env
        create_event env mea_id res_mea (in_status mea_dict.status) evt_update now ""
        pure mea_dict
  unfolding make_mea_dict
  announce-meas locked = search (moves_rules, create_event-meas) depth 8

  -- The rows of `mea` that an `_update_mea_pre` that returns leaves.
  update_pre-rows :
      (s s' : Db) (d : MeaDict)
      → update_mea_pre env context mea_id s ≡ (ok d, s')
      → (row : Mea) × (Table.select (mea_query context mea_id (in_statuses active_update)) s.meas
          ≡ row ∷ [])
        × (s'.meas ≡ Table.update (has_id row.id) (set_status pending_update) s.meas)
  unfolding update_mea_pre
  update_pre-rows s s' d h =
      let (locked, t, first, rest) = bind-ok _ _ s d s' h in
      let (row, found, free, set, moved) =
        get_mea_db-ok context mea_id active_update pending_update s locked t
          (transaction-ok _ s locked t first) in
      (
        row,
        found,
        ap (λ (x : Result MeaDict × Db). x.1.meas) (sym rest)
            ∙ ((announce-meas locked).at t ∙ ap (λ (x : Tables). x.meas) moved),
      )

  -- A query of the id that a MEA in PENDING_UPDATE fits finds the locked row.
  found_locked :
      (s s' : Db) (row : Mea) (p : Status → Bool)
      → MeaIds s.tables
      → p pending_update ≡ true
      → Table.select (mea_query context mea_id (in_statuses active_update)) s.meas ≡ row ∷ []
      → s'.meas ≡ Table.update (has_id row.id) (set_status pending_update) s.meas
      → Table.select (mea_query context mea_id p) s'.meas ≡ set_status pending_update row ∷ []
  found_locked s s' row p ids fits found after =
      let query = mea_query context mea_id (in_statuses active_update) in
      let here = select-fits query s.meas row found in
      let fits' = fits_status context mea_id (in_statuses active_update) p row here fits in
      rw after (
        select-update_one (λ (r : Mea). r.id) query (mea_query context mea_id p)
          (set_status pending_update) s.meas row ids found refl fits'
          (λ x hit.
            of_id context mea_id p x hit
            ∙ sym (of_id context mea_id (in_statuses active_update) row here)))

  -- After an `_update_mea_pre` that returns, and before anything else, another one and
  -- `_delete_mea_pre` raise MEAInUse.
  pub update_pre-excludes :
      (s s' : Db) (d : MeaDict)
      → MeaIds s.tables
      → update_mea_pre env context mea_id s ≡ (ok d, s')
      → (update_mea_pre env context mea_id s' ≡ (err (mea_in_use mea_id), s'))
        × (delete_mea_pre env context mea_id s' ≡ (err (mea_in_use mea_id), s'))
  unfolding update_mea_pre delete_mea_pre transaction ◌>>=◌
  update_pre-excludes s s' d ids h =
      let (row, found, after) = update_pre-rows s s' d h in
      let busy =
        get_mea_db-busy context mea_id active_update pending_update s'
          (set_status pending_update row)
          (found_locked s s' row (in_statuses active_update) ids refl found after) refl in
      let busy' =
        get_mea_db-busy context mea_id active_update_error_dead pending_delete s'
          (set_status pending_update row)
          (found_locked s s' row (in_statuses active_update_error_dead) ids refl found after)
          refl in
      (rw busy, rw busy')
