-- ===== src/Mem/Mea/Gone.antt =====
-- db/mem/mem_db.py: a MEA is gone after the reference deletion.
use apmec.Prelude.{ℕ, String, ◌≡◌, refl, sym, ◌∙◌, ap, true, false, some, [], ◌==◌, if◌then◌else◌}
use apmec.Constants.{pending_delete, status_eq, in_statuses, in_status, res_mea, evt_delete}
use apmec.Errors.{Result, ok, err, mea_not_found}
use apmec.Exec.{pure, ◌>>=◌, ◌>>◌, bind-ok}
use apmec.Table.{select, update}
use apmec.Table.Keyed.{select-fits}
use apmec.Db.{Tables, Db, Env, Context, Mea}
use apmec.Session.{IsLater, query, utcnow, by_id}
use apmec.Session.Moves.{Moves, moves_rules}
use apmec.Session.Results.{transaction-ok}
use apmec.Events.{create_event}
use apmec.Mem.Mead.{delete_mead, soft_delete_mead, remove_mead, get_mead_resource}
use apmec.Mem.MeadRow.{flush_meads}
use apmec.Mem.MeaRow.{
  MeaDict, mea_columns, mea_query, has_id, set_status, make_mea_dict, active_update_error_dead,
  get_mea_resource, mea_dict,
}
use apmec.Mem.Mea.Delete.{delete_mea_pre, delete_mea_post, soft_delete_mea}
use apmec.Mem.Mea.Reference.{delete_mea, get_mea}
use apmec.Mem.Mea.Lock.{of_id, meas_stay, create_event-meas, get_mea_db-ok}
use apmec.Mem.Mea.Going.{Going, Going-after, none_seen, pure_value, made_id, clock, flushed_rows}

module _ (env : Env) (context : Context) (mea_id : String) where
  get_mead-stays : (id : String) → Moves meas_stay (get_mead_resource env context id)
  unfolding get_mead_resource
  get_mead-stays id = search moves_rules

  delete_mead-stays : (id : String) → Moves meas_stay (delete_mead env context id true)
  unfolding delete_mead soft_delete_mead remove_mead flush_meads
  delete_mead-stays id = search (moves_rules, get_mead-stays, create_event-meas) depth 12

  pre_announced :
      (locked : Mea)
      → Moves meas_stay do
        mea_dict ← make_mea_dict locked
        now ← utcnow env
        create_event env mea_id res_mea
            (in_status mea_dict.status)
            evt_delete
            now
            "MEA delete initiated"
        pure mea_dict
  unfolding make_mea_dict
  pre_announced locked = search (moves_rules, create_event-meas) depth 8

  announced_dict :
      (locked : Mea) (u t : Db) (d : MeaDict)
      → (do
        mea_dict ← make_mea_dict locked
        now ← utcnow env
        create_event env mea_id res_mea
            (in_status mea_dict.status)
            evt_delete
            now
            "MEA delete initiated"
        pure mea_dict)
          u
        ≡ (ok d, t)
      → d.id ≡ locked.id
  announced_dict locked u t d h =
      let (d', u', made, rest) = bind-ok _ _ u d t h in
      let (now, v, _, later) = bind-ok _ _ u' d t rest in
      let (event, w, _, last) = bind-ok _ _ v d t later in
      ap (λ (x : MeaDict). x.id) (pure_value d' d w t last) ∙ made_id locked u u' d' made

  Going-after_pre :
      (s t : Db) (d : MeaDict)
      → delete_mea_pre env context mea_id s ≡ (ok d, t)
      → Going context mea_id t.meas × (d.id ≡ mea_id)
  unfolding delete_mea_pre
  Going-after_pre s t d h =
      let (locked, u, first, rest) = bind-ok _ _ s d t h in
      let (row, found, free, set, moved) =
        get_mea_db-ok context mea_id active_update_error_dead pending_delete s locked u
          (transaction-ok _ s locked u first) in
      let here = select-fits _ s.meas row found in
      let after : t.meas ≡ update (has_id row.id) (set_status pending_delete) s.meas =
        ap (λ (x : Result MeaDict × Db). x.1.meas) (sym rest)
        ∙ ((pre_announced locked).at u ∙ ap (λ (x : Tables). x.meas) moved) in
      let same : row.id ≡ mea_id =
        of_id context mea_id (in_statuses active_update_error_dead) row here in
      (
        rw after (Going-after context mea_id row.id s.meas same),
        announced_dict locked u t d rest ∙ (ap (λ (x : Mea). x.id) set ∙ same),
      )

  soft_rows :
      (s t : Db)
      → soft_delete_mea env context mea_id s ≡ (ok tt, t)
      → (n : ℕ) × (t.meas
          ≡ update
              (mea_query context mea_id (status_eq pending_delete))
              (λ r. record r { deleted_at = some (env.utcnow n) })
              s.meas)
  unfolding soft_delete_mea
  soft_rows s t h =
      let (now, u, read, flushed) = bind-ok _ _ s tt t h in
      let (_, v, wrote, rest) = bind-ok _ _ u tt t flushed in
      let (shown, same) = clock env s u now read in
      let deleted = flushed_rows _ u v wrote in
      let after : t.meas ≡ v.meas =
        ap (λ (x : Result (Unit {0}) × Db). x.1.meas) (sym rest) ∙ (said now).at v in
      (s.ticks, after ∙ (rw (shown, same) at deleted))
    where
      said :
          (now : ℕ)
          → Moves meas_stay do
            create_event env mea_id res_mea
                (in_status pending_delete)
                evt_delete
                now
                "MEA Delete Complete"
            pure (tt {0})
      said now = search (moves_rules, create_event-meas)

  inline_stays :
      (d : MeaDict)
      → Moves meas_stay (
          if d.mead.template_source == "inline"
          then delete_mead env context d.mead_id true
          else pure (tt {0}))
  inline_stays d = search (moves_rules, delete_mead-stays)

  -- The rows after a `_delete_mea_post` that returns.
  none_after_post :
      (s t : Db) (d : MeaDict)
      → IsLater env
      → d.id ≡ mea_id
      → Going context mea_id s.meas
      → delete_mea_post env context d false true s ≡ (ok tt, t)
      → select (by_id mea_columns context mea_id) t.meas ≡ []
  unfolding delete_mea_post
  none_after_post s t d later same going h =
      let (_, u, first, rest) = bind-ok _ _ s tt t (transaction-ok _ s tt t h) in
      let (n, deleted) = soft_rows s u (rw same at first) in
      let after : t.meas ≡ u.meas =
        ap (λ (x : Result (Unit {0}) × Db). x.1.meas) (sym rest) ∙ (inline_stays d).at u in
      rw (after ∙ deleted) (none_seen context mea_id (env.utcnow n) s.meas (later n) going)

  not_found :
      (t : Db)
      → env.is_uuid_like mea_id ≡ true
      → select (by_id mea_columns context mea_id) t.meas ≡ []
      → get_mea env context mea_id t ≡ (err (mea_not_found mea_id), t)
  unfolding get_mea get_mea_resource query ◌>>=◌
  not_found t uuid none_left = rw (uuid, none_left) refl

  -- A `delete_mea` that returns, with its soft deletion, leaves a MEA that the caller can no longer
  -- find: `get_mea` of its UUID raises MEANotFound, if the clock never shows `datetime.min`.
  pub delete_mea-get_mea :
      (s t : Db)
      → IsLater env
      → env.is_uuid_like mea_id ≡ true
      → delete_mea env context mea_id true s ≡ (ok tt, t)
      → get_mea env context mea_id t ≡ (err (mea_not_found mea_id), t)
  unfolding delete_mea
  delete_mea-get_mea s t later uuid h =
      let (d, u, before, rest) = bind-ok _ _ s tt t h in
      let (going, same) = Going-after_pre s u d before in
      not_found t uuid (none_after_post u t d later same going rest)
