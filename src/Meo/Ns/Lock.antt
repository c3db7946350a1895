-- ===== src/Meo/Ns/Lock.antt =====
-- db/meo/ns_db.py: a deletion that has begun keeps a second one out.
use apmec.Prelude.{ℕ, String, ◌≡◌, refl, sym, ◌∙◌, ap, Bool, true, List, [], ◌∷◌, eq_iff, arith}
use apmec.Constants.{
  pending_delete, in_statuses, in_status, res_ns, evt_delete, ResourceType, EventType, EventState,
}
use apmec.Errors.{Result, ok, err, ns_not_found}
use apmec.Exec.{pure, ◌>>=◌, ◌>>◌, bind-ok}
use apmec.Table.{select, update}
use apmec.Table.Evolves.{DistinctIds}
use apmec.Table.Keyed.{select-fits, select-update_gone}
use apmec.Db.{Tables, Db, Env, Context, Ns}
use apmec.Session.{query, write, transaction, utcnow, the_one}
use apmec.Session.Moves.{Preorder, Moves, moves_rules}
use apmec.Session.Results.{transaction-ok, ok_parts, query-ok}
use apmec.Events.{create_event}
use apmec.Mem.MeaRow.{active_update_error_dead}
use apmec.Meo.NsRow.{NsDict, ns_query, set_status, update_nss, make_ns_dict, or_missing}
use apmec.Meo.Ns.{has_id, get_ns_db, delete_ns}

-- The primary key of the table.
abbrev NsIds : Tables → Type 0
NsIds t = DistinctIds (λ (r : Ns). r.id) t.nss

abbrev nss_stay : Preorder
nss_stay = record {
  Rel = λ t u. u.nss ≡ t.nss;
  rel_refl = λ t. refl;
  rel_trans = λ t u v p q. q ∙ p;
}

pub create_event-nss :
    (env : Env) (res_id : String) (res_type : ResourceType) (res_state : EventState)
    (evt_type : EventType) (tstamp : ℕ) (details : String)
    → Moves nss_stay (create_event env res_id res_type res_state evt_type tstamp details)
unfolding create_event
create_event-nss env a b c d e f = search moves_rules depth 8

the_one_found :
    (ns_id : String) (l : List Ns) (row : Ns)
    → or_missing (ns_not_found ns_id) (the_one l) ≡ ok row
    → l ≡ row ∷ []
the_one_found ns_id [] row h = absurd (cc)
the_one_found ns_id (r ∷ []) row h = cc
the_one_found ns_id (r ∷ q ∷ l) row h = absurd (cc)

module _ (env : Env) (context : Context) (ns_id : String) where
  abbrev deletable : Ns → Bool
  deletable = ns_query context ns_id (in_statuses active_update_error_dead)

  marked_rows :
      (row : Ns) (u : Db) (locked : Ns) (t : Db)
      → (do
        update_nss (has_id row.id) (set_status pending_delete)
        pure (set_status pending_delete row))
          u
        ≡ (ok locked, t)
      → t.nss ≡ update (has_id row.id) (set_status pending_delete) u.nss
  unfolding ◌>>=◌ update_nss write
  marked_rows row u locked t h =
      let (value, moved) = ok_parts (set_status pending_delete row) locked _ t h in
      ap (λ (x : Db). x.nss) moved

  -- What a `_get_ns_db` that returns has found and done.
  get_ns_db-ok :
      (s t : Db) (locked : Ns)
      → get_ns_db env context ns_id active_update_error_dead pending_delete s ≡ (ok locked, t)
      → (row : Ns) × (select deletable s.nss ≡ row ∷ [])
        × (t.nss ≡ update (has_id row.id) (set_status pending_delete) s.nss)
  unfolding get_ns_db
  get_ns_db-ok s t locked h =
      let (row, u, found, rest) = bind-ok _ _ s locked t h in
      let (fits, same) = query-ok _ s row u found in
      let moved = marked_rows row u locked t rest in
      (row, the_one_found ns_id (select deletable s.nss) row fits, rw same at moved)

  get_ns_db-missing :
      (s : Db)
      → select deletable s.nss ≡ []
      → get_ns_db env context ns_id active_update_error_dead pending_delete s
        ≡ (err (ns_not_found ns_id), s)
  unfolding get_ns_db query ◌>>=◌
  get_ns_db-missing s none_left = rw none_left refl

  announced :
      (row : Ns)
      → Moves nss_stay do
        now ← utcnow env
        create_event env ns_id res_ns (in_status row.status) evt_delete now "NS delete initiated"
        pure (make_ns_dict row)
  announced row = search (moves_rules, create_event-nss) depth 8

  of_id : (x : Ns) → deletable x ≡ true → x.id ≡ ns_id
  of_id x h = (eq_iff x.id ns_id).0 (ground arith)

  missing :
      (t : Db)
      → get_ns_db env context ns_id active_update_error_dead pending_delete t
        ≡ (err (ns_not_found ns_id), t)
      → delete_ns env context ns_id t ≡ (err (ns_not_found ns_id), t)
  unfolding delete_ns transaction ◌>>=◌
  missing t h = rw h refl

  -- After a `delete_ns` that returns, and before anything else, another `delete_ns` of that NS in
  -- that context raises NSNotFound and changes nothing, in a table with distinct primary keys.
  pub delete_ns-once :
      (s t : Db) (d : NsDict)
      → NsIds s.tables
      → delete_ns env context ns_id s ≡ (ok d, t)
      → delete_ns env context ns_id t ≡ (err (ns_not_found ns_id), t)
  unfolding delete_ns
  delete_ns-once s t d ids h =
      let (locked, u, first, rest) = bind-ok _ _ s d t h in
      let (row, found, marked) = get_ns_db-ok s u locked (transaction-ok _ s locked u first) in
      let here = select-fits deletable s.nss row found in
      let after : t.nss ≡ update (has_id row.id) (set_status pending_delete) s.nss =
        ap (λ (x : Result NsDict × Db). x.1.nss) (sym rest) ∙ ((announced locked).at u ∙ marked) in
      let nothing : select deletable t.nss ≡ [] = rw after (
        select-update_gone (λ (r : Ns). r.id) deletable deletable (set_status pending_delete) s.nss
          row ids found (ground arith) (λ x hit. of_id x hit ∙ sym (of_id row here))) in
      missing t (get_ns_db-missing t nothing)
