-- ===== src/Mem/Writes.antt =====
-- The writes of Mem.MeaRow within a rule of Mem.Change: one lemma for each kind of write, which the
-- operations below Mem.Mea are built from.
use apmec.Prelude.{
  String, ◌≡◌, ap, ◌≢◌, inl, inr, Bool, true, false, List, [], ◌∷◌, ◌++◌, arith, any, eq_iff, All,
  Bool-cases,
}
use apmec.Errors.{ok}
use apmec.Exec.{Exec, ◌>>=◌, ◌>>◌}
use apmec.Table.{select, update, delete}
use apmec.Table.Evolves.{
  Evolves, Evolves-refl, Evolves-append, Evolves-update, Evolves-update_one, Evolves-delete,
  DistinctIds, update-update, DistinctIds-update, DistinctIds-delete,
}
use apmec.Db.{Tables, Db, Mea}
use apmec.Session.{query, write, the_one}
use apmec.Session.Moves.{Moves, Moves-write}
use apmec.Mem.MeaRow.{mea_clashes, has_mea_clash, with_meas, flush_meas, update_meas, has_id}
use apmec.Mem.Change.{
  MeaRule, MeaStep, MeaBorn, MeaGone, mea_change, mea_change-IsClosed, mea_moves,
}

abbrev pub id_of : Mea → String
id_of r = r.id

-- A table without a clash has distinct primary keys.
no_clash_with :
    (r : Mea) (rows : List Mea)
    → any (mea_clashes r) rows ≡ false
    → All (λ s. id_of s ≢ id_of r) rows
no_clash_with r [] h = tt
no_clash_with r (s ∷ rows) h =
    (λ e. ground (arith, eq_iff r.id s.id), no_clash_with r rows (ground arith))

DistinctIds-of_no_clash : (rows : List Mea) → has_mea_clash rows ≡ false → DistinctIds id_of rows
DistinctIds-of_no_clash [] h = tt
DistinctIds-of_no_clash (r ∷ rows) h =
    (no_clash_with r rows (ground arith), DistinctIds-of_no_clash rows (ground arith))

module _ (u : MeaRule) where
  -- a write to the other tables
  pub Moves-elsewhere :
      (f : Tables → Tables) → ((t : Tables) → (f t).meas ≡ t.meas) → Moves (mea_moves u) (write f)
  Moves-elsewhere f h =
      Moves-write (mea_moves u) f
        λ t d. (rw (h t) d, rw (h t) (Evolves-refl (mea_change u) (mea_change-IsClosed u) t.meas))

  pub Moves-update_meas :
      (p : Mea → Bool) (f : Mea → Mea)
      → ((r : Mea) → (f r).id ≡ r.id)
      → ((r : Mea) → p r ≡ true → MeaStep u r (f r))
      → Moves (mea_moves u) (update_meas p f)
  unfolding update_meas
  Moves-update_meas p f same step = Moves-write (mea_moves u) _ λ t d. (
    DistinctIds-update id_of p f t.meas same d,
    Evolves-update (mea_change u) (mea_change-IsClosed u) p f t.meas step,
  )

  pub Moves-delete_meas :
      (p : Mea → Bool)
      → ((r : Mea) → p r ≡ true → MeaGone u r)
      → Moves (mea_moves u) (write (with_meas (delete p)))
  Moves-delete_meas p step = Moves-write (mea_moves u) _ λ t d. (
    DistinctIds-delete id_of p t.meas d,
    Evolves-delete (mea_change u) (mea_change-IsClosed u) p t.meas step,
  )

  -- a write that the keys of the table let through
  Moves-flush_meas :
      (f : List Mea → List Mea)
      → ((rows : List Mea) → Evolves (mea_change u) rows (f rows))
      → Moves (mea_moves u) (flush_meas f)
  unfolding flush_meas query write ◌>>=◌
  Moves-flush_meas f h = record {
    at = λ s d. elim (Bool-cases (has_mea_clash (f s.meas))) [
      | inl clash ↦ rw clash (d, Evolves-refl (mea_change u) (mea_change-IsClosed u) s.meas)
      | inr fits ↦ rw fits (DistinctIds-of_no_clash (f s.meas) fits, h s.meas)
    ];
  }

  pub Moves-insert_mea :
      (r : Mea) → MeaBorn u r → Moves (mea_moves u) (flush_meas (λ rows. rows ++ (r ∷ [])))
  Moves-insert_mea r h =
      Moves-flush_meas _ λ rows. Evolves-append (mea_change u) (mea_change-IsClosed u) rows r h

  pub Moves-flush_update :
      (p : Mea → Bool) (f : Mea → Mea)
      → ((r : Mea) → p r ≡ true → MeaStep u r (f r))
      → Moves (mea_moves u) (flush_meas (update p f))
  Moves-flush_update p f step =
      Moves-flush_meas _ λ rows. Evolves-update (mea_change u) (mea_change-IsClosed u) p f rows step

  -- an update of the one row that the query `p` finds, and what comes after it
  pub rel_update_one :
      {B : Type 0} (p : Mea → Bool) (f : Mea → Mea) (rest : Exec Db B)
      → ((r : Mea) → (f r).id ≡ r.id)
      → Moves (mea_moves u) rest
      → (s : Db) (row : Mea) → (p row ≡ true → MeaStep u row (f row))
      → select p s.meas ≡ row ∷ []
      → (mea_moves u).Rel s.tables ((update_meas (has_id row.id) f >> rest) s).1.tables
  unfolding update_meas write ◌>>=◌
  rel_update_one p f rest same moves s row step found =
      let s' : Db = record s { tables = with_meas (update (has_id row.id) f) s.tables } in
      (mea_moves u).rel_trans s.tables s'.tables (rest s').1.tables
        (λ d. (
          DistinctIds-update id_of _ f s.meas same d,
          Evolves-update_one id_of (mea_change u) (mea_change-IsClosed u) p f s.meas row d found
              step,
        ))
        (moves.at s')

-- Two updates of one row are one.
pub update_meas-fuse :
    {B : Type 0} (k : String) (f g : Mea → Mea) (rest : Exec Db B)
    → ((r : Mea) → (f r).id ≡ r.id)
    → (s : Db)
    → (update_meas (has_id k) f >> (update_meas (has_id k) g >> rest)) s
      ≡ (update_meas (has_id k) (λ r. g (f r)) >> rest) s
unfolding update_meas write ◌>>=◌
update_meas-fuse k f g rest same s =
    ap (λ (rows : List Mea). rest (record s { tables = with_meas (λ _. rows) s.tables }))
      (update-update id_of k f g s.meas same)

one_found : (l : List Mea) (row : Mea) → the_one l ≡ ok row → l ≡ row ∷ []
one_found [] row h = cc
one_found (x ∷ []) row h = cc
one_found (x ∷ y ∷ l) row h = cc

pub select_of_one :
    (p : Mea → Bool) (rows : List Mea) (row : Mea)
    → the_one (select p rows) ≡ ok row
    → select p rows ≡ row ∷ []
select_of_one p rows row h = one_found (select p rows) row h
