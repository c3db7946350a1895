-- ===== src/Meo/Workflow/Settled.antt =====
-- meo/meo_plugin.py: the status of a network service whose creation has ended.
use mathlib.Core.Path.{subst}
use apmec.Prelude.{
  arith, ℕ, ◌+◌, String, ◌≡◌, refl, ap, ◌∙◌, sym, Option, List, [], ◌∷◌, ◌==◌, inl, inr, All,
  Bool-cases, eq_iff,
}
use apmec.Constants.{Status, res_ns, na_state, evt_update}
use apmec.Errors.{Result, ok, err, ns_not_found}
use apmec.Exec.{Exec, pure, bind-ok}
use apmec.Exec.Triple.{
  Triple, Triple-after, Triple-bind, Triple-value, Triple-pure, Triple-kept, ok_parts,
}
use apmec.Table.{select, update}
use apmec.Table.Keyed.{select-fits}
use apmec.Db.{Db, Env, Context, Ns, Tables}
use apmec.Session.{query, transaction, finish, write, the_one, by_id}
use apmec.Events.{create_event}
use apmec.Meo.NsRow.{ns_columns, get_ns_resource, or_missing, update_nss}
use apmec.Meo.Ns.{MistralObj, status_of, has_id, create_ns_post}
use apmec.Meo.Ns.Lock.{create_event-nss}
use apmec.Mec.World.{Drivers, on_db, call}
use apmec.Meo.Workflow.{Workflows, Orchestra, on_world, ask, clean_up, wait_create, reason_of}

-- The NSs of an id have a status.
abbrev pub AllHave : String → Status → Tables → Type 0
AllHave ns_id status t = All (λ (r : Ns). r.id ≡ ns_id → r.status ≡ status) t.nss

updated-AllHave :
    (ns_id : String) (f : Ns → Ns) (status : Status) (rows : List Ns)
    → ((r : Ns) → (f r).status ≡ status)
    → All (λ (r : Ns). r.id ≡ ns_id → r.status ≡ status) (update (has_id ns_id) f rows)
unfolding update
updated-AllHave ns_id f status [] h = tt
updated-AllHave ns_id f status (r ∷ rows) h = elim (Bool-cases (r.id == ns_id)) [
  | inl same ↦ rw same (λ _. h r, updated-AllHave ns_id f status rows h)
  | inr other ↦
      rw other
        (λ e. absurd (cc (other, (eq_iff r.id ns_id).1 e)), updated-AllHave ns_id f status rows h)
]

found_id :
    (context : Context) (ns_id : String) (t : Tables) (row : Ns)
    → get_ns_resource context ns_id t ≡ ok row
    → row.id ≡ ns_id
found_id context ns_id t row h = go (select (by_id ns_columns context ns_id) t.nss) refl h
  where
    go :
        (l : List Ns)
        → select (by_id ns_columns context ns_id) t.nss ≡ l
        → or_missing (ns_not_found ns_id) (the_one l) ≡ ok row
        → row.id ≡ ns_id
    go [] e h = absurd (cc)
    go (r ∷ []) e h =
        let same : r ≡ row = cc in
        (eq_iff row.id ns_id).0
          (rw (← same) (ground (arith, select-fits (by_id ns_columns context ns_id) t.nss r e)))
    go (r ∷ s ∷ rest) e h = absurd (cc)

finish-value :
    {A : Type 0} (m : Exec Db A) (Q : A → Db → Type 0) (s : Db) (r : Result A × Db) (a : A)
    (s' : Db)
    → Triple (λ _. Unit {0}) m Q
    → m s ≡ r
    → Path (Result A × Db) (r.0, finish r.0 s.tables r.1) (ok a, s')
    → Q a s'
finish-value m Q s (ok b, t) a s' h same e = h.at s tt a s' (same ∙ e)
finish-value m Q s (err x, t) a s' h same e = cc

finish_ok :
    {A : Type 0} (m : Exec Db A) (Q : A → Db → Type 0)
    → Triple (λ _. Unit {0}) m Q
    → Triple (λ _. Unit {0}) (transaction m) Q
unfolding transaction
finish_ok m Q h = record { at = λ s p a s' e. finish-value m Q s (m s) a s' h refl e }

update-AllHave :
    (ns_id id : String) (f : Ns → Ns) (status : Status)
    → id ≡ ns_id
    → ((r : Ns) → (f r).status ≡ status)
    → Triple (λ _. Unit {0}) (update_nss (has_id id) f) (λ _ s. AllHave ns_id status s.tables)
unfolding update_nss write
update-AllHave ns_id id f status same h = record {
  at = λ s p a s' e. rw (← (ok_parts e).1, same) (updated-AllHave ns_id f status s.nss h);
}

event-AllHave :
    (env : Env) (ns_id : String) (status : Status) (id : String) (now : ℕ)
    → Triple
        (λ s. AllHave ns_id status s.tables)
        (create_event env id res_ns na_state evt_update now "")
        (λ _ s. AllHave ns_id status s.tables)
event-AllHave env ns_id status id now =
    Triple-kept (λ s. AllHave ns_id status s.tables) _
      λ s p.
        subst (λ rows. All (λ (r : Ns). r.id ≡ ns_id → r.status ≡ status) rows)
          (sym ((create_event-nss env id res_ns na_state evt_update now "").at s)) p

ok_parts_of :
    {A : Type 0} {a : A} (r : Result A × Db) (o : Orchestra) {o' : Orchestra}
    → Path (Result A × Orchestra) (r.0, record o { world = record o.world { db = r.1 } }) (ok a, o')
    → (r ≡ (ok a, r.1)) × (record o { world = record o.world { db = r.1 } } ≡ o')
ok_parts_of (ok b, t) o e = let (value, after) = ok_parts e in (ap (λ x. (ok x, t)) value, after)
ok_parts_of (err x, t) o e = cc

-- A property of the database, through the states that hold it.
on_db-triple :
    {A : Type 0} (m : Exec Db A) (Q : A → Db → Type 0)
    → Triple (λ _. Unit {0}) m Q
    → Triple (λ _. Unit {0}) (on_world (on_db m)) (λ a o. Q a o.world.db)
unfolding on_world on_db
on_db-triple m Q h = record {
  at = λ o p a o' e.
      let (value, after) = ok_parts_of (m o.world.db) o e in
      rw (← after) (h.at o.world.db tt a (m o.world.db).1 value);
}

returned : {A : Type 0} (x a : A) (t o' : Orchestra) → pure x t ≡ (ok a, o') → (x ≡ a) × (t ≡ o')
unfolding pure
returned x a t o' e = ok_parts e

-- A call of the driver, by its number.
asked :
    {A : Type 0} (f : ℕ → Result A) (o o' : Orchestra) (a : A)
    → ask f o ≡ (ok a, o')
    → (f o.world.calls ≡ ok a) × (o'.world.calls ≡ o.world.calls + 1)
unfolding ask on_world call
asked f o o' a e = (ap (λ x. x.0) e, ap (λ (x : Result _ × Orchestra). x.1.world.calls) (sym e))

module _ (flows : Workflows) (driver_type execution_id workflow_id : String) where
  -- The execution as the driver shows it in its last call but two; after it, the execution and the
  -- workflow are deleted.
  abbrev pub ShownLast : MistralObj → Orchestra → Type 0
  ShownLast exec_obj o =
      (n : ℕ) × (flows.get_execution n driver_type execution_id ≡ ok exec_obj)
      × (o.world.calls ≡ n + 3)

  clean_up-ShownLast :
      Triple
        (λ _. Unit {0})
        (clean_up flows driver_type execution_id workflow_id)
        (λ exec_obj o. ShownLast exec_obj o)
  unfolding clean_up
  clean_up-ShownLast = record {
    at = λ o p a o' e.
        let (x, t, first, r1) =
          bind-ok (ask (λ n. flows.get_execution n driver_type execution_id)) _ o a o' e in
        let (u, t2, second, r2) =
          bind-ok (ask (λ n. flows.delete_execution n driver_type execution_id)) _ t a o' r1 in
        let (v, t3, third, r3) =
          bind-ok (ask (λ n. flows.delete_workflow n driver_type workflow_id)) _ t2 a o' r2 in
        let (got, c1) = asked _ o t x first in
        let (_, c2) = asked _ t t2 u second in
        let (_, c3) = asked _ t2 t3 v third in
        let (same, after) = returned x a t3 o' r3 in
        let c4 = ap (λ (s : Orchestra). s.world.calls) after in
        (o.world.calls, rw same at got, omega (arith, c1, c2, c3, c4));
  }

  on_db-shown :
      {A : Type 0} (exec_obj : MistralObj) (m : Exec Db A) (o : Orchestra)
      → ShownLast exec_obj o
      → ShownLast exec_obj (on_world (on_db m) o).1
  unfolding on_world on_db
  on_db-shown exec_obj m o h = h

  module _ (env : Env) (context : Context) (ns_id : String) (instances : List String) where
    post-AllHave :
        (exec_obj : MistralObj) (reason : Option String)
        → Triple
            (λ _. Unit {0})
            (create_ns_post env flows.literal_eval context ns_id exec_obj instances reason)
            (λ _ s. AllHave ns_id (status_of exec_obj) s.tables)
    unfolding create_ns_post query
    post-AllHave exec_obj reason = Triple-after _ _ _ _ λ found. finish_ok _ _ (
        Triple-value (λ (row : Ns). row.id ≡ ns_id) _ _ _
          (record { at = λ s p a s' e. found_id context ns_id s.tables a (ap (λ x. x.0) e) })
          λ row same. Triple-after _ _ _ _ λ now.
            Triple-bind _ _ (λ _ s. AllHave ns_id (status_of exec_obj) s.tables) _ _
              (update-AllHave ns_id row.id _ (status_of exec_obj) same λ r. refl)
              λ _.
                Triple-bind _ _ (λ _ s. AllHave ns_id (status_of exec_obj) s.tables) _ _
                  (event-AllHave env ns_id (status_of exec_obj) row.id now)
                  λ _. Triple-pure _ _ _ λ s p. p)

    settled :
        (exec_obj : MistralObj) (reason : Option String)
        → Triple
            (λ o. ShownLast exec_obj o)
            (on_world (
              on_db
                (create_ns_post env flows.literal_eval context ns_id exec_obj instances reason)))
            (λ _ o. ShownLast exec_obj o × AllHave ns_id (status_of exec_obj) o.world.db.tables)
    settled exec_obj reason =
        let post = create_ns_post env flows.literal_eval context ns_id exec_obj instances reason in
        record {
          at = λ o p a o' e. (
            (Triple-kept (λ o. ShownLast exec_obj o) (on_world (on_db post))
                  (on_db-shown exec_obj post)).at
                o p a o' e,
            (on_db-triple _ _ (post-AllHave exec_obj reason)).at o tt a o' e,
          );
        }

    pub wait_create-AllHave :
        (drv : Drivers) (o o' : Orchestra)
        → wait_create flows env drv context driver_type ns_id execution_id workflow_id instances o
          ≡ (ok tt, o')
        → (exec_obj : MistralObj) × ShownLast exec_obj o'
          × AllHave ns_id (status_of exec_obj) o'.world.db.tables
    unfolding wait_create
    wait_create-AllHave drv o o' e =
        let triple : Triple (λ _. Unit {0})
            (wait_create flows env drv context driver_type ns_id execution_id workflow_id instances)
            (λ _ o.
              (exec_obj : MistralObj) × ShownLast exec_obj o
              × AllHave ns_id (status_of exec_obj) o.world.db.tables) =
          Triple-after _ _ _ _ λ polled.
            Triple-bind _ _ (λ exec_obj o. ShownLast exec_obj o) _ _ clean_up-ShownLast
              λ exec_obj.
                Triple-bind _ _
                  (λ _ o.
                    ShownLast exec_obj o × AllHave ns_id (status_of exec_obj) o.world.db.tables)
                  _ _ (settled exec_obj (reason_of "creat" execution_id polled))
                  λ _. Triple-pure _ _ tt λ o h. (exec_obj, h.0, h.1) in
        triple.at o tt tt o' e
