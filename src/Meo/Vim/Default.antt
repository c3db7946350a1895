-- ===== src/Meo/Vim/Default.antt =====
-- db/meo/meo_db_plugin.py: the default VIM is one.
use apmec.Prelude.{
  ◌≤◌, String, ◌≡◌, refl, sym, ◌∙◌, inl, inr, Bool, true, Option, none, some, List, [], ◌∷◌, eq_iff,
  arith, length, Bool-cases,
}
use apmec.Errors.{Result, ok, err}
use apmec.Exec.{Exec, pure, proceed, ◌>>=◌, ◌>>◌}
use apmec.Table.{select}
use apmec.Table.Keyed.{select-fits}
use apmec.Table.Single.{Only, Only-nothing, Only-one, Only-exists, length-Only}
use apmec.Db.{Tables, Db, Env, Context, Vim}
use apmec.Session.{IsLater, query, the_one, by_id, transaction}
use apmec.Session.Moves.{Moves, Moves-bind, Moves-bind-query, Moves-transaction, after_check}
use apmec.Meo.VimRow.{
  vim_columns, is_default_seen, validate_default_vim, unless_other, same_vim, or_vim_not_found,
  get_vim_resource,
}
use apmec.Meo.Vim.{
  VimRequest, VimChanges, wants_default, add_vim, create_vim, delete_vim, get_vim, change_vim,
  update_vim, update_vim_status,
}
use apmec.Meo.Vim.Keeps.{
  id_of, VimIds, OnlyDefault, default_moves, add-keeps, delete-keeps_all, status-keeps,
  change-keeps, get_vim-stays,
}

-- What a run of an operation on VIMs may be.
pub data VimOp : Type 0 where
  create_vim_op : VimRequest → VimOp
  update_vim_op : String → VimChanges → VimOp
  delete_vim_op : String → Bool → VimOp
  vim_status_op : String → String → VimOp

abbrev drop : {A : Type 0} → Exec Db A → Exec Db (Unit {0})
drop m = m >>= λ _. pure tt

unfoldable pub run_vim_op : Env → Context → VimOp → Exec Db (Unit {0})
run_vim_op env context (create_vim_op vim) = drop (create_vim env context vim)
run_vim_op env context (update_vim_op vim_id vim) = drop (update_vim env context vim_id vim)
run_vim_op env context (delete_vim_op vim_id soft) = delete_vim env context vim_id soft
run_vim_op env context (vim_status_op vim_id status) =
    drop (update_vim_status env context vim_id status)

-- At most one default VIM that the context sees, in a table with distinct primary keys.
abbrev pub OneDefault : Context → Tables → Type 0
OneDefault context t = VimIds t × (length (select (is_default_seen context) t.vims) ≤ 1)

one_default :
    (context : Context) (k : String) {A : Type 0} (m : Exec Db A) (s : Db)
    → Moves (default_moves context k) m
    → OnlyDefault context k s.tables
    → OneDefault context (m s).1.tables
one_default context k m s moves only =
    let (ids, few) = moves.at s only in
    (ids, length-Only id_of (is_default_seen context) k (m s).1.vims ids few)

pub drop_state : {A : Type 0} (m : Exec Db A) (s : Db) → (drop m s).1 ≡ (m s).1
unfolding ◌>>=◌
drop_state m s = go (m s)
  where
    go : {A : Type 0} (p : Result A × Db) → (proceed {A = A} (λ _. pure (tt {0})) p).1 ≡ p.1
    go (ok a, t) = refl
    go (err e, t) = refl

-- The VIM that a passed check leaves as the only one that may be the default.
checked-Only :
    (context : Context) (vim_id : Option String) (k : String) (t : Tables)
    → ((id : String) → same_vim vim_id id ≡ true → id ≡ k)
    → validate_default_vim context true vim_id t ≡ ok tt
    → Only id_of (is_default_seen context) k t.vims
checked-Only context vim_id k t same h = go (select (is_default_seen context) t.vims) refl h
  where
    go :
        (l : List Vim)
        → select (is_default_seen context) t.vims ≡ l
        → unless_other vim_id (the_one l) ≡ ok tt
        → Only id_of (is_default_seen context) k t.vims
    go [] e h = Only-nothing id_of (is_default_seen context) k t.vims e
    go (r ∷ []) e h = elim (Bool-cases (same_vim vim_id r.id)) [
      | inl mine ↦ rw (← same r.id mine) (Only-one id_of (is_default_seen context) r t.vims e)
      | inr other ↦ absurd (cc (rw other at h))
    ]
    go (r ∷ q ∷ l) e h = absurd (cc)

found_id :
    (context : Context) (vim_id : String) (t : Tables) (row : Vim)
    → get_vim_resource context vim_id t ≡ ok row
    → row.id ≡ vim_id
found_id context vim_id t row h = go (select (by_id vim_columns context vim_id) t.vims) refl h
  where
    go :
        (l : List Vim)
        → select (by_id vim_columns context vim_id) t.vims ≡ l
        → or_vim_not_found vim_id (the_one l) ≡ ok row
        → row.id ≡ vim_id
    go [] e h = absurd (cc)
    go (r ∷ []) e h =
        let same : r ≡ row = cc in
        let fits = select-fits (by_id vim_columns context vim_id) t.vims r e in
        (eq_iff row.id vim_id).0 (rw (← same) (ground arith))
    go (r ∷ q ∷ l) e h = absurd (cc)

module _ (env : Env) (context : Context) (s : Db) (start : OneDefault context s.tables) where
  create-OneDefault :
      (vim : VimRequest) → OneDefault context (create_vim env context vim s).1.tables
  unfolding create_vim
  create-OneDefault vim =
      after_check (OneDefault context) (validate_default_vim context vim.is_default none) _ s start
        λ passed. elim (Bool-cases vim.is_default) [
          | inl wanted ↦
              keep vim.id (λ _. refl)
                (checked-Only context none vim.id s.tables (λ id h. absurd (cc))
                  (rw wanted at passed))
          | inr plain ↦
              let (k, only) = Only-exists id_of (is_default_seen context) s.vims start.1 in
              keep k (λ wanted. absurd (ground arith)) only
        ]
    where
      keep :
          (k : String)
          → (vim.is_default ≡ true → vim.id ≡ k)
          → Only id_of (is_default_seen context) k s.vims
          → OneDefault context (add_vim env vim s).1.tables
      keep k h only =
          one_default context k (add_vim env vim) s (add-keeps context k env vim h) (start.0, only)

  update-OneDefault :
      (vim_id : String) (vim : VimChanges)
      → OneDefault context (update_vim env context vim_id vim s).1.tables
  unfolding update_vim
  update-OneDefault vim_id vim =
      after_check (OneDefault context)
        (validate_default_vim context (wants_default vim) (some vim_id)) _ s start
        λ passed. elim (Bool-cases (wants_default vim)) [
          | inl wanted ↦
              keep vim_id (λ _. refl)
                (checked-Only context (some vim_id) vim_id s.tables
                  (λ id h. sym ((eq_iff vim_id id).0 h)) (rw wanted at passed))
          | inr plain ↦
              let (k, only) = Only-exists id_of (is_default_seen context) s.vims start.1 in
              keep k (λ wanted. absurd (ground arith)) only
        ]
    where
      keep :
          (k : String)
          → (wants_default vim ≡ true → vim_id ≡ k)
          → Only id_of (is_default_seen context) k s.vims
          → OneDefault context
              ((do
                transaction
                    do row ← query (get_vim_resource context vim_id); change_vim env vim_id vim row
                get_vim env context vim_id true)
                s).1.tables
      keep k h only =
          one_default context k _ s
            (Moves-bind (default_moves context k) _ _
              (Moves-transaction (default_moves context k) _ (
                Moves-bind-query (default_moves context k) _ _ λ t row found.
                  (change-keeps context k env vim_id vim row
                      (λ wanted. found_id context vim_id t.tables row found ∙ h wanted)).at
                    t))
              (λ _. get_vim-stays context k env vim_id true))
            (start.0, only)

-- Every operation on VIMs in a context, whether it returns or raises, leaves at most one default VIM
-- that the context sees, if there was at most one before and the clock never shows `datetime.min`.
pub run_vim_op-OneDefault :
    (env : Env) (context : Context) (op : VimOp) (s : Db)
    → IsLater env
    → OneDefault context s.tables
    → OneDefault context (run_vim_op env context op s).1.tables
unfolding run_vim_op create_vim update_vim
run_vim_op-OneDefault env context (create_vim_op vim) s later (ids, few) =
    rw (drop_state (create_vim env context vim) s) (create-OneDefault env context s (ids, few) vim)
run_vim_op-OneDefault env context (update_vim_op vim_id vim) s later (ids, few) =
    rw (drop_state (update_vim env context vim_id vim) s)
      (update-OneDefault env context s (ids, few) vim_id vim)
run_vim_op-OneDefault env context (delete_vim_op vim_id soft) s later (ids, few) =
    let (k, only) = Only-exists id_of (is_default_seen context) s.vims few in
    one_default context k (delete_vim env context vim_id soft) s
      (delete-keeps_all context k env vim_id soft later) (ids, only)
run_vim_op-OneDefault env context (vim_status_op vim_id status) s later (ids, few) =
    let (k, only) = Only-exists id_of (is_default_seen context) s.vims few in
    rw (drop_state (update_vim_status env context vim_id status) s) (
      one_default context k (update_vim_status env context vim_id status) s
        (status-keeps context k env vim_id status) (ids, only))
