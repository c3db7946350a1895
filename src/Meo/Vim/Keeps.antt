-- ===== src/Meo/Vim/Keeps.antt =====
-- db/meo/meo_db_plugin.py: the steps of the operations on VIMs keep the row that may be the default.
use apmec.Prelude.{
  ℕ, String, ◌≡◌, refl, ◌∙◌, inl, inr, Bool, true, false, Option, none, some, List, [], ◌∷◌, ◌++◌,
  ◌&&◌, eq_iff, arith, Bool-cases,
}
use apmec.Constants.{ResourceType, EventType, EventState}
use apmec.Errors.{Error, db_duplicate_entry}
use apmec.Exec.{◌>>=◌}
use apmec.Table.{update, delete}
use apmec.Table.Evolves.{DistinctIds, DistinctIds-update, DistinctIds-delete}
use apmec.Table.Single.{Only, Only-update, Only-append, Only-delete, DistinctIds-of_no_clash}
use apmec.Db.{Tables, Env, Context, Vim}
use apmec.Session.{IsLater, query, write, has_clash}
use apmec.Session.Moves.{Preorder, Moves, Moves-write, Moves-bind, Moves-bind-utcnow, moves_rules}
use apmec.Events.{create_event}
use apmec.Mem.MeadRow.{as_duplicate}
use apmec.Meo.VimRow.{
  vim_clashes, flush_vims, update_vims, with_vims, has_id, is_default_seen, make_vim_dict,
}
use apmec.Meo.Vim.{
  VimRequest, VimChanges, wants_default, or_else, apply_changes, row_of, insert_vim, add_vim,
  soft_delete_vim, remove_vim, delete_vim, get_vim, change_vim, update_vim_status,
}

abbrev pub id_of : Vim → String
id_of r = r.id

abbrev pub VimIds : Tables → Type 0
VimIds t = DistinctIds id_of t.vims

same_id_clashes : (a b : Vim) → id_of b ≡ id_of a → vim_clashes a b ≡ true
same_id_clashes a b e = ground (arith, eq_iff a.id b.id)

and_false : (b : Bool) → ¬ ((b && false) ≡ true)
and_false b h = absurd (ground arith)

module _ (context : Context) (k : String) where
  abbrev pub OnlyDefault : Tables → Type 0
  OnlyDefault t = VimIds t × Only id_of (is_default_seen context) k t.vims

  abbrev pub default_moves : Preorder
  default_moves = record {
    Rel = λ t u. OnlyDefault t → OnlyDefault u;
    rel_refl = λ t h. h;
    rel_trans = λ t u v p q h. q (p h);
  }

  stays :
      (f : Tables → Tables) → ((t : Tables) → (f t).vims ≡ t.vims) → Moves default_moves (write f)
  stays f h = Moves-write default_moves f λ t o. (rw (h t) o.0, rw (h t) o.1)

  create_event-stays :
      (env : Env) (res_id : String) (res_type : ResourceType) (res_state : EventState)
      (evt_type : EventType) (tstamp : ℕ) (details : String)
      → Moves default_moves (create_event env res_id res_type res_state evt_type tstamp details)
  unfolding create_event
  create_event-stays env a b c d e f = search moves_rules depth 8

  make_vim_dict-stays :
      (env : Env) (mask : Bool) (r : Vim) → Moves default_moves (make_vim_dict env mask r)
  unfolding make_vim_dict
  make_vim_dict-stays env mask r = search moves_rules

  pub get_vim-stays :
      (env : Env) (vim_id : String) (mask : Bool)
      → Moves default_moves (get_vim env context vim_id mask)
  unfolding get_vim
  get_vim-stays env vim_id mask = search (moves_rules, make_vim_dict-stays)

  as_duplicate-stays :
      {A : Type 0} (type : String) (e : Error) → Moves default_moves (as_duplicate {A = A} type e)
  as_duplicate-stays type db_duplicate_entry = search moves_rules
  as_duplicate-stays type _ = search moves_rules

  flush-keeps :
      (f : List Vim → List Vim)
      → ((rows : List Vim)
          → Only id_of (is_default_seen context) k rows
          → Only id_of (is_default_seen context) k (f rows))
      → Moves default_moves (flush_vims f)
  unfolding flush_vims query write ◌>>=◌
  flush-keeps f h = record {
    at = λ s o. elim (Bool-cases (has_clash vim_clashes (f s.vims))) [
      | inl clash ↦ rw clash o
      | inr fits ↦
          rw fits (
            DistinctIds-of_no_clash id_of vim_clashes same_id_clashes (f s.vims) fits,
            h s.vims o.1,
          )
    ];
  }

  update-keeps :
      (p : Vim → Bool) (f : Vim → Vim)
      → ((r : Vim) → id_of (f r) ≡ id_of r)
      → ((r : Vim)
          → p r ≡ true
          → is_default_seen context (f r) ≡ true
          → (is_default_seen context r ≡ true → id_of r ≡ k)
          → id_of r ≡ k)
      → Moves default_moves (update_vims p f)
  unfolding update_vims
  update-keeps p f same step = Moves-write default_moves _ λ t o. (
    DistinctIds-update id_of p f t.vims same o.0,
    Only-update id_of (is_default_seen context) p f k t.vims same step o.1,
  )

  delete-keeps : (p : Vim → Bool) → Moves default_moves (write (with_vims (delete p)))
  delete-keeps p = Moves-write default_moves _ λ t o. (
    DistinctIds-delete id_of p t.vims o.0,
    Only-delete id_of (is_default_seen context) p k t.vims o.1,
  )

  insert-keeps :
      (env : Env) (vim : VimRequest)
      → (vim.is_default ≡ true → vim.id ≡ k)
      → Moves default_moves (insert_vim env vim)
  unfolding insert_vim
  insert-keeps env vim h = search (moves_rules, append) depth 10
    where
      append : (now : ℕ) → Moves default_moves (flush_vims (λ rows. rows ++ (row_of vim now ∷ [])))
      append now = flush-keeps _ λ rows o.
          Only-append id_of (is_default_seen context) k rows (row_of vim now)
            (λ seen. h (ground arith)) o

  pub add-keeps :
      (env : Env) (vim : VimRequest)
      → (vim.is_default ≡ true → vim.id ≡ k)
      → Moves default_moves (add_vim env vim)
  unfolding add_vim
  add-keeps env vim h =
      search
        (moves_rules, insert-keeps, h, as_duplicate-stays, make_vim_dict-stays, create_event-stays)
        depth 12

  soft_delete-keeps :
      (env : Env) (row : Vim) → IsLater env → Moves default_moves (soft_delete_vim env row)
  unfolding soft_delete_vim
  soft_delete-keeps env row later = Moves-bind-utcnow default_moves env _ λ n.
      Moves-bind default_moves _ _ (mark n) λ _. search (moves_rules, create_event-stays) depth 8
    where
      mark :
          (n : ℕ)
          → Moves default_moves (
              flush_vims
                (update (has_id row.id) (λ r. record r { deleted_at = some (env.utcnow n) })))
      mark n = flush-keeps _ λ rows o.
          Only-update id_of (is_default_seen context) (has_id row.id)
            (λ r. record r { deleted_at = some (env.utcnow n) }) k rows (λ r. refl)
            (λ r hit seen _. absurd (ground (arith, later n))) o

  pub delete-keeps_all :
      (env : Env) (vim_id : String) (soft : Bool)
      → IsLater env
      → Moves default_moves (delete_vim env context vim_id soft)
  unfolding delete_vim remove_vim
  delete-keeps_all env vim_id soft later =
      search (moves_rules, soft_delete-keeps env, delete-keeps, later) depth 8

  pub status-keeps :
      (env : Env) (vim_id status : String)
      → Moves default_moves (update_vim_status env context vim_id status)
  unfolding update_vim_status
  status-keeps env vim_id status = search (moves_rules, make_vim_dict-stays, set_status) depth 10
    where
      set_status :
          (id : String) (now : ℕ)
          → Moves default_moves
              (update_vims (has_id id) (λ r. record r { status = status; updated_at = some now }))
      set_status id now = update-keeps _ _ (λ r. refl) λ r hit seen old. old seen

  pub change-keeps :
      (env : Env) (vim_id : String) (vim : VimChanges) (row : Vim)
      → (wants_default vim ≡ true → row.id ≡ k)
      → Moves default_moves (change_vim env vim_id vim row)
  unfolding change_vim
  change-keeps env vim_id vim row h =
      Moves-bind default_moves _ _ changes
        λ _. search (moves_rules, touch, create_event-stays) depth 14
    where
      changes : Moves default_moves (flush_vims (update (has_id row.id) (apply_changes vim)))
      changes = flush-keeps _ λ rows o.
          Only-update id_of (is_default_seen context) (has_id row.id) (apply_changes vim) k rows
            (λ r. refl) (λ r hit seen old. changed vim.is_default refl r hit seen old) o
        where
          changed :
              (d : Option Bool)
              → vim.is_default ≡ d
              → (r : Vim) → has_id row.id r ≡ true
              → is_default_seen context (apply_changes vim r) ≡ true
              → (is_default_seen context r ≡ true → id_of r ≡ k)
              → id_of r ≡ k
          changed none e r hit seen old = old (rw (apply_changes, or_else, e) at seen)
          changed (some true) e r hit seen old = (eq_iff r.id row.id).0 hit ∙ h (rw e refl)
          changed (some false) e r hit seen old =
              absurd (and_false _ (rw (apply_changes, or_else, e) at seen))

      touch :
          (now : ℕ)
          → Moves default_moves
              (update_vims (has_id row.id) (λ r. record r { updated_at = some now }))
      touch now = update-keeps _ _ (λ r. refl) λ r hit seen old. old seen
