-- ===== src/Meo/Register/Default.antt =====
-- meo/meo_plugin.py: through the plugin, too, a context has one default VIM at most.
use apmec.Prelude.{ℕ, String, Bool, true}
use apmec.Errors.{Error, Result, ok, err}
use apmec.Exec.{Exec, pure, ◌>>=◌}
use apmec.Dict.{Dict}
use apmec.Db.{Env, Context}
use apmec.Session.{IsLater}
use apmec.Session.Moves.{Preorder, Moves, moves_rules}
use apmec.Meo.VimRow.{VimDict, make_vim_dict}
use apmec.Meo.Vim.{VimRequest, VimChanges, is_vim_still_in_use}
use apmec.Meo.Vim
use apmec.Meo.Vim.Default.{
  create_vim_op, update_vim_op, delete_vim_op, run_vim_op, OneDefault, run_vim_op-OneDefault,
  drop_state,
}
use apmec.Mec.World.{World}
use apmec.Mec.Moves.{Shifts, shifts_rules}
use apmec.Meo.Register.{
  VimDrivers, VimObj, VimUpdate, attempt, register, delete_auth, forget, store, create_vim,
  get_unused_vim, discard, restore, update_vim, deregister, delete_vim,
}

-- What the API asks of the plugin.
pub data VimCall : Type 0 where
  create_vim_call : VimRequest → VimCall
  update_vim_call : String → VimUpdate → VimCall
  delete_vim_call : String → VimCall

abbrev drop : {A : Type 0} → Exec World A → Exec World (Unit {0})
drop m = m >>= λ _. pure tt

unfoldable pub run_vim_call : Env → VimDrivers → Context → VimCall → Exec World (Unit {0})
run_vim_call env vims context (create_vim_call vim) = drop (create_vim env vims context vim)
run_vim_call env vims context (update_vim_call vim_id vim) =
    drop (update_vim env vims context vim_id vim)
run_vim_call env vims context (delete_vim_call vim_id) = delete_vim env vims context vim_id

-- Tables that have one default VIM at most go to such tables.
abbrev one_default : Context → Preorder
one_default context = record {
  Rel = λ t u. OneDefault context t → OneDefault context u;
  rel_refl = λ t h. h;
  rel_trans = λ t u v f g h. g (f h);
}

module _ (env : Env) (later : IsLater env) (vims : VimDrivers) (context : Context) where
  create-Moves : (vim : VimRequest) → Moves (one_default context) (Vim.create_vim env context vim)
  unfolding run_vim_op
  create-Moves vim = record {
    at = λ s h.
        rw (← drop_state (Vim.create_vim env context vim) s)
          (run_vim_op-OneDefault env context (create_vim_op vim) s later h);
  }

  update-Moves :
      (vim_id : String) (vim : VimChanges)
      → Moves (one_default context) (Vim.update_vim env context vim_id vim)
  unfolding run_vim_op
  update-Moves vim_id vim = record {
    at = λ s h.
        rw (← drop_state (Vim.update_vim env context vim_id vim) s)
          (run_vim_op-OneDefault env context (update_vim_op vim_id vim) s later h);
  }

  delete-Moves :
      (vim_id : String) → Moves (one_default context) (Vim.delete_vim env context vim_id true)
  unfolding run_vim_op
  delete-Moves vim_id = record {
    at = λ s h. run_vim_op-OneDefault env context (delete_vim_op vim_id true) s later h;
  }

  in_use-Moves :
      (vim_id : String) → Moves (one_default context) (is_vim_still_in_use context vim_id)
  unfolding is_vim_still_in_use
  in_use-Moves vim_id = search moves_rules

  get_vim-Moves :
      (vim_id : String) (mask : Bool)
      → Moves (one_default context) (Vim.get_vim env context vim_id mask)
  unfolding Vim.get_vim make_vim_dict
  get_vim-Moves vim_id mask = search moves_rules

  attempt-Shifts : {A : Type 0} (f : ℕ → A) → Shifts (one_default context) (attempt f)
  unfolding attempt
  attempt-Shifts f = record { at = λ w h. h }

  register-Shifts : (vim_obj : VimObj) → Shifts (one_default context) (register env vims vim_obj)
  unfolding register
  register-Shifts vim_obj = search (shifts_rules, attempt-Shifts)

  delete_auth-Shifts :
      (type id : String) (cred : Dict String)
      → Shifts (one_default context) (delete_auth env vims type id cred)
  unfolding delete_auth
  delete_auth-Shifts type id cred = search shifts_rules

  forget-Shifts :
      {A : Type 0} (vim : VimRequest) (e : Error)
      → Shifts (one_default context) (forget env vims {A = A} vim e)
  unfolding forget
  forget-Shifts vim e = search (shifts_rules, delete_auth-Shifts)

  store-Shifts :
      (vim : VimRequest) (r : Result (Unit {0}))
      → Shifts (one_default context) (store env vims context vim r)
  store-Shifts vim (ok _) = search (shifts_rules, create-Moves, forget-Shifts) depth 8
  store-Shifts vim (err e) = search (shifts_rules, forget-Shifts)

  create_vim-Shifts :
      (vim : VimRequest) → Shifts (one_default context) (create_vim env vims context vim)
  unfolding create_vim
  create_vim-Shifts vim = search (shifts_rules, moves_rules, register-Shifts, store-Shifts) depth 12

  get_unused-Shifts :
      (vim_id : String) → Shifts (one_default context) (get_unused_vim env vims context vim_id)
  unfolding get_unused_vim
  get_unused-Shifts vim_id = search (shifts_rules, in_use-Moves, get_vim-Moves) depth 8

  discard-Shifts :
      {A : Type 0} (vim_obj : VimObj) (e : Error)
      → Shifts (one_default context) (discard env vims {A = A} vim_obj e)
  unfolding discard
  discard-Shifts vim_obj e = search (shifts_rules, delete_auth-Shifts)

  restore-Shifts :
      (vim_id : String) (old : VimDict) (vim : VimUpdate) (r : Result (Unit {0}) × VimObj)
      → Shifts (one_default context) (restore env vims context vim_id old vim r)
  restore-Shifts vim_id old vim (ok _, vim_obj) =
      search (shifts_rules, update-Moves, discard-Shifts, delete_auth-Shifts) depth 16
  restore-Shifts vim_id old vim (err e, vim_obj) = search shifts_rules

  update_vim-Shifts :
      (vim_id : String) (vim : VimUpdate)
      → Shifts (one_default context) (update_vim env vims context vim_id vim)
  unfolding update_vim
  update_vim-Shifts vim_id vim =
      search (shifts_rules, update-Moves, get_unused-Shifts, register-Shifts, restore-Shifts) depth
        16

  deregister-Shifts :
      (vim_obj : VimObj) → Shifts (one_default context) (deregister env vims vim_obj)
  unfolding deregister
  deregister-Shifts vim_obj = search shifts_rules

  delete_vim-Shifts :
      (vim_id : String) → Shifts (one_default context) (delete_vim env vims context vim_id)
  unfolding delete_vim
  delete_vim-Shifts vim_id =
      search (shifts_rules, get_unused-Shifts, deregister-Shifts, delete-Moves) depth 12

  -- A call of the plugin on VIMs, whether it returns or raises and whatever the drivers of VIMs do,
  -- leaves at most one default VIM that the context sees, if there was at most one before and the
  -- clock never shows `datetime.min`.
  pub run_vim_call-OneDefault :
      (asked : VimCall) (w : World)
      → OneDefault context w.db.tables
      → OneDefault context (run_vim_call env vims context asked w).1.db.tables
  unfolding run_vim_call
  run_vim_call-OneDefault (create_vim_call vim) w h =
      let moves : Shifts (one_default context) (drop (create_vim env vims context vim)) =
        search (shifts_rules, create_vim-Shifts) in
      moves.at w h
  run_vim_call-OneDefault (update_vim_call vim_id vim) w h =
      let moves : Shifts (one_default context) (drop (update_vim env vims context vim_id vim)) =
        search (shifts_rules, update_vim-Shifts) in
      moves.at w h
  run_vim_call-OneDefault (delete_vim_call vim_id) w h = (delete_vim-Shifts vim_id).at w h
