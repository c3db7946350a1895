-- ===== src/Meo/Register/Refuses.antt =====
-- meo/meo_plugin.py: a VIM that a MEA runs on is neither updated nor deleted.
use mathlib.Core.List.{Memᴰ}
use apmec.Prelude.{
  String, ◌≡◌, refl, Bool, true, some, List, [], ◌∷◌, ◌&&◌, ◌==◌, Bool-cases, inl, inr,
}
use apmec.Errors.{err, vim_in_use}
use apmec.Exec.{◌>>=◌}
use apmec.Table
use apmec.Db.{Env, Context, Mea, Tables}
use apmec.Session.{model_query, transaction, query}
use apmec.Mem.MeaRow.{mea_columns}
use apmec.Meo.Vim.{in_use, is_vim_still_in_use}
use apmec.Mec.World.{World, on_db}
use apmec.Meo.Register.{VimDrivers, VimUpdate, get_unused_vim, update_vim, delete_vim}

first-some :
    (p : Mea → Bool) (r : Mea) (rows : List Mea)
    → p r ≡ true
    → Memᴰ r rows
    → (x : Mea) × (Table.first p rows ≡ some x)
unfolding Table.first
first-some p r (x ∷ rows) h (Memᴰ.head same) = (x, rw (rw same at h) refl)
first-some p r (x ∷ rows) h (Memᴰ.tail m) = elim (Bool-cases (p x)) [
  | inl fits ↦ (x, rw fits refl)
  | inr other ↦ let (y, found) = first-some p r rows h m in (y, rw (other, found) refl)
]
first-some p r [] h m = elim m [ ]

-- The context sees the MEA, and it is on the VIM.
abbrev RunsOn : Context → String → Mea → Type 0
RunsOn context vim_id r = (model_query mea_columns context r && r.vim_id == vim_id) ≡ true

module _ (context : Context) (vim_id : String) (r : Mea) (runs : RunsOn context vim_id r) where
  in_use-err : (t : Tables) → Memᴰ r t.meas → in_use context vim_id t ≡ err (vim_in_use vim_id)
  in_use-err t m =
      let (x, found) =
        first-some (λ a. model_query mea_columns context a && a.vim_id == vim_id) r t.meas runs m in
      rw (found, in_use) refl

  module _ (env : Env) (vims : VimDrivers) (w : World) (there : Memᴰ r w.db.tables.meas) where
    -- Where a MEA that the context sees is on the VIM, `update_vim` and `delete_vim` raise
    -- VimInUseException before they call a driver, and change nothing.
    pub change_vim-refused :
        (vim : VimUpdate)
        → (update_vim env vims context vim_id vim w ≡ (err (vim_in_use vim_id), w))
          × (delete_vim env vims context vim_id w ≡ (err (vim_in_use vim_id), w))
    unfolding update_vim delete_vim get_unused_vim is_vim_still_in_use on_db transaction query ◌>>=◌
    change_vim-refused vim =
        let refused = in_use-err w.db.tables there in (rw refused refl, rw refused refl)
