-- ===== src/Mem/Mead/Guard.antt =====
-- The guard of `delete_mead`, which is to keep a MEAD that a MEA is made of.
use apmec.Prelude.{
  String, ◌≡◌, refl, Bool, false, Option, none, some, List, [], ◌∷◌, ◌==◌, All, is_none, arith,
  if◌then◌else◌, Bool-cases, inl, inr,
}
use apmec.Errors.{ok}
use apmec.Exec.{Exec, lift, ◌>>=◌}
use apmec.Table
use apmec.Db.{Tables, Db, Env, Context, Mea}
use apmec.Session.{transaction, query, not_none}
use apmec.Mem.Mead.{check_unused, soft_delete_mead, remove_mead, get_mead_resource, delete_mead}
use apmec.Mem.Change.{MeaIds}
use apmec.Mem.History.{Request, serve, AllStamped, serve-AllStamped}

-- `delete_mead` without its first step
abbrev pub delete_unguarded : Env → Context → String → Bool → Exec Db (Unit {0})
delete_unguarded env context mead_id soft_delete = transaction do
  found ← get_mead_resource env context mead_id
  row ← lift (not_none found)
  if soft_delete then soft_delete_mead env row else remove_mead mead_id row

stamped_first :
    (p : Mea → Bool) (rows : List Mea) (r : Mea)
    → All (λ (x : Mea). is_none x.deleted_at ≡ false) rows
    → Table.first p rows ≡ some r
    → is_none r.deleted_at ≡ false
unfolding Table.first
stamped_first p [] r h e = cc
stamped_first p (x ∷ rows) r h e = elim (Bool-cases (p x)) [
  | inl hit ↦ ground arith
  | inr miss ↦ stamped_first p rows r h.1 (rw miss at e)
]

check_passes : (mead_id : String) (t : Tables) → AllStamped t → check_unused mead_id t ≡ ok tt
check_passes mead_id t h = go (Table.first (λ (r : Mea). r.mead_id == mead_id) t.meas) refl
  where
    go :
        (o : Option Mea)
        → Table.first (λ (r : Mea). r.mead_id == mead_id) t.meas ≡ o
        → check_unused mead_id t ≡ ok tt
    go none e = rw (e, check_unused)
    go (some r) e =
        let stamped = stamped_first _ t.meas r h e in rw (e, check_unused) (ground arith)

-- In every database that any operations make of one without a NULL in `deleted_at`, such as the
-- empty one, `delete_mead` does what it would do without its check for a MEA of the MEAD: the check
-- passes also where such MEAs are alive.
pub delete_mead-unguarded :
    (env : Env) (start : Db) (requests : List Request)
    → MeaIds start.tables
    → AllStamped start.tables
    → (context : Context) (mead_id : String) (soft_delete : Bool)
    → delete_mead env context mead_id soft_delete (serve env start requests)
      ≡ delete_unguarded env context mead_id soft_delete (serve env start requests)
unfolding delete_mead transaction query ◌>>=◌
delete_mead-unguarded env start requests d h context mead_id soft_delete = rw (
    check_passes mead_id (serve env start requests).tables
      (serve-AllStamped env start requests d h))
