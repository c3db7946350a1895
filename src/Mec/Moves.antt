-- ===== src/Mec/Moves.antt =====
-- How far an action of the plugin may move the tables: one rule for each way to build one.
use apmec.Prelude.{ℕ, String, Bool, true, false, Option, none, some, if◌then◌else◌}
use apmec.Errors.{Error, Result, ok, err}
use apmec.Exec.{Exec, pure, raise, lift, handle, proceed, rescue, ◌>>=◌}
use apmec.Db.{Tables, Db}
use apmec.Session.Moves.{Preorder, Moves}
use apmec.Monitor.{Hosted}
use apmec.Monitor
use apmec.Mec.World.{World, Driven, Task, on_db, call, drive, spawn_n, on_monitor}
use apmec.Mec.Actions.{marked, mark_dead}
use apmec.Mec.Rounds.{read_object}

pub record Shifts {A : Type 0} (R : Preorder) (m : Exec World A) : Type 0 where
  pub at : (w : World) → R.Rel w.db.tables (m w).1.db.tables

module _ (R : Preorder) where
  pub Shifts-pure : {A : Type 0} (a : A) → Shifts R (pure a)
  unfolding pure
  Shifts-pure a = record { at = λ w. R.rel_refl w.db.tables }

  pub Shifts-raise : {A : Type 0} (e : Error) → Shifts R (raise {A = A} e)
  unfolding raise
  Shifts-raise e = record { at = λ w. R.rel_refl w.db.tables }

  pub Shifts-lift : {A : Type 0} (r : Result A) → Shifts R (lift r)
  unfolding lift
  Shifts-lift r = record { at = λ w. R.rel_refl w.db.tables }

  pub Shifts-call : {A : Type 0} (f : ℕ → Result A) → Shifts R (call f)
  unfolding call
  Shifts-call f = record { at = λ w. R.rel_refl w.db.tables }

  pub Shifts-drive : {A : Type 0} (f : ℕ → Driven A) → Shifts R (drive f)
  unfolding drive
  Shifts-drive f = record { at = λ w. R.rel_refl w.db.tables }

  pub Shifts-spawn_n : (task : Task) → Shifts R (spawn_n task)
  unfolding spawn_n
  Shifts-spawn_n task = record { at = λ w. R.rel_refl w.db.tables }

  pub Shifts-on_monitor : (f : Hosted → Hosted) → Shifts R (on_monitor f)
  unfolding on_monitor
  Shifts-on_monitor f = record { at = λ w. R.rel_refl w.db.tables }

  pub Shifts-read_object : (n : ℕ) → Shifts R (read_object n)
  unfolding read_object
  Shifts-read_object n = record { at = λ w. R.rel_refl w.db.tables }

  rel_marked : (w : World) (r : Result Hosted) → R.Rel w.db.tables (marked w r).1.db.tables
  rel_marked w (ok m) = R.rel_refl w.db.tables
  rel_marked w (err e) = R.rel_refl w.db.tables

  pub Shifts-mark_dead : (mea_id : String) → Shifts R (mark_dead mea_id)
  unfolding mark_dead
  Shifts-mark_dead mea_id = record { at = λ w. rel_marked w (Monitor.mark_dead mea_id w.monitor) }

  pub Shifts-on_db : {A : Type 0} (m : Exec Db A) → Moves R m → Shifts R (on_db m)
  unfolding on_db
  Shifts-on_db m h = record { at = λ w. h.at w.db }

  pub Shifts-if :
      {A : Type 0} (b : Bool) (m n : Exec World A)
      → Shifts R m
      → Shifts R n
      → Shifts R (if b then m else n)
  Shifts-if true m n hm hn = hm
  Shifts-if false m n hm hn = hn

  pub Shifts-option :
      {A B : Type 0} (o : Option A) (m : Exec World B) (f : A → Exec World B)
      → Shifts R m
      → ((a : A) → Shifts R (f a))
      → Shifts R (elim o [ none ↦ m | some a ↦ f a ])
  Shifts-option none m f hm hf = hm
  Shifts-option (some a) m f hm hf = hf a

  pub Shifts-result :
      {A B : Type 0} (r : Result A) (f : A → Exec World B) (g : Error → Exec World B)
      → ((a : A) → Shifts R (f a))
      → ((e : Error) → Shifts R (g e))
      → Shifts R (elim r [ ok a ↦ f a | err e ↦ g e ])
  Shifts-result (ok a) f g hf hg = hf a
  Shifts-result (err e) f g hf hg = hg e

  pub Shifts-bool :
      {B : Type 0} (b : Bool) (m n : Exec World B)
      → Shifts R m
      → Shifts R n
      → Shifts R (elim b [ true ↦ m | false ↦ n ])
  Shifts-bool true m n hm hn = hm
  Shifts-bool false m n hm hn = hn

  Shifts-handle :
      {A : Type 0} (r : Result A) (h : Error → Exec World A)
      → ((e : Error) → Shifts R (h e))
      → Shifts R (handle h r)
  Shifts-handle (ok a) h hh = record { at = λ w. R.rel_refl w.db.tables }
  Shifts-handle (err e) h hh = hh e

  pub Shifts-rescue :
      {A : Type 0} (m : Exec World A) (h : Error → Exec World A)
      → Shifts R m
      → ((e : Error) → Shifts R (h e))
      → Shifts R (rescue m h)
  unfolding rescue
  Shifts-rescue m h hm hh = record {
    at = λ w. let (r, w') = m w in R.rel_trans _ _ _ (hm.at w) ((Shifts-handle r h hh).at w');
  }

  rel_proceed :
      {A B : Type 0} (t : Tables) (r : Result A × World) (next : A → Exec World B)
      → R.Rel t r.1.db.tables
      → ((a : A) → Shifts R (next a))
      → R.Rel t (proceed next r).1.db.tables
  rel_proceed t (ok a, w) next h hf = R.rel_trans _ _ _ h ((hf a).at w)
  rel_proceed t (err e, w) next h hf = h

  pub Shifts-bind :
      {A B : Type 0} (m : Exec World A) (f : A → Exec World B)
      → Shifts R m
      → ((a : A) → Shifts R (f a))
      → Shifts R (m >>= f)
  unfolding ◌>>=◌
  Shifts-bind m f hm hf = record { at = λ w. rel_proceed w.db.tables (m w) f (hm.at w) hf }

pub ruleset shifts_rules = (
  Shifts-pure, Shifts-raise, Shifts-lift, Shifts-call, Shifts-drive, Shifts-spawn_n,
  Shifts-on_monitor, Shifts-read_object, Shifts-mark_dead, Shifts-on_db, Shifts-if, Shifts-option,
  Shifts-result, Shifts-bool, Shifts-rescue, Shifts-bind,
)
