-- ===== src/Session/Moves.antt =====
-- How far an action may move the tables, whether it returns or raises: one rule for each way to
-- build an action, over any relation on the tables that is reflexive and transitive.
use apmec.Prelude.{ℕ, ◌+◌, ◌≡◌, refl, Bool, true, false, if◌then◌else◌}
use apmec.Errors.{Error, Result, ok, err}
use apmec.Exec.{Exec, pure, raise, lift, handle, proceed, rescue, ◌>>=◌}
use apmec.Db.{Tables, Db, Env}
use apmec.Session.{query, write, finish, transaction, generate_uuid, utcnow}

pub record Preorder : Type 1 where
  pub Rel : Tables → Tables → Type 0
  pub rel_refl : (t : Tables) → Rel t t
  pub rel_trans : (t u v : Tables) → Rel t u → Rel u v → Rel t v

pub record Moves {A : Type 0} (R : Preorder) (m : Exec Db A) : Type 0 where
  pub at : (s : Db) → R.Rel s.tables (m s).1.tables

module _ (R : Preorder) where
  pub Moves-pure : {A : Type 0} (a : A) → Moves R (pure a)
  unfolding pure
  Moves-pure a = record { at = λ s. R.rel_refl s.tables }

  pub Moves-raise : {A : Type 0} (e : Error) → Moves R (raise {A = A} e)
  unfolding raise
  Moves-raise e = record { at = λ s. R.rel_refl s.tables }

  pub Moves-lift : {A : Type 0} (r : Result A) → Moves R (lift r)
  unfolding lift
  Moves-lift r = record { at = λ s. R.rel_refl s.tables }

  pub Moves-query : {A : Type 0} (f : Tables → Result A) → Moves R (query f)
  unfolding query
  Moves-query f = record { at = λ s. R.rel_refl s.tables }

  pub Moves-generate_uuid : (env : Env) → Moves R (generate_uuid env)
  unfolding generate_uuid
  Moves-generate_uuid env = record { at = λ s. R.rel_refl s.tables }

  pub Moves-utcnow : (env : Env) → Moves R (utcnow env)
  unfolding utcnow
  Moves-utcnow env = record { at = λ s. R.rel_refl s.tables }

  pub Moves-write : (f : Tables → Tables) → ((t : Tables) → R.Rel t (f t)) → Moves R (write f)
  unfolding write
  Moves-write f h = record { at = λ s. h s.tables }

  pub Moves-if :
      {A : Type 0} (b : Bool) (m n : Exec Db A)
      → Moves R m
      → Moves R n
      → Moves R (if b then m else n)
  Moves-if true m n hm hn = hm
  Moves-if false m n hm hn = hn

  rel_finish :
      {A : Type 0} (r : Result A) (t : Tables) (s : Db)
      → R.Rel t s.tables
      → R.Rel t (finish r t s).tables
  rel_finish (ok a) t s h = h
  rel_finish (err e) t s h = R.rel_refl t

  pub Moves-transaction : {A : Type 0} (m : Exec Db A) → Moves R m → Moves R (transaction m)
  unfolding transaction
  Moves-transaction m h = record {
    at = λ s. let (r, s') = m s in rel_finish r s.tables s' (h.at s);
  }

  Moves-handle :
      {A : Type 0} (r : Result A) (h : Error → Exec Db A)
      → ((e : Error) → Moves R (h e))
      → Moves R (handle h r)
  Moves-handle (ok a) h hh = record { at = λ s. R.rel_refl s.tables }
  Moves-handle (err e) h hh = hh e

  pub Moves-rescue :
      {A : Type 0} (m : Exec Db A) (h : Error → Exec Db A)
      → Moves R m
      → ((e : Error) → Moves R (h e))
      → Moves R (rescue m h)
  unfolding rescue
  Moves-rescue m h hm hh = record {
    at = λ s. let (r, s') = m s in R.rel_trans _ _ _ (hm.at s) ((Moves-handle r h hh).at s');
  }

  rel_proceed :
      {A B : Type 0} (t : Tables) (r : Result A × Db) (next : A → Exec Db B)
      → R.Rel t r.1.tables
      → ((a : A) → Moves R (next a))
      → R.Rel t (proceed next r).1.tables
  rel_proceed t (ok a, s) next h hf = R.rel_trans _ _ _ h ((hf a).at s)
  rel_proceed t (err e, s) next h hf = h

  pub Moves-bind :
      {A B : Type 0} (m : Exec Db A) (f : A → Exec Db B)
      → Moves R m
      → ((a : A) → Moves R (f a))
      → Moves R (m >>= f)
  unfolding ◌>>=◌
  Moves-bind m f hm hf = record { at = λ s. rel_proceed s.tables (m s) f (hm.at s) hf }

module _ (R : Preorder) {A B : Type 0} (f : Tables → Result A) (k : A → Exec Db B) where
  rel_continue :
      (s : Db)
      → ((a : A) → f s.tables ≡ ok a → R.Rel s.tables (k a s).1.tables)
      → (r : Result A) → f s.tables ≡ r
      → R.Rel s.tables (proceed k (r, s)).1.tables
  rel_continue s h (ok a) e = h a e
  rel_continue s h (err x) e = R.rel_refl s.tables

  -- what comes after a read may use what the read has found
  pub Moves-bind-query :
      ((s : Db) (a : A) → f s.tables ≡ ok a → R.Rel s.tables (k a s).1.tables)
      → Moves R (query f >>= k)
  unfolding ◌>>=◌ query
  Moves-bind-query h = record { at = λ s. rel_continue s (h s) (f s.tables) refl }

-- what comes after a pure step may use that the step did not raise
pub Moves-bind-lift :
    (R : Preorder) {A B : Type 0} (r : Result A) (k : A → Exec Db B)
    → ((a : A) → r ≡ ok a → Moves R (k a))
    → Moves R (lift r >>= k)
unfolding ◌>>=◌
Moves-bind-lift R (ok a) k h = h a refl
Moves-bind-lift R (err e) k h = record { at = λ s. R.rel_refl s.tables }

-- what comes after a reading of the clock may use what the clock shows
pub Moves-bind-utcnow :
    (R : Preorder) (env : Env) {B : Type 0} (k : ℕ → Exec Db B)
    → ((n : ℕ) → Moves R (k (env.utcnow n)))
    → Moves R (utcnow env >>= k)
unfolding ◌>>=◌ utcnow
Moves-bind-utcnow R env k h = record { at = λ s. (h s.ticks).at (record s { ticks = s.ticks + 1 }) }

-- A property of the tables that a check passes on, and that what follows a passed check keeps.
pub after_check :
    (P : Tables → Type 0) (f : Tables → Result (Unit {0})) {B : Type 0} (rest : Exec Db B) (s : Db)
    → P s.tables
    → (f s.tables ≡ ok tt → P (rest s).1.tables)
    → P ((query f >>= λ _. rest) s).1.tables
unfolding ◌>>=◌ query
after_check P f rest s h k = go (f s.tables) refl
  where
    go : (r : Result (Unit {0})) → f s.tables ≡ r → P (proceed (λ _. rest) (r, s)).1.tables
    go (ok tt) e = k e
    go (err x) e = h

pub ruleset moves_rules = (
  Moves-pure, Moves-raise, Moves-lift, Moves-query, Moves-generate_uuid, Moves-utcnow, Moves-write,
  Moves-if, Moves-transaction, Moves-rescue, Moves-bind,
)
