-- ===== src/Session/Results.antt =====
-- What is known of a transaction by its result.
use apmec.Prelude.{◌≡◌, refl}
use apmec.Errors.{Error, Result, ok, err}
use apmec.Exec.{Exec, pure, ◌>>=◌, proceed}
use apmec.Db.{Tables, Db}
use apmec.Session.{finish, transaction, query}

module _ {A : Type 0} where
  finish-ok :
      (r : Result A) (t : Tables) (s : Db) (a : A) (s' : Db)
      → ◌≡◌ {A = Result A × Db} (r, finish r t s) (ok a, s')
      → ◌≡◌ {A = Result A × Db} (r, s) (ok a, s')
  finish-ok (ok x) t s a s' h = h
  finish-ok (err e) t s a s' h = cc

  -- A transaction that returns has done what its body did.
  pub transaction-ok :
      (m : Exec Db A) (s : Db) (a : A) (s' : Db) → transaction m s ≡ (ok a, s') → m s ≡ (ok a, s')
  unfolding transaction
  transaction-ok m s a s' h = let (r, t) = m s in finish-ok r s.tables t a s' h

  finish-err :
      (r : Result A) (t : Tables) (s : Db) (e : Error) → r ≡ err e → (finish r t s).tables ≡ t
  finish-err (ok x) t s e h = cc
  finish-err (err x) t s e h = refl

  -- A transaction that raises leaves the tables as they were.
  pub transaction-err :
      (m : Exec Db A) (s : Db) (e : Error)
      → (transaction m s).0 ≡ err e
      → (transaction m s).1.tables ≡ s.tables
  unfolding transaction
  transaction-err m s e h = let (r, t) = m s in finish-err r s.tables t e h

  drop_finish :
      (r : Result A) (t : Tables) (s : Db) (e : Error)
      → (proceed (λ _. pure (tt {0})) (r, finish r t s)).0 ≡ err e
      → (proceed (λ _. pure (tt {0})) (r, finish r t s)).1.tables ≡ t
  unfolding ◌>>=◌
  drop_finish (ok x) t s e h = cc
  drop_finish (err x) t s e h = refl

  -- So does one whose value is dropped.
  pub drop-err :
      (m : Exec Db A) (s : Db) (e : Error)
      → ((transaction m >>= λ _. pure (tt {0})) s).0 ≡ err e
      → ((transaction m >>= λ _. pure (tt {0})) s).1.tables ≡ s.tables
  unfolding transaction ◌>>=◌
  drop-err m s e h = let (r, t) = m s in drop_finish r s.tables t e h

pub ok_parts :
    {A : Type 0} (a b : A) (s t : Db)
    → ◌≡◌ {A = Result A × Db} (ok a, s) (ok b, t)
    → (b ≡ a) × (t ≡ s)
ok_parts a b s t h = (cc, cc)

pub query-ok :
    {A : Type 0} (f : Tables → Result A) (s : Db) (a : A) (t : Db)
    → query f s ≡ (ok a, t)
    → (f s.tables ≡ ok a) × (t ≡ s)
unfolding query
query-ok f s a t h = (cc, cc)
