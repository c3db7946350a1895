-- ===== src/Table.antt =====
-- A database table as the list of its rows, in the order of their insertion, and the queries of
-- SQLAlchemy that the code makes: a filter is a test on rows.
pub mod Evolves
pub mod Keyed
pub mod Single
use apmec.Prelude.{Bool, List, [], ◌∷◌, Option, none, some, if◌then◌else◌}

module _ {ℓ} {R : Type ℓ} where
  -- query.filter(p)
  unfoldable pub select : (R → Bool) → List R → List R
  select p [] = []
  select p (r ∷ rows) = let rest = select p rows in if p r then r ∷ rest else rest

  -- query.filter(p).update(f)
  unfoldable pub update : (R → Bool) → (R → R) → List R → List R
  update p f [] = []
  update p f (r ∷ rows) = (if p r then f r else r) ∷ update p f rows

  -- query.filter(p).delete()
  unfoldable pub delete : (R → Bool) → List R → List R
  delete p [] = []
  delete p (r ∷ rows) = let rest = delete p rows in if p r then rest else r ∷ rest

  -- query.filter(p).first()
  unfoldable pub first : (R → Bool) → List R → Option R
  first p [] = none
  first p (r ∷ rows) = let rest = first p rows in if p r then some r else rest
