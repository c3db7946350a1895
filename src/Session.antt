-- ===== src/Session.antt =====
-- db/db_base.py over the tables of Db: transactions, queries by model, and what the database checks.
pub mod Moves
pub mod Results
use apmec.Prelude.{
  ℕ, ◌+◌, ◌≡◌, String, Bool, true, false, Option, none, some, List, [], ◌∷◌, ◌&&◌, ◌||◌, ◌==◌,
  nat_eq, any, if◌then◌else◌,
}
use apmec.Errors.{Result, ok, err, no_result_found, multiple_results_found}
use apmec.Errors.{admin_required, type_error, attribute_error}
use apmec.Exec.{Exec}
use apmec.Table.{select}
use apmec.Db.{Tables, Db, Env, Context, datetime_min}

-- A read that may raise.
unfoldable pub query : {A : Type 0} → (Tables → Result A) → Exec Db A
query f s = (f s.tables, s)

unfoldable pub write : (Tables → Tables) → Exec Db (Unit {0})
write f s = (ok tt, record s { tables = f s.tables })

-- On a raise the tables go back to what they were; UUIDs and times that were used stay used.
abbrev pub finish : {A : Type 0} → Result A → Tables → Db → Db
finish (ok a) t s = s
finish (err e) t s = record s { tables = t }

-- with context.session.begin(subtransactions=True)
unfoldable pub transaction : {A : Type 0} → Exec Db A → Exec Db A
transaction m s = let (r, s') = m s in (r, finish r s.tables s')

unfoldable pub generate_uuid : Env → Exec Db String
generate_uuid env s = (ok (env.generate_uuid s.uuids), record s { uuids = s.uuids + 1 })

unfoldable pub utcnow : Env → Exec Db ℕ
utcnow env s = (ok (env.utcnow s.ticks), record s { ticks = s.ticks + 1 })

-- A unique key that two rows of a table share, by the test of two rows.
abbrev pub has_clash : {R : Type 0} → (R → R → Bool) → List R → Bool
has_clash clashes [] = false
has_clash clashes (r ∷ rows) = any (clashes r) rows || has_clash clashes rows

-- Every time that the clock shows is later than `datetime.min`.
abbrev pub IsLater : Env → Type 0
IsLater env = (n : ℕ) → nat_eq (env.utcnow n) datetime_min ≡ false

-- What Python does with a value that may be None where it reads an attribute of it.
abbrev pub not_none : {A : Type 0} → Option A → Result A
not_none none = err attribute_error
not_none (some a) = ok a

-- And where it reads a key of it.
abbrev pub not_none_dict : {A : Type 0} → Option A → Result A
not_none_dict none = err type_error
not_none_dict (some a) = ok a

-- query.one()
abbrev pub the_one : {R : Type 0} → List R → Result R
the_one [] = err no_result_found
the_one (r ∷ []) = ok r
the_one (r ∷ _) = err multiple_results_found

-- The columns of a model that `_model_query` looks for with `hasattr`.
pub record Columns (R : Type 0) : Type 0 where
  pub id : R → String
  pub name : R → String
  pub tenant_id : Option (R → String)
  pub shared : Option (R → Bool)
  pub deleted_at : Option (R → Option ℕ)

abbrev pub is_min : Option ℕ → Bool
is_min none = false
is_min (some t) = nat_eq t datetime_min

module _ {R : Type 0} (c : Columns R) where
  abbrev own_or_shared : Context → R → (R → String) → Bool
  own_or_shared context r tenant_id = elim c.shared [
    | none ↦ tenant_id r == context.tenant_id
    | some shared ↦ tenant_id r == context.tenant_id || shared r
  ]

  abbrev in_scope : Context → R → Bool
  in_scope context r =
      if context.is_admin
      then true
      else (elim c.tenant_id [ none ↦ true | some tenant_id ↦ own_or_shared context r tenant_id ])

  -- `_model_query`: the rows that a query of the model sees
  abbrev pub model_query : Context → R → Bool
  model_query context r =
      in_scope context r && (elim c.deleted_at [ none ↦ true | some at ↦ is_min (at r) ])

  abbrev pub by_id : Context → String → R → Bool
  by_id context id r = model_query context r && c.id r == id

  abbrev pub by_name : Context → String → R → Bool
  by_name context name r = model_query context r && c.name r == name

  -- `_get_by_id`
  abbrev pub get_by_id : Context → String → List R → Result R
  get_by_id context id rows = the_one (select (by_id context id) rows)

  abbrev none_if_missing : Result R → Result (Option R)
  none_if_missing (ok r) = ok (some r)
  none_if_missing (err no_result_found) = ok none
  none_if_missing (err e) = err e

  -- `_get_by_name`, which logs a missing row and returns None
  abbrev pub get_by_name : Context → String → List R → Result (Option R)
  get_by_name context name rows = none_if_missing (the_one (select (by_name context name) rows))

-- `_get_tenant_id_for_create`, of a resource whose dict may lack the key
abbrev pub get_tenant_id_for_create : Context → Option String → Result String
get_tenant_id_for_create context none = ok context.tenant_id
get_tenant_id_for_create context (some t) =
    if context.is_admin
    then ok t
    else if t == context.tenant_id
    then ok context.tenant_id
    else err admin_required
