-- ===== src/Mem/MeadRow.antt =====
-- db/mem/mem_db.py: the rows of the table `mead`, their keys, and the dict of a MEAD.
use apmec.Prelude.{
  ℕ, String, Bool, true, Option, none, some, List, [], ◌∷◌, ◌&&◌, ◌||◌, ◌==◌, map, nat_eq, any,
  if◌then◌else◌,
}
use apmec.Errors.{Error, Result, ok, err, no_result_found, db_duplicate_entry, duplicate_entity}
use apmec.Exec.{Exec, raise, ◌>>◌}
use apmec.Table
use apmec.Dict.{Dict, of_pairs}
use apmec.Db.{Tables, Db, Mead, ServiceType, MeadAttribute}
use apmec.Session.{Columns, query, write}

-- What `_make_mead_dict` returns.
pub record MeadDict : Type 0 where
  pub id : String
  pub tenant_id : String
  pub name : String
  pub description : Option String
  pub mgmt_driver : Option String
  pub template_source : String
  pub created_at : ℕ
  pub updated_at : Option ℕ
  pub attributes : Dict String
  pub service_types : List String

-- An attribute of a request: absent, null, or given.
pub data Attribute {ℓ} (A : Type ℓ) : Type ℓ where
  not_specified null : Attribute A
  given : A → Attribute A

-- The body of a POST; `template_source` is left to the database where it is absent or null.
pub record MeadRequest : Type 0 where
  pub tenant_id : Option String
  pub name : String
  pub description : Option String
  pub mgmt_driver : Option String
  pub template_source : Option String
  pub attributes : Dict String
  pub service_types : Attribute (List String)

-- The body of a PUT: the API lets the name and the description through.
pub record MeadChanges : Type 0 where
  pub name : Option String
  pub description : Option String

abbrev pub mead_columns : Columns Mead
mead_columns = record {
  id = λ r. r.id;
  name = λ r. r.name;
  tenant_id = some (λ r. r.tenant_id);
  shared = none;
  deleted_at = some (λ r. r.deleted_at);
}

-- Two NULLs of a unique key do not clash.
abbrev pub same_time : Option ℕ → Option ℕ → Bool
same_time (some a) (some b) = nat_eq a b
same_time _ _ = Bool.false

abbrev mead_clashes : Mead → Mead → Bool
mead_clashes a b =
    a.id == b.id
    || a.tenant_id == b.tenant_id && a.name == b.name && same_time a.deleted_at b.deleted_at

-- The keys of the table: `id`, and `uniq_mead0tenant_id0name0deleted_at`
abbrev has_mead_clash : List Mead → Bool
has_mead_clash [] = Bool.false
has_mead_clash (r ∷ rows) = any (mead_clashes r) rows || has_mead_clash rows

abbrev with_meads : (List Mead → List Mead) → Tables → Tables
with_meads f t = record t { meads = f t.meads }

abbrev checked_meads : (List Mead → List Mead) → Tables → Result (Unit {0})
checked_meads f t = if has_mead_clash (f t.meads) then err db_duplicate_entry else ok tt

-- A write that the keys of the table refuse or let through.
unfoldable pub flush_meads : (List Mead → List Mead) → Exec Db (Unit {0})
flush_meads f = do query (checked_meads f); write (with_meads f)

-- try: … except NoResultFound: raise e
abbrev pub or_not_found : {A : Type 0} → Error → Result A → Result (Option A)
or_not_found e (ok a) = ok (some a)
or_not_found e (err no_result_found) = err e
or_not_found e (err e') = err e'

-- `is_attr_set` of api/v1/attributes.py
abbrev pub is_attr_set {ℓ} : {A : Type ℓ} → Attribute A → Bool
is_attr_set (given a) = true
is_attr_set _ = Bool.false

abbrev pub given_list : Attribute (List String) → List String
given_list (given l) = l
given_list _ = []

abbrev pub or_default : String → Option String → String
or_default d none = d
or_default d (some s) = s

-- `_make_mead_dict`, of the row and the rows of its two relationships
abbrev pub mead_dict : Tables → Mead → MeadDict
mead_dict t r = record {
  id = r.id;
  tenant_id = r.tenant_id;
  name = r.name;
  description = r.description;
  mgmt_driver = r.mgmt_driver;
  template_source = r.template_source;
  created_at = r.created_at;
  updated_at = r.updated_at;
  attributes = of_pairs (
      map (λ (a : MeadAttribute). (a.key, a.value))
        (Table.select (λ (a : MeadAttribute). a.mead_id == r.id) t.mead_attributes));
  service_types =
      map (λ (s : ServiceType). s.service_type)
        (Table.select (λ (s : ServiceType). s.mead_id == r.id) t.service_types);
}

unfoldable pub make_mead_dict : Mead → Exec Db MeadDict
make_mead_dict r = query (λ t. ok (mead_dict t r))

-- except DBDuplicateEntry: raise DuplicateEntity
abbrev pub as_duplicate : {A : Type 0} → String → Error → Exec Db A
as_duplicate type db_duplicate_entry = raise (duplicate_entity type)
as_duplicate type e = raise e
