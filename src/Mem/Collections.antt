-- ===== src/Mem/Collections.antt =====
-- db/mem/mem_db.py and db/db_base.py: the collections of MEADs and MEAs, without sorting and limits,
-- which their two callers never give, and the choice of a MEAD by what it offers.
pub mod Own
use apmec.Prelude.{
  String, Bool, true, false, Option, none, some, List, [], ◌∷◌, ◌&&◌, ◌==◌, any, if◌then◌else◌,
}
use apmec.Constants.{status_name}
use apmec.Errors.{Result, ok, err, index_error}
use apmec.Exec.{Exec, lift, ◌>>=◌}
use apmec.Table
use apmec.Dict.{Dict, lookup, erase}
use apmec.Db.{Tables, Db, Context, Mead, ServiceType, MeadAttribute, Mea}
use apmec.Session.{Columns, model_query, query, transaction}
use apmec.Mem.MeadRow.{MeadDict, mead_columns, mead_dict}
use apmec.Mem.MeaRow.{MeaDict, mea_columns, dict_of_mea}

-- The columns of text of a model by their names, with a value that may be NULL.
abbrev TextColumns : Type 0 → Type 0
TextColumns R = String → Option (R → Option String)

-- column.in_(values), which is not true of NULL
abbrev value_in : Option String → List String → Bool
value_in none values = false
value_in (some v) values = any (λ w. w == v) values

module _ {R : Type 0} where
  -- `_apply_filters_to_query`: a key that is no column filters nothing
  abbrev pub fits_filters : TextColumns R → Dict (List String) → R → Bool
  fits_filters columns [] r = true
  fits_filters columns ((key, values) ∷ rest) r =
      (elim (columns key) [ none ↦ true | some column ↦ value_in (column r) values ])
      && fits_filters columns rest r

module _ {D : Type 0} where
  abbrev pub joined : Result D → Result (List D) → Result (List D)
  joined (err e) rest = err e
  joined (ok d) (err e) = err e
  joined (ok d) (ok ds) = ok (d ∷ ds)

module _ {R D : Type 0} where
  -- [dict_func(c) for c in query]
  abbrev pub dicts_of : (R → Tables → Result D) → Tables → List R → Result (List D)
  dicts_of dict_func t [] = ok []
  dicts_of dict_func t (r ∷ rows) = joined (dict_func r t) (dicts_of dict_func t rows)

  -- `_get_collection`
  unfoldable pub get_collection :
      Columns R
      → TextColumns R
      → (R → Tables → Result D)
      → (Tables → List R)
      → Context
      → Dict (List String)
      → Exec Db (List D)
  get_collection model columns dict_func rows_of context filters = query (λ t.
      dicts_of dict_func t (
        Table.select (λ r. model_query model context r && fits_filters columns filters r)
          (rows_of t)))

abbrev mead_text_columns : TextColumns Mead
mead_text_columns key =
    if key == "id"
    then some (λ r. some r.id)
    else if key == "tenant_id"
    then some (λ r. some r.tenant_id)
    else if key == "name"
    then some (λ r. some r.name)
    else if key == "description"
    then some (λ r. r.description)
    else if key == "mgmt_driver"
    then some (λ r. r.mgmt_driver)
    else if key == "template_source"
    then some (λ r. some r.template_source)
    else none

abbrev pub mea_text_columns : TextColumns Mea
mea_text_columns key =
    if key == "id"
    then some (λ r. some r.id)
    else if key == "tenant_id"
    then some (λ r. some r.tenant_id)
    else if key == "name"
    then some (λ r. some r.name)
    else if key == "description"
    then some (λ r. r.description)
    else if key == "instance_id"
    then some (λ r. r.instance_id)
    else if key == "mgmt_url"
    then some (λ r. r.mgmt_url)
    else if key == "mead_id"
    then some (λ r. some r.mead_id)
    else if key == "vim_id"
    then some (λ r. some r.vim_id)
    else if key == "status"
    then some (λ r. some (status_name r.status))
    else if key == "error_reason"
    then some (λ r. r.error_reason)
    else none

-- A filter on `template_source` whose first value is 'all' goes.
abbrev without_all : Dict (List String) → Option (List String) → Result (Dict (List String))
without_all filters none = ok filters
without_all filters (some []) = err index_error
without_all filters (some (source ∷ _)) =
    ok (if source == "all" then erase "template_source" filters else filters)

unfoldable get_meads : Context → Dict (List String) → Exec Db (List MeadDict)
get_meads context filters = do
  wanted ← lift (without_all filters (lookup "template_source" filters))
  get_collection mead_columns mead_text_columns (λ r t. ok (mead_dict t r)) (λ t. t.meads) context
      wanted

unfoldable pub get_meas : Context → Dict (List String) → Exec Db (List MeaDict)
unfolding get_collection
get_meas context filters =
    get_collection mea_columns mea_text_columns dict_of_mea (λ t. t.meas) context filters

abbrev offers : Tables → String → Mead → Bool
offers t service_type r =
    any (λ (s : ServiceType). s.mead_id == r.id && s.service_type == service_type) t.service_types

abbrev has_attributes : Tables → List String → Mead → Bool
has_attributes t [] r = true
has_attributes t (key ∷ rest) r =
    any (λ (a : MeadAttribute). a.mead_id == r.id && a.key == key) t.mead_attributes
    && has_attributes t rest r

abbrev chosen : String → List String → Tables → Option MeadDict
chosen service_type required_attributes t =
    elim (Table.first (λ r. offers t service_type r && has_attributes t required_attributes r)
      t.meads) [ none ↦ none | some r ↦ some (mead_dict t r) ]

-- `choose_mead`, of the MEADs of all tenants and also the deleted ones
unfoldable choose_mead : String → List String → Exec Db (Option MeadDict)
choose_mead service_type required_attributes =
    transaction (query (λ t. ok (chosen service_type required_attributes t)))
