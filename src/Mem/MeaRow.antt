-- ===== src/Mem/MeaRow.antt =====
-- db/mem/mem_db.py: the rows of the table `mea`, their keys, the dict of a MEA and its attributes.
use apmec.Prelude.{
  ℕ, String, Bool, true, false, Option, none, some, List, [], ◌∷◌, ◌++◌, ◌&&◌, ◌||◌, ◌==◌, map, any,
  if◌then◌else◌,
}
use text.Mathlib.Text.{find?}
use apmec.Constants.{Status, active, pending_create, pending_update, error, dead}
use apmec.Errors.{Result, ok, err, type_error, db_duplicate_entry, mea_not_found}
use apmec.Exec.{Exec, pure, ◌>>=◌, ◌>>◌}
use apmec.Table
use apmec.Dict.{Dict, of_pairs}
use apmec.Db.{Tables, Db, Env, Context, Mead, Mea, MeaAttribute}
use apmec.Session.{Columns, model_query, get_by_id, get_by_name, query, write, generate_uuid}
use apmec.Mem.MeadRow.{MeadDict, mead_dict, same_time, or_not_found}

abbrev pub active_update : List Status
active_update = active ∷ pending_update ∷ []

abbrev pub active_update_error_dead : List Status
active_update_error_dead = pending_create ∷ active ∷ pending_update ∷ error ∷ dead ∷ []

abbrev pub create_states : List Status
create_states = pending_create ∷ dead ∷ []

abbrev pub mea_columns : Columns Mea
mea_columns = record {
  id = λ r. r.id;
  name = λ r. r.name;
  tenant_id = some (λ r. r.tenant_id);
  shared = none;
  deleted_at = some (λ r. r.deleted_at);
}

-- The keys of the table: `id`, and `uniq_mea0tenant_id0name0deleted_at`
abbrev pub mea_clashes : Mea → Mea → Bool
mea_clashes a b =
    a.id == b.id
    || a.tenant_id == b.tenant_id && a.name == b.name && same_time a.deleted_at b.deleted_at

abbrev pub has_mea_clash : List Mea → Bool
has_mea_clash [] = false
has_mea_clash (r ∷ rows) = any (mea_clashes r) rows || has_mea_clash rows

abbrev pub with_meas : (List Mea → List Mea) → Tables → Tables
with_meas f t = record t { meas = f t.meas }

abbrev checked_meas : (List Mea → List Mea) → Tables → Result (Unit {0})
checked_meas f t = if has_mea_clash (f t.meas) then err db_duplicate_entry else ok tt

-- A write that the keys of the table refuse or let through.
unfoldable pub flush_meas : (List Mea → List Mea) → Exec Db (Unit {0})
flush_meas f = do query (checked_meas f); write (with_meas f)

-- A write that leaves the columns of the keys as they are.
unfoldable pub update_meas : (Mea → Bool) → (Mea → Mea) → Exec Db (Unit {0})
update_meas p f = write (with_meas (Table.update p f))

-- self._model_query(context, MEA).filter(MEA.id == mea_id).filter(p)
abbrev pub mea_query : Context → String → (Status → Bool) → Mea → Bool
mea_query context mea_id p r = (model_query mea_columns context r && r.id == mea_id) && p r.status

abbrev pub has_id : String → Mea → Bool
has_id id r = r.id == id

abbrev pub set_status : Status → Mea → Mea
set_status status r = record r { status = status }

-- What `_make_mea_dict` returns.
pub record MeaDict : Type 0 where
  pub mead : MeadDict
  pub attributes : Dict String
  pub id : String
  pub tenant_id : String
  pub name : String
  pub description : Option String
  pub instance_id : Option String
  pub vim_id : String
  pub placement_attr : String
  pub mead_id : String
  pub status : Status
  pub mgmt_url : Option String
  pub error_reason : Option String
  pub created_at : ℕ
  pub updated_at : Option ℕ

abbrev attributes_of : String → Tables → Dict String
attributes_of mea_id t = of_pairs (
    map (λ (a : MeaAttribute). (a.key, a.value))
      (Table.select (λ (a : MeaAttribute). a.mea_id == mea_id) t.mea_attributes))

abbrev pub mea_dict : Mea → Tables → Mead → MeaDict
mea_dict r t mead = record {
  mead = mead_dict t mead;
  attributes = attributes_of r.id t;
  id = r.id;
  tenant_id = r.tenant_id;
  name = r.name;
  description = r.description;
  instance_id = r.instance_id;
  vim_id = r.vim_id;
  placement_attr = r.placement_attr;
  mead_id = r.mead_id;
  status = r.status;
  mgmt_url = r.mgmt_url;
  error_reason = r.error_reason;
  created_at = r.created_at;
  updated_at = r.updated_at;
}

abbrev pub dict_or_raise : Mea → Tables → Option Mead → Result MeaDict
dict_or_raise r t none = err type_error
dict_or_raise r t (some mead) = ok (mea_dict r t mead)

abbrev pub dict_of_mea : Mea → Tables → Result MeaDict
dict_of_mea r t = dict_or_raise r t (Table.first (λ (m : Mead). m.id == r.mead_id) t.meads)

-- `_make_mea_dict`: the relationship `mead` also finds a deleted MEAD, and is None for none at all
unfoldable pub make_mea_dict : Mea → Exec Db MeaDict
make_mea_dict r = query (dict_of_mea r)

-- `'vim_auth' in key`
abbrev is_vim_auth : String → Bool
is_vim_auth key = elim (find? key "vim_auth") [ none ↦ false | some _ ↦ true ]

abbrev is_attribute : String → String → MeaAttribute → Bool
is_attribute mea_id key a = a.mea_id == mea_id && a.key == key

module _ (env : Env) where
  update_or_create : String → String → String → Option MeaAttribute → Exec Db (Unit {0})
  update_or_create mea_id key value (some arg) = write (λ t. record t {
    mea_attributes =
        Table.update (λ (a : MeaAttribute). a.id == arg.id) (λ a. record a { value = value })
          t.mea_attributes;
  })
  update_or_create mea_id key value none = do
    id ← generate_uuid env
    write (λ t. record t {
      mea_attributes =
          t.mea_attributes ++ (record { id = id; mea_id = mea_id; key = key; value = value } ∷ []);
    })

  -- `_mea_attribute_update_or_create`
  unfoldable pub mea_attribute_update_or_create : String → String → String → Exec Db (Unit {0})
  unfolding update_or_create
  mea_attribute_update_or_create mea_id key value = do
    arg ← query (λ t. ok (Table.first (is_attribute mea_id key) t.mea_attributes))
    update_or_create mea_id key value arg

  -- The loop over the attributes of a dict, less the decrypted credentials of the VIM.
  unfoldable pub store_attributes : String → Dict String → Exec Db (Unit {0})
  unfolding mea_attribute_update_or_create
  store_attributes mea_id [] = pure tt
  store_attributes mea_id ((key, value) ∷ rest) = do
    if is_vim_auth key then pure tt else mea_attribute_update_or_create mea_id key value
    store_attributes mea_id rest

  -- `_get_resource` with the model MEA
  unfoldable pub get_mea_resource : Context → String → Exec Db (Option Mea)
  get_mea_resource context id =
      if env.is_uuid_like id
      then query (λ t. or_not_found (mea_not_found id) (get_by_id mea_columns context id t.meas))
      else query (λ t. get_by_name mea_columns context id t.meas)
