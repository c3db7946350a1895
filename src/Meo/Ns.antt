-- ===== src/Meo/Ns.antt =====
-- db/meo/ns_db.py: the operations on NSs.
pub mod Lock
use apmec.Prelude.{
  ℕ, String, Bool, true, false, Option, none, some, List, [], ◌∷◌, ◌++◌, ◌==◌, ◌<>◌, if◌then◌else◌,
}
use apmec.Constants.{
  Status, active, pending_create, pending_delete, error, in_statuses, status_eq, in_status,
  na_state, res_ns, evt_create, evt_update, evt_delete,
}
use apmec.Errors.{Result, ok, err, key_error, ns_not_found}
use apmec.Exec.{Exec, pure, lift, ◌>>=◌, ◌>>◌, rescue}
use apmec.Table
use apmec.Dict.{Dict, lookup, insert}
use apmec.Db.{Tables, Db, Env, Context, Ns, datetime_min}
use apmec.Session.{
  get_tenant_id_for_create, transaction, query, write, generate_uuid, utcnow, the_one,
}
use apmec.Events.{create_event}
use apmec.Mem.MeadRow.{as_duplicate}
use apmec.Mem.MeaRow.{active_update_error_dead}
use apmec.Meo.NsRow.{
  NsDict, flush_nss, update_nss, with_nss, make_ns_dict, get_ns_resource, get_nsd_resource,
  or_missing, ns_query, set_status,
}
use apmec.Meo.Nsd.{delete_nsd}

-- The body of a POST.
pub record NsRequest : Type 0 where
  pub tenant_id : Option String
  pub name : String
  pub nsd_id : String
  pub vim_id : String

-- A finished execution of a workflow: its state, and its output as the dict that the text denotes.
pub record MistralObj : Type 0 where
  pub state : String
  pub output : Dict String

abbrev pub has_id : String → Ns → Bool
has_id id r = r.id == id

abbrev ns_row : NsRequest → String → String → Option String → ℕ → Ns
ns_row ns ns_id tenant_id description created_at = record {
  id = ns_id;
  tenant_id = tenant_id;
  name = ns.name;
  description = description;
  nsd_id = ns.nsd_id;
  vim_id = ns.vim_id;
  mea_ids = none;
  mgmt_urls = none;
  status = pending_create;
  error_reason = none;
  created_at = created_at;
  updated_at = none;
  deleted_at = some datetime_min;
}

-- mgmt_urls and mea_ids
abbrev pub Outputs : Type 0
Outputs = Dict String × Dict String

-- The loop over the instances of a MEAD; `literal_eval` reads the value of an output.
abbrev add_output :
    (String → Result String) → Dict String → String → Outputs → String → Result Outputs
add_output literal_eval output instance_ (mgmt_urls, mea_ids) mgmt_url =
    elim (literal_eval mgmt_url) [
      | err e ↦ err e
      | ok url ↦ elim (lookup ("mea_id_" <> instance_) output) [
        | none ↦ err key_error
        | some mea_id ↦ ok (insert instance_ url mgmt_urls, insert instance_ mea_id mea_ids)
      ]
    ]

unfoldable pub outputs_of :
    (String → Result String) → Dict String → List String → Outputs → Result Outputs
outputs_of literal_eval output [] found = ok found
outputs_of literal_eval output (instance_ ∷ rest) found =
    elim (lookup ("mgmt_url_" <> instance_) output) [
      | none ↦ outputs_of literal_eval output rest found
      | some mgmt_url ↦ elim (add_output literal_eval output instance_ found mgmt_url) [
        | err e ↦ err e
        | ok more ↦ outputs_of literal_eval output rest more
      ]
    ]

abbrev if_any : Dict String → Outputs → Option (Dict String) × Option (Dict String)
if_any [] found = (none, none)
if_any (_ ∷ _) (mgmt_urls, mea_ids) = (some mgmt_urls, some mea_ids)

-- The status that a finished workflow gives.
abbrev pub status_of : MistralObj → Status
status_of mistral_obj = if mistral_obj.state == "SUCCESS" then active else error

module _ (env : Env) where
  unfoldable pub insert_ns : Context → String → String → NsRequest → Exec Db Ns
  insert_ns context tenant_id ns_id ns = do
    nsd ← query (get_nsd_resource context ns.nsd_id)
    created_at ← utcnow env
    flush_nss (λ rows. rows ++ (ns_row ns ns_id tenant_id nsd.description created_at ∷ []))
    pure (ns_row ns ns_id tenant_id nsd.description created_at)

  unfoldable pub create_ns : Context → NsRequest → Exec Db NsDict
  create_ns context ns = do
    tenant_id ← lift (get_tenant_id_for_create context ns.tenant_id)
    ns_id ← generate_uuid env
    row ← rescue (transaction (insert_ns context tenant_id ns_id ns)) (as_duplicate "ns")
    create_event env ns_id res_ns (in_status pending_create) evt_create row.created_at
        "NS UUID assigned."
    pure (make_ns_dict row)

  -- The columns that the end of the creation sets.
  abbrev finished : Outputs → Dict String → MistralObj → Option String → ℕ → Ns → Ns
  finished found output mistral_obj error_reason now r = record r {
    mea_ids = (if_any output found).1;
    mgmt_urls = (if_any output found).0;
    status = status_of mistral_obj;
    error_reason = error_reason;
    updated_at = some now;
  }

  -- `instances` are those of all MEADs, one MEAD after the other.
  unfoldable pub create_ns_post :
      (String → Result String)
      → Context
      → String
      → MistralObj
      → List String
      → Option String
      → Exec Db NsDict
  create_ns_post literal_eval context ns_id mistral_obj instances error_reason = do
    found ← lift (outputs_of literal_eval mistral_obj.output instances ([], []))
    transaction do
      row ← query (get_ns_resource context ns_id)
      now ← utcnow env
      update_nss (has_id row.id) (finished found mistral_obj.output mistral_obj error_reason now)
      create_event env row.id res_ns na_state evt_update now ""
      pure (make_ns_dict (finished found mistral_obj.output mistral_obj error_reason now row))

  -- `_get_ns_db`
  unfoldable pub get_ns_db : Context → String → List Status → Status → Exec Db Ns
  get_ns_db context ns_id current_statuses new_status = do
    row ← query (λ t.
        or_missing (ns_not_found ns_id)
          (the_one (Table.select (ns_query context ns_id (in_statuses current_statuses)) t.nss)))
    update_nss (has_id row.id) (set_status new_status)
    pure (set_status new_status row)

  unfoldable pub delete_ns : Context → String → Exec Db NsDict
  delete_ns context ns_id = do
    row ← transaction (get_ns_db context ns_id active_update_error_dead pending_delete)
    now ← utcnow env
    create_event env ns_id res_ns (in_status row.status) evt_delete now "NS delete initiated"
    pure (make_ns_dict row)

  unfoldable pub mark_delete_error : Context → String → Exec Db (Unit {0})
  mark_delete_error context ns_id = do
    update_nss (ns_query context ns_id (status_eq pending_delete)) (set_status error)
    now ← utcnow env
    create_event env ns_id res_ns (in_status error) evt_delete now "NS Delete ERROR"
    pure tt

  unfoldable pub soft_delete_ns : Context → String → Exec Db (Unit {0})
  soft_delete_ns context ns_id = do
    now ← utcnow env
    flush_nss (
        Table.update (ns_query context ns_id (status_eq pending_delete))
          (λ r. record r { deleted_at = some now }))
    create_event env ns_id res_ns (in_status pending_delete) evt_delete now "ns Delete Complete"
    pure tt

  unfoldable pub finish_delete : Context → String → Bool → Bool → Exec Db (Unit {0})
  finish_delete context ns_id failed soft_delete =
      if failed
      then mark_delete_error context ns_id
      else if soft_delete
      then soft_delete_ns context ns_id
      else write (with_nss (Table.delete (ns_query context ns_id (status_eq pending_delete))))

  -- `failed`: there is an execution and it is in ERROR; the NSD of an inline template goes with the NS
  unfoldable pub delete_ns_post : Context → String → Bool → Bool → Exec Db (Unit {0})
  delete_ns_post context ns_id failed soft_delete = do
    ns ← query (get_ns_resource context ns_id)
    transaction do
      finish_delete context ns_id failed soft_delete
      template_db ← query (get_nsd_resource context ns.nsd_id)
      if template_db.template_source == "inline"
          then delete_nsd env context ns.nsd_id true
          else pure tt

unfoldable pub get_ns : Context → String → Exec Db NsDict
get_ns context ns_id = do row ← query (get_ns_resource context ns_id); pure (make_ns_dict row)
