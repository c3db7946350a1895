-- ===== src/Api/Body.antt =====
-- api/v1/base.py: the preparation of a whole body, of one resource or of several.
use apmec.Prelude.{String, Bool, List, [], ◌∷◌, if◌then◌else◌}
use apmec.Db.{Context}
use apmec.Dict.{Dict}
use apmec.Errors.{Result, ok, err, http_bad_request}
use apmec.Attributes.Scalar.{Net}
use apmec.Request.{
  Slot, Attr, raised, Prepared, done, failed, next, body_required, bulk_not_supported,
  resources_required, resource_missing, prepare_resource,
}
use apmec.Api.Policy.{Info}

-- A body that is no dict but None, or the dicts that a client sends: an empty one, one with neither
-- key, one with a dict under the resource's key, and one with a list of dicts under the
-- collection's. Each dict of the list may stand under the resource's key again; here it is the dict
-- of the resource.
pub data Body : Type 0 where
  null_body empty_body other_body : Body
  resource_body : Dict Slot → Body
  bulk_body : List (Dict Slot) → Body

-- What the preparation returns.
pub data Made : Type 0 where
  one : Dict Slot → Made
  bulk : List (Dict Slot) → Made

abbrev attrs_of : Dict Info → Dict Attr
attrs_of [] = []
attrs_of ((name, info) ∷ infos) = (name, info.attr) ∷ attrs_of infos

abbrev not_empty : List (Dict Slot) → Prepared Made
not_empty [] = failed resources_required
not_empty (item ∷ items) = done (bulk (item ∷ items))

module _ (net : Net) (context : Context) (is_create : Bool) (resource : String)
    (infos : Dict Info) where
  abbrev prepare_one : Dict Slot → Prepared (Dict Slot)
  prepare_one = prepare_resource net context is_create resource (attrs_of infos)

  abbrev prepare_each : List (Dict Slot) → Prepared (List (Dict Slot))
  prepare_each [] = done []
  prepare_each (item ∷ items) =
      next (prepare_one item) λ d. next (prepare_each items) λ ds. done (d ∷ ds)

  unfoldable pub prepare_request_body : Bool → Body → Prepared Made
  prepare_request_body allow_bulk null_body = failed body_required
  prepare_request_body allow_bulk empty_body = failed body_required
  prepare_request_body allow_bulk other_body = failed resource_missing
  prepare_request_body allow_bulk (resource_body d) = next (prepare_one d) λ d. done (one d)
  prepare_request_body allow_bulk (bulk_body items) =
      if allow_bulk then next (prepare_each items) not_empty else failed bulk_not_supported

-- webob's exceptions by their kind: the message stays with the preparation
abbrev pub result_of : {A : Type 0} → Prepared A → Result A
result_of (done a) = ok a
result_of (failed (raised e)) = err e
result_of (failed _) = err http_bad_request
