-- ===== src/Api/Controller/Write.antt =====
-- api/v1/base.py: creation and update.
use apmec.Prelude.{if◌then◌else◌, String, true, false, List, [], ◌∷◌, ◌<>◌}
use apmec.Db.{Context}
use apmec.Dict.{Dict}
use apmec.Exec.{◌>>=◌, ◌>>◌, Exec, pure}
use apmec.Attributes.Scalar.{Net}
use apmec.Request.{Slot}
use apmec.Api.Policy.{Info, Enforcer}
use apmec.Api.Body.{Body, Made, one, bulk, prepare_request_body, result_of}
use apmec.Api.Served.{Served, notify, on_plugin, attempt}
use apmec.Api.Controller.{
  Plugin, Controller, update_fields, filter_each, of_object, head_of, only_one, items_made,
  of_update, copied, from, not_told, exclude_attributes_by_policy, view, enforced,
  emulate_bulk_create,
}

module _ {S : Type 0} (enforcer : Enforcer) (res_map : Dict (Dict Info)) (plugin : Plugin S)
    (c : Controller) where
  -- for item in items: policy.enforce(request.context, action, item[self._resource])
  unfoldable pub enforce_each : Context → List (Dict Slot) → Exec (Served S) (Unit {0})
  enforce_each context [] = pure tt
  enforce_each context (item ∷ items) = do
    enforced enforcer res_map plugin c context ("create_" <> c.resource) (of_object item)
    enforce_each context items

  unfoldable pub create_made : Context → Made → Exec (Served S) Made
  create_made context (one d) = do
    obj ← on_plugin (plugin.create context d)
    shown ← from (view enforcer res_map c context obj [])
    pure (one shown)
  create_made context (bulk items) =
      if c.native_bulk
      then (do
        objs ← on_plugin (plugin.create_bulk context items)
        first ← from (head_of objs)
        strip ← from (exclude_attributes_by_policy enforcer res_map c context first)
        pure (bulk (filter_each objs strip)))
      else (do objs ← emulate_bulk_create enforcer res_map plugin c context items; pure (bulk objs))

module _ {S : Type 0} (net : Net) (enforcer : Enforcer) (res_map : Dict (Dict Info))
    (plugin : Plugin S) (c : Controller) where
  unfoldable pub create : Context → Body → Exec (Served S) Made
  create context body = do
    notify (c.resource <> ".create.start")
    made ←
        from (
          result_of
            (prepare_request_body net context true c.resource c.attr_info c.allow_bulk body))
    enforce_each enforcer res_map plugin c context (items_made made)
    result ← create_made enforcer res_map plugin c context made
    notify (c.resource <> ".create.end")
    pure result

  unfoldable pub update : Context → String → Body → Exec (Served S) (Dict Slot)
  update context id body = do
    from (copied body)
    notify (c.resource <> ".update.start")
    made ← from (
        result_of (prepare_request_body net context false c.resource c.attr_info c.allow_bulk body))
    obj ← on_plugin (plugin.show context id (update_fields c))
    d ← from (only_one made)
    attempt (enforced enforcer res_map plugin c context ("update_" <> c.resource) (of_update obj d))
        pure not_told
    changed ← on_plugin (plugin.update context id d)
    shown ← from (view enforcer res_map c context changed [])
    notify (c.resource <> ".update.end")
    pure shown
