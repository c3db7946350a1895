-- ===== src/Api/Controller.antt =====
-- api/v1/base.py: the handlers of a controller of one resource without a parent and without sorting. The
-- plugin is an interface.
pub mod Index
pub mod Write
pub mod Shown
pub mod Unstripped
pub mod Undone
pub mod Allowed
pub mod Deleted
pub mod Walked
use apmec.Prelude.{
  if◌then◌else◌, String, Bool, true, false, Option, none, some, List, [], ◌∷◌, ◌++◌, ◌<>◌, ◌||◌,
  ◌==◌, any, is_none,
}
use apmec.Db.{Context}
use apmec.Dict.{Dict, lookup, update as update_dict}
use apmec.Errors.{
  Error, Result, ok, err, bad_request, key_error, index_error, policy_not_authorized,
  http_not_found,
}
use apmec.Exec.{◌>>=◌, ◌>>◌, Exec, pure}
use apmec.Value.{Value, text, object, Fields, object_end, entry}
use apmec.Request.{Slot, given, not_specified}
use apmec.Api.Paging.{Query, list_args}
use apmec.Api.Policy.{Info, Target, Enforcer, check, enforce}
use apmec.Api.Body.{Body, null_body, Made, one, bulk}
use apmec.Api.Served.{Served, notify, on_plugin, attempt}

-- The methods of a plugin for one resource; an object is a dict with a text under `id`.
pub record Plugin (S : Type 0) : Type 0 where
  pub list : Context → Dict (List Value) → List String → Exec S (List (Dict Slot))
  pub show : Context → String → List String → Exec S (Dict Slot)
  pub create : Context → Dict Slot → Exec S (Dict Slot)
  pub create_bulk : Context → List (Dict Slot) → Exec S (List (Dict Slot))
  pub update : Context → String → Dict Slot → Exec S (Dict Slot)
  pub delete : Context → String → Exec S (Unit {0})
  pub act : String → Context → String → Option (Dict Slot) → Exec S (Dict Slot)

-- What `create_resource` gives to a controller.
pub record Controller : Type 0 where
  pub resource : String
  pub collection : String
  pub attr_info : Dict Info
  pub allow_bulk : Bool
  pub native_bulk : Bool
  pub member_actions : List String
  pub primary_key : String
  pub allow_pagination : Bool

abbrev pub is_among : String → List String → Bool
is_among name names = any (λ n. n == name) names

abbrev pub names_of : Dict Slot → List String
names_of [] = []
names_of ((name, v) ∷ d) = name ∷ names_of d

-- The names of the attributes with a property.
abbrev attrs_with : (Info → Bool) → Dict Info → List String
attrs_with p [] = []
attrs_with p ((name, info) ∷ infos) =
    let rest = attrs_with p infos in if p info then name ∷ rest else rest

-- self._policy_attrs
abbrev policy_attrs : Controller → List String
policy_attrs c = attrs_with (λ info. info.required_by_policy) c.attr_info

-- The fields that `update` reads of the object for its check.
abbrev pub update_fields : Controller → List String
update_fields c =
    attrs_with (λ info. info.required_by_policy || (info.primary_key || is_none info.attr.default))
      c.attr_info

abbrev lacking : List String → List String → List String
lacking fields [] = []
lacking fields (name ∷ names) =
    let rest = lacking fields names in if is_among name fields then rest else name ∷ rest

-- `_do_field_list`: the fields to ask for, and those of them to strip again
abbrev pub do_field_list : Controller → List String → List String × List String
do_field_list c [] = ([], [])
do_field_list c (f ∷ fs) = ((f ∷ fs) ++ policy_attrs c, lacking (f ∷ fs) (policy_attrs c))

unfoldable pub filter_attributes : Dict Slot → List String → Dict Slot
filter_attributes [] strip = []
filter_attributes ((name, v) ∷ d) strip =
    let rest = filter_attributes d strip in if is_among name strip then rest else (name, v) ∷ rest

abbrev pub filter_each : List (Dict Slot) → List String → List (Dict Slot)
filter_each [] strip = []
filter_each (d ∷ ds) strip = filter_attributes d strip ∷ filter_each ds strip

abbrev pub of_object : Dict Slot → Target
of_object d = record { fields = d; to_update = none }

abbrev given_fields : Dict Slot → Fields
given_fields [] = object_end
given_fields ((name, given v) ∷ d) = entry name v (given_fields d)
given_fields ((name, not_specified) ∷ d) = given_fields d

-- {resource: res_dict}, without the values that are ATTR_NOT_SPECIFIED
abbrev pub wrapped : String → Dict Slot → Dict Slot
wrapped resource d = (resource, given (object (given_fields d))) ∷ []

abbrev pub id_of : Dict Slot → Result String
id_of d = elim (lookup "id" d) [ some (given (text id)) ↦ ok id | _ ↦ err key_error ]

abbrev pub head_of : List (Dict Slot) → Result (Dict Slot)
head_of [] = err index_error
head_of (d ∷ ds) = ok d

abbrev pub only_one : Made → Result (Dict Slot)
only_one (one d) = ok d
only_one (bulk ds) = err key_error

abbrev pub items_made : Made → List (Dict Slot)
items_made (one d) = d ∷ []
items_made (bulk ds) = ds

-- orig_obj.update(body[self._resource]), with the keys of it under ATTRIBUTES_TO_UPDATE
abbrev pub of_update : Dict Slot → Dict Slot → Target
of_update obj d = record { fields = update_dict obj d; to_update = some (names_of d) }

-- body.copy(), which None lacks
abbrev pub copied : Body → Result (Unit {0})
copied null_body = err (bad_request "body")
copied _ = ok tt

-- To avoid giving away information, pretend that it doesn't exist
abbrev told : Error → Error
told policy_not_authorized = http_not_found
told e = e

module _ {S : Type 0} where
  abbrev pub from : {A : Type 0} → Result A → Exec (Served S) A
  from r s = (r, s)

  abbrev pub not_told : {A : Type 0} → Error → Exec (Served S) A
  not_told e s = (err (told e), s)

abbrev pub excluded : Result Bool → String → Result (List String) → Result (List String)
excluded (err e) name rest = err e
excluded (ok true) name rest = rest
excluded (ok false) name (ok names) = ok (name ∷ names)
excluded (ok false) name (err e) = err e

module _ {S : Type 0} (plugin : Plugin S) where
  -- The objects of a failed creation of several: what the deletions raise is logged; an object without
  -- `id` raises in the handler too.
  unfoldable pub undo : Context → List (Dict Slot) → Exec (Served S) (Unit {0})
  undo context [] = pure tt
  undo context (obj ∷ objs) = do
    id ← from (id_of obj)
    attempt (on_plugin (plugin.delete context id)) pure (λ e. pure tt)
    undo context objs

module _ (enforcer : Enforcer) (res_map : Dict (Dict Info)) (c : Controller) where
  -- Whether an attribute of an object is shown.
  abbrev pub is_shown : Context → Target → String → Option Info → Result Bool
  is_shown context target name none = ok false
  is_shown context target name (some info) =
      if info.is_visible
      then check enforcer res_map context ("get_" <> (c.resource <> (":" <> name))) target true
      else ok false

  unfoldable pub exclude_names : Context → Target → List String → Result (List String)
  exclude_names context target [] = ok []
  exclude_names context target (name ∷ names) =
      excluded (is_shown context target name (lookup name c.attr_info)) name
        (exclude_names context target names)

  unfoldable pub exclude_attributes_by_policy : Context → Dict Slot → Result (List String)
  exclude_attributes_by_policy context d = exclude_names context (of_object d) (names_of d)

  abbrev viewed : Dict Slot → List String → Result (List String) → Result (Dict Slot)
  viewed d strip (ok hidden) = ok (filter_attributes d (strip ++ hidden))
  viewed d strip (err e) = err e

  unfoldable pub view : Context → Dict Slot → List String → Result (Dict Slot)
  view context d strip = viewed d strip (exclude_attributes_by_policy context d)

module _ {S : Type 0} (enforcer : Enforcer) (res_map : Dict (Dict Info)) (plugin : Plugin S)
    (c : Controller) where
  abbrev pub enforced : Context → String → Target → Exec (Served S) (Unit {0})
  enforced context action target = from (enforce enforcer res_map context action target)

  -- `_item` with do_authz
  unfoldable pub authorized_item : Context → String → List String → Exec (Served S) (Dict Slot)
  authorized_item context id fields = do
    obj ← on_plugin (plugin.show context id fields)
    enforced context ("get_" <> c.resource) (of_object obj)
    pure obj

  unfoldable pub show : Context → Query → String → Exec (Served S) (Dict Slot)
  show context query id =
      let (fields, added) = do_field_list c (list_args query "fields") in
      attempt
        (do
          obj ← authorized_item context id fields
          from (view enforcer res_map c context obj added))
        pure not_told

  unfoldable pub create_item : Context → Dict Slot → Exec (Served S) (Dict Slot)
  create_item context item = do
    strip ← from (exclude_attributes_by_policy enforcer res_map c context (wrapped c.resource item))
    obj ← on_plugin (plugin.create context item)
    pure (filter_attributes obj strip)

  -- The loop, with the objects that have been made.
  unfoldable pub create_items :
      Context → List (Dict Slot) → List (Dict Slot) → Exec (Served S) (List (Dict Slot))
  create_items context [] objs = pure objs
  create_items context (item ∷ items) objs =
      attempt (create_item context item) (λ obj. create_items context items (objs ++ (obj ∷ [])))
        (λ e. do undo plugin context objs; from (err e))

  abbrev pub emulate_bulk_create : Context → List (Dict Slot) → Exec (Served S) (List (Dict Slot))
  emulate_bulk_create context items = create_items context items []

  unfoldable pub delete : Context → String → Exec (Served S) (Unit {0})
  delete context id = do
    notify (c.resource <> ".delete.start")
    obj ← on_plugin (plugin.show context id [])
    attempt (enforced context ("delete_" <> c.resource) (of_object obj)) pure not_told
    on_plugin (plugin.delete context id)
    notify (c.resource <> ".delete.end")

  -- `__getattr__`: a member action
  unfoldable handle_action :
      Context → String → String → Option (Dict Slot) → Exec (Served S) (Dict Slot)
  handle_action context name id body = do
    resource ← attempt (authorized_item context id []) pure not_told
    enforced context name (of_object resource)
    on_plugin (plugin.act name context id body)
