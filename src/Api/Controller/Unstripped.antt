-- ===== src/Api/Controller/Unstripped.antt =====
-- api/v1/base.py: which attributes an emulated creation of several objects strips.
use mathlib.Core.Path.{fun_ext}
use apmec.Prelude.{◌≡◌, refl, ap, none, List, [], ◌∷◌, ◌++◌}
use apmec.Db.{Context}
use apmec.Dict.{Dict, lookup}
use apmec.Errors.{ok, err}
use apmec.Exec.{Exec, pure, ◌>>=◌, ◌>>◌}
use apmec.Request.{Slot}
use apmec.Api.Policy.{Info, Enforcer}
use apmec.Api.Served.{Served, on_plugin, attempt}
use apmec.Api.Controller.{
  Plugin, Controller, wrapped, filter_attributes, from, exclude_names, exclude_attributes_by_policy,
  undo, create_item, create_items,
}

module _ {S : Type 0} (plugin : Plugin S) (c : Controller)
    (outer : lookup c.resource c.attr_info ≡ none) where
  -- The key of the body around the object is the one name that is looked at.
  excluded-wrapped :
      (enforcer : Enforcer) (res_map : Dict (Dict Info)) (context : Context) (item : Dict Slot)
      → exclude_attributes_by_policy enforcer res_map c context (wrapped c.resource item)
        ≡ ok (c.resource ∷ [])
  unfolding exclude_attributes_by_policy exclude_names
  excluded-wrapped enforcer res_map context item = rw outer refl

  -- An object made, without the resource's name among its attributes.
  abbrev plain_item : Context → Dict Slot → Exec (Served S) (Dict Slot)
  plain_item context item = do
    obj ← on_plugin (plugin.create context item)
    pure (filter_attributes obj (c.resource ∷ []))

  pub create_item-plain :
      (enforcer : Enforcer) (res_map : Dict (Dict Info)) (context : Context) (item : Dict Slot)
      → create_item enforcer res_map plugin c context item ≡ plain_item context item
  unfolding create_item ◌>>=◌
  create_item-plain enforcer res_map context item =
      fun_ext λ s. rw (excluded-wrapped enforcer res_map context item) refl

  -- For a resource that has no attribute of its own name, an emulated creation of several objects, from
  -- items with no key beside that of the resource, does and returns the same whatever the policies
  -- are: no attribute that a policy hides is stripped.
  pub create_items-any :
      (e1 e2 : Enforcer) (m1 m2 : Dict (Dict Info)) (context : Context)
      (items objs : List (Dict Slot))
      → create_items e1 m1 plugin c context items objs
        ≡ create_items e2 m2 plugin c context items objs
  unfolding create_items
  create_items-any e1 e2 m1 m2 context [] objs = refl
  create_items-any e1 e2 m1 m2 context (item ∷ items) objs =
      rw (create_item-plain e1 m1 context item, create_item-plain e2 m2 context item)
        (ap
          (λ f. attempt (plain_item context item) f (λ e. undo plugin context objs >> from (err e)))
          (fun_ext λ obj. create_items-any e1 e2 m1 m2 context items (objs ++ (obj ∷ []))))
