-- ===== src/Api/Controller/Index.antt =====
-- api/v1/base.py and api/api_common.py: the list of the objects of a resource, without sorting.
use apmec.Prelude.{
  if◌then◌else◌, ℕ, String, Bool, true, false, Option, none, some, List, [], ◌∷◌, ◌++◌, ◌<>◌, not,
  ◌&&◌,
}
use apmec.Db.{Context}
use apmec.Dict.{Dict, lookup}
use apmec.Errors.{Result, ok, err}
use apmec.Exec.{◌>>=◌, Exec, pure}
use apmec.Value.{Value, text}
use apmec.Request.{Slot, given}
use apmec.Text.{lower_is}
use apmec.Api.Paging.{
  Query, Link, set_texts, list_args, paginate, get_limit_and_marker, get_pagination_links,
}
use apmec.Api.Policy.{Info, Enforcer, check}
use apmec.Api.Served.{Served, on_plugin}
use apmec.Api.Controller.{
  Plugin, Controller, is_among, do_field_list, filter_each, of_object, from,
  exclude_attributes_by_policy,
}

abbrev add_filter :
    String → Result (List Value) → Result (Dict (List Value)) → Result (Dict (List Value))
add_filter key (err e) rest = err e
add_filter key (ok values) (err e) = err e
add_filter key (ok []) (ok rest) = ok rest
add_filter key (ok (v ∷ vs)) (ok rest) = ok ((key, v ∷ vs) ∷ rest)

abbrev convert_each : (Value → Result Value) → List Value → Result (List Value)
convert_each convert [] = ok []
convert_each convert (v ∷ vs) =
    let rest = convert_each convert vs in
    elim (convert v) [ err e ↦ err e | ok w ↦ elim rest [ err e ↦ err e | ok ws ↦ ok (w ∷ ws) ] ]

abbrev pub texts : List String → List Value
texts [] = []
texts (s ∷ ss) = text s ∷ texts ss

abbrev convert_values : Option Info → List Value → Result (List Value)
convert_values none values = ok values
convert_values (some info) values = elim info.convert_list_to [
  | some convert ↦ convert values
  | none ↦ elim info.attr.convert_to [
    | none ↦ ok values
    | some convert ↦ convert_each convert values
  ]
]

-- `get_filters`, for names that are given once in `dict_of_lists`
abbrev get_filters : Dict Info → List String → Dict (List String) → Result (Dict (List Value))
get_filters infos skips [] = ok []
get_filters infos skips ((key, values) ∷ lists) =
    let rest = get_filters infos skips lists in
    if is_among key skips
    then rest
    else add_filter key (convert_values (lookup key infos) (texts (set_texts values))) rest

-- What a request asks of the pages: a limit, a marker, and `page_reverse`; no limit without pagination.
abbrev Pages : Type 0
Pages = Option ℕ × Option String × Bool

-- request.GET.get('page_reverse', 'False').lower() == "true"
abbrev get_page_reverse : Query → Bool
get_page_reverse query = elim (query.get "page_reverse") [
  | none ↦ false
  | some s ↦ lower_is "true" s
]

abbrev with_reverse : Bool → Result (Option ℕ × Option String) → Result Pages
with_reverse page_reverse (ok (limit, marker)) = ok (limit, marker, page_reverse)
with_reverse page_reverse (err e) = err e

-- `_get_pagination_helper`, of the emulated pages
abbrev pages_of : String → Controller → Query → Result Pages
pages_of conf c query =
    if c.allow_pagination
    then with_reverse (get_page_reverse query) (get_limit_and_marker conf query)
    else ok (none, none, false)

-- PaginationEmulatedHelper.update_fields
abbrev with_key : Controller → List String × List String → List String × List String
with_key c ([], added) = ([], added)
with_key c (f ∷ fs, added) =
    if c.allow_pagination && not (is_among c.primary_key (f ∷ fs))
    then ((f ∷ fs) ++ (c.primary_key ∷ []), added ++ (c.primary_key ∷ []))
    else (f ∷ fs, added)

-- item[self.primary_key], which the plugin gives as a text
abbrev pub key_text : Controller → Dict Slot → String
key_text c d = elim (lookup c.primary_key d) [ some (given (text key)) ↦ key | _ ↦ "" ]

module _ {S : Type 0} (enforcer : Enforcer) (res_map : Dict (Dict Info)) (plugin : Plugin S)
    (c : Controller) where
  -- [obj for obj in obj_list if policy.check(…)]
  unfoldable pub let_see : Context → List (Dict Slot) → Result (List (Dict Slot))
  let_see context [] = ok []
  let_see context (d ∷ ds) =
      let rest = let_see context ds in
      elim (check enforcer res_map context ("get_" <> c.resource) (of_object d) false) [
        | err e ↦ err e
        | ok true ↦ (elim rest [ err e ↦ err e | ok shown ↦ ok (d ∷ shown) ])
        | ok false ↦ rest
      ]

  abbrev hidden_in : Context → List (Dict Slot) → Result (List String)
  hidden_in context [] = ok []
  hidden_in context (d ∷ ds) = exclude_attributes_by_policy enforcer res_map c context d

  -- `index`: the objects and the links to other pages
  unfoldable pub index : String → Context → Query → Exec (Served S) (List (Dict Slot) × List Link)
  index conf context query = do
    filters ← from (
        get_filters c.attr_info
          ("fields" ∷ "sort_key" ∷ "sort_dir" ∷ "limit" ∷ "marker" ∷ "page_reverse" ∷ [])
          query.dict_of_lists)
    (limit, marker, page_reverse) ← from (pages_of conf c query)
    let (fields, added) = with_key c (do_field_list c (list_args query "fields"))
    objs ← on_plugin (plugin.list context filters fields)
    shown ← from (let_see context (paginate (key_text c) limit marker page_reverse objs))
    hidden ← from (hidden_in context shown)
    pure (
      filter_each shown (added ++ hidden),
      get_pagination_links (key_text c) shown limit page_reverse,
    )
