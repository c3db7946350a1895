-- ===== src/Tests/ApiExamples.antt =====
-- The controllers over a plugin whose state is a list of identifiers, and a small policy engine.
use apmec.Prelude.{
  ℕ, ◌≡◌, ◌≢◌, refl, String, Bool, true, false, Option, none, some, List, [], ◌∷◌, not, ◌&&◌, ◌==◌,
  ◌++◌, All, arith, eq_iff, Bool-cases, inl, inr, if◌then◌else◌,
}
use apmec.Dict.{Dict, lookup, insert, contains}
use apmec.Errors.{Result, ok, err, key_error, duplicate_entity}
use apmec.Exec.{pure, ◌>>=◌}
use apmec.Text.{int_of_text, strip, split_once}
use apmec.Value.{text, null, integer, boolean, object, array, value_eq}
use apmec.Request.{
  Slot, given, not_specified, prepare_resource, populate_tenant_id, verify_attributes, fill_post,
  check_attrs, run_rules, skips,
}
use apmec.Api.Paging.{
  Query, get_limit_and_marker, get_limit_param, get_pagination_max_limit, paginate,
}
use apmec.Api.Paging.Walk.{AreKeys}
use apmec.Api.Paging.Back.{paginate-back}
use apmec.Api.Paging.Limit.{IsBounded, get_limit_and_marker-IsBounded}
use apmec.Api.Policy.{
  enforce, check, build_match_rule, add_attr_rules, is_attribute_explicitly_set,
  get_resource_and_action, Info, Target, Enforcer, MatchRule, MatchRules, rule_check, and_check,
  no_rules, and_rule,
}
use apmec.Api.Policy.Passed.{IsConjunctive, enforce-passed}
use apmec.Api.Served.{Served, notify, on_plugin, attempt}
use apmec.Api.Body.{Made, resource_body, one, result_of, prepare_request_body}
use apmec.Api.Controller.Write.{create, create_made, enforce_each}
use apmec.Api.Controller.Allowed.{AllAllowed, create-allowed}
use apmec.Api.Controller.{
  items_made, Plugin, Controller, is_among, create_items, create_item, undo, show, delete,
  authorized_item, view, exclude_attributes_by_policy, exclude_names, filter_attributes, of_object,
}
use apmec.Api.Controller.Shown.{AllShown, show-shown}
use apmec.Api.Controller.Deleted.{delete-allowed}
use apmec.Api.Controller.Unstripped.{create_items-any}
use apmec.Api.Controller.Undone.{IsNamed, Creates, delete_each, create_items-undone}
use apmec.Api.Controller.Walked.{IsSeen, walk_seen, walk_seen-all}
use apmec.Exec.Triple.{ok_parts}
use apmec.Api.Controller.Index.{key_text}
use apmec.Tests.{test_net, alice}

differ : (a b : String) → a == b ≡ false → a ≢ b
differ a b h = ground (arith, eq_iff a b)

-- three items by their names
abbrev names : List String
names = "a" ∷ "b" ∷ "c" ∷ []

names-AreKeys : AreKeys (λ x. x) names
names-AreKeys = (
  differ "a" "" refl,
  (differ "b" "a" refl, (differ "c" "a" refl, tt)),
  (differ "b" "" refl, (differ "c" "b" refl, tt), (differ "c" "" refl, tt, tt)),
)

paginate-back_example : paginate (λ x. x) (some 2) (some "c") true names ≡ "a" ∷ "b" ∷ []
paginate-back_example = paginate-back (λ x. x) 2 ("a" ∷ "b" ∷ []) "c" [] names-AreKeys (omega arith)

-- limit=25&marker=b
abbrev page_query : Query
page_query = record {
  get =
      λ name. if name == "limit" then some "25" else (if name == "marker" then some "b" else none);
  getall = λ name. [];
  dict_of_lists = ("limit", "25" ∷ []) ∷ ("marker", "b" ∷ []) ∷ [];
}

page_bounds : get_limit_and_marker "10" page_query ≡ ok (some 10, some "b")
unfolding get_limit_and_marker get_limit_param get_pagination_max_limit int_of_text strip
page_bounds = refl

get_limit_and_marker-IsBounded_example :
    (asked : ℕ) × (get_limit_param page_query ≡ ok asked)
    × IsBounded (get_pagination_max_limit "10") asked (some 10)
get_limit_and_marker-IsBounded_example =
    get_limit_and_marker-IsBounded "10" page_query (some 10, some "b") page_bounds

-- An engine that lets every rule through but some.
abbrev mutual
  lets : List String → MatchRule → Bool
  lets refused (rule_check name) = not (is_among name refused)
  lets refused (and_check rules) = lets_all refused rules

  lets_all : List String → MatchRules → Bool
  lets_all refused no_rules = true
  lets_all refused (and_rule rule rules) = lets refused rule && lets_all refused rules

abbrev test_enforcer : List String → Enforcer
test_enforcer refused = record {
  rules = "get_mea:secret" ∷ [];
  enforce = λ rule target context. ok (lets refused rule);
}

both_true :
    (a b : Bool)
    → Path (Result Bool) (ok (a && b)) (ok true)
    → Path (Result Bool) (ok a) (ok true) × Path (Result Bool) (ok b) (ok true)
both_true true b h = (refl, h)
both_true false b h = absurd (cc)

test_enforcer-IsConjunctive : (refused : List String) → IsConjunctive (test_enforcer refused)
test_enforcer-IsConjunctive refused = record {
  conjuncts =
      λ rule rules target context h. both_true (lets refused rule) (lets_all refused rules) h;
}

abbrev test_info : Bool → Option Slot → Info
test_info is_visible default = record {
  attr = record {
    allow_post = true;
    allow_put = true;
    default = default;
    convert_to = none;
    validate = [];
  };
  enforce_policy = true;
  required_by_policy = false;
  primary_key = false;
  is_visible = is_visible;
  convert_list_to = none;
}

abbrev test_infos : Dict Info
test_infos =
    ("id", test_info true (some (given null)))
    ∷ ("name", test_info true (some (given null)))
    ∷ ("tenant_id", test_info true none)
    ∷ ("secret", test_info false (some (given null)))
    ∷ []

abbrev test_map : Dict (Dict Info)
test_map = ("meas", test_infos) ∷ []

abbrev named : String → Dict Slot
named name = ("name", given (text name)) ∷ []

abbrev named_target : Target
named_target = record { fields = named "m"; to_update = none }

may_create : enforce (test_enforcer []) test_map alice "create_mea" named_target ≡ ok tt
unfolding enforce build_match_rule add_attr_rules is_attribute_explicitly_set
    get_resource_and_action split_once lookup value_eq
may_create = refl

enforce-passed_example :
    ((test_enforcer []).enforce (rule_check "create_mea") named_target alice ≡ ok true)
    × ((test_enforcer []).enforce (rule_check "create_mea:name") named_target alice ≡ ok true)
unfolding get_resource_and_action is_attribute_explicitly_set split_once lookup value_eq
enforce-passed_example =
    enforce-passed (test_enforcer []) (test_enforcer-IsConjunctive []) alice "create_mea"
      named_target test_map test_infos "name" (test_info true (some (given null))) refl may_create
      refl refl refl refl refl

-- MEAs with their names as identifiers, and a secret.
abbrev shown_mea : String → Dict Slot
shown_mea id = ("id", given (text id)) ∷ ("secret", given (text "s")) ∷ []

abbrev name_in : Dict Slot → Option Slot
name_in item = lookup "name" item

abbrev without : String → List String → List String
without id [] = []
without id (i ∷ is) = let rest = without id is in if i == id then rest else i ∷ rest

abbrev make : Option Slot → List String → Result (Dict Slot) × List String
make (some (given (text name))) ids =
    if is_among name ids
    then (err (duplicate_entity "mea"), ids)
    else (ok (shown_mea name), name ∷ ids)
make _ ids = (err key_error, ids)

abbrev test_plugin : Plugin (List String)
test_plugin = record {
  list = λ context filters fields ids. (ok [], ids);
  show = λ context id fields ids.
      if is_among id ids then (ok (shown_mea id), ids) else (err key_error, ids);
  create = λ context item. make (name_in item);
  create_bulk = λ context items ids. (err key_error, ids);
  update = λ context id item ids. (ok item, ids);
  delete = λ context id ids. (ok tt, without id ids);
  act = λ name context id body ids. (ok [], ids);
}

makes :
    (item : Option Slot) (ids t : List String) (obj : Dict Slot)
    → make item ids ≡ (ok obj, t)
    → (i : String) × (lookup "id" obj ≡ some (given (text i)))
unfolding lookup
makes (some (given (text name))) ids t obj h = elim (Bool-cases (is_among name ids)) [
  | inl there ↦ absurd (cc (rw there at h))
  | inr new ↦ let same = (ok_parts (rw new at h)).0 in rw (← same) (name, refl)
]
makes none ids t obj h = absurd (cc)
makes (some not_specified) ids t obj h = absurd (cc)
makes (some (given (integer n))) ids t obj h = absurd (cc)
makes (some (given (boolean b))) ids t obj h = absurd (cc)
makes (some (given (object d))) ids t obj h = absurd (cc)
makes (some (given (array vs))) ids t obj h = absurd (cc)
makes (some (given null)) ids t obj h = absurd (cc)

test_plugin-IsNamed : IsNamed test_plugin alice
test_plugin-IsNamed item s t obj h = makes (name_in item) s t obj h

abbrev test_controller : Controller
test_controller = record {
  resource = "mea";
  collection = "meas";
  attr_info = test_infos;
  allow_bulk = true;
  native_bulk = false;
  member_actions = [];
  primary_key = "id";
  allow_pagination = true;
}

abbrev only_a : Served (List String)
only_a = record { plugin_state = "a" ∷ []; notices = [] }

abbrev no_query : Query
no_query = record { get = λ name. none; getall = λ name. []; dict_of_lists = [] }

-- The secret is not shown.
shows_a :
    show (test_enforcer []) test_map test_plugin test_controller alice no_query "a" only_a
    ≡ (ok (("id", given (text "a")) ∷ []), only_a)
unfolding show attempt ◌>>=◌ authorized_item on_plugin enforce build_match_rule
    get_resource_and_action split_once view exclude_attributes_by_policy exclude_names check
    filter_attributes lookup
shows_a = refl

show-shown_example :
    (obj : Dict Slot) × ((on_plugin (test_plugin.show alice "a" []) only_a).0 ≡ ok obj)
    × (enforce (test_enforcer []) test_map alice "get_mea" (of_object obj) ≡ ok tt)
    × AllShown
        (test_enforcer [])
        test_map
        test_controller
        alice
        (of_object obj)
        []
        (("id", given (text "a")) ∷ [])
show-shown_example =
    show-shown (test_enforcer []) test_map test_plugin test_controller alice no_query "a" only_a
      (("id", given (text "a")) ∷ []) only_a shows_a

no_mea_attr : lookup "mea" test_infos ≡ none
unfolding lookup
no_mea_attr = refl

-- An emulated creation of one returns the secret.
create_items-any_example :
    create_items (test_enforcer []) test_map test_plugin test_controller alice (named "b" ∷ []) []
    ≡ create_items
        (test_enforcer ("get_mea:secret" ∷ []))
        test_map
        test_plugin
        test_controller
        alice
        (named "b" ∷ [])
        []
create_items-any_example =
    create_items-any test_plugin test_controller no_mea_attr (test_enforcer [])
      (test_enforcer ("get_mea:secret" ∷ [])) test_map test_map alice (named "b" ∷ []) []

returns_secret :
    create_items
      (test_enforcer [])
      test_map
      test_plugin
      test_controller
      alice
      (named "b" ∷ [])
      []
      only_a
    ≡ (ok (shown_mea "b" ∷ []), record { plugin_state = "b" ∷ "a" ∷ []; notices = [] })
unfolding create_items create_item attempt ◌>>=◌ pure on_plugin exclude_attributes_by_policy
    exclude_names filter_attributes lookup
returns_secret = refl

-- The second of two has a name that is taken.
taken :
    create_items
      (test_enforcer [])
      test_map
      test_plugin
      test_controller
      alice
      (named "b" ∷ named "a" ∷ [])
      []
      only_a
    ≡ (err (duplicate_entity "mea"), only_a)
unfolding create_items create_item attempt ◌>>=◌ pure on_plugin exclude_attributes_by_policy
    exclude_names filter_attributes lookup undo
taken = refl

create_items-undone_example :
    (past : List (Dict Slot)) × (item : Dict Slot) × (rest : List (Dict Slot)) × (ids : List String)
    × (t : List String) × (u : List String) × ((named "b" ∷ named "a" ∷ []) ≡ past ++ (item ∷ rest))
    × Creates test_plugin alice past ids ("a" ∷ []) t
    × (test_plugin.create alice item t ≡ (err (duplicate_entity "mea"), u))
    × (only_a ≡ record only_a { plugin_state = delete_each test_plugin alice ids u })
create_items-undone_example =
    create_items-undone (test_enforcer []) test_map test_plugin test_controller no_mea_attr
      (differ "mea" "id" refl) alice test_plugin-IsNamed (named "b" ∷ named "a" ∷ []) only_a only_a
      (duplicate_entity "mea") taken

abbrev shown_meas : List (Dict Slot)
shown_meas = shown_mea "a" ∷ shown_mea "b" ∷ shown_mea "c" ∷ []

abbrev list_plugin : Plugin (List String)
list_plugin = record test_plugin { list = λ context filters fields ids. (ok shown_meas, ids) }

All-IsSeen : All (IsSeen (test_enforcer []) test_map list_plugin test_controller alice) shown_meas
unfolding check build_match_rule get_resource_and_action split_once
All-IsSeen = (refl, (refl, (refl, tt)))

shown_meas-AreKeys : AreKeys (key_text test_controller) shown_meas
unfolding lookup
shown_meas-AreKeys = (
  differ "a" "" refl,
  (differ "b" "a" refl, (differ "c" "a" refl, tt)),
  (differ "b" "" refl, (differ "c" "b" refl, tt), (differ "c" "" refl, tt, tt)),
)

walk_seen-all_example :
    walk_seen (test_enforcer []) test_map list_plugin test_controller alice [] [] 2 4 none only_a
    ≡ (ok shown_meas, only_a)
walk_seen-all_example =
    walk_seen-all (test_enforcer []) test_map list_plugin test_controller alice [] [] 2 shown_meas
      only_a refl All-IsSeen shown_meas-AreKeys (omega arith)

creates_b :
    create test_net
      (test_enforcer [])
      test_map
      test_plugin
      test_controller
      alice
      (resource_body (named "b"))
      only_a
    ≡ (
      ok (one (("id", given (text "b")) ∷ [])),
      record {
        plugin_state = "b" ∷ "a" ∷ [];
        notices = "mea.create.start" ∷ "mea.create.end" ∷ [];
      },
    )
unfolding create enforce_each create_made notify attempt ◌>>=◌ pure on_plugin prepare_request_body
    prepare_resource populate_tenant_id verify_attributes fill_post check_attrs run_rules skips
    enforce build_match_rule add_attr_rules is_attribute_explicitly_set get_resource_and_action
    split_once view exclude_attributes_by_policy exclude_names check filter_attributes value_eq
    lookup insert contains
creates_b = refl

create-allowed_example :
    (made : Made) × (result_of
        (prepare_request_body test_net alice true "mea" test_infos true (resource_body (named "b")))
      ≡ ok made)
    × AllAllowed test_net
        (test_enforcer [])
        test_map
        test_plugin
        test_controller
        alice
        (items_made made)
create-allowed_example =
    create-allowed test_net (test_enforcer []) test_map test_plugin test_controller alice
      (resource_body (named "b")) only_a (one (("id", given (text "b")) ∷ []))
      (record {
        plugin_state = "b" ∷ "a" ∷ [];
        notices = "mea.create.start" ∷ "mea.create.end" ∷ [];
      })
      creates_b

deletes_a :
    delete (test_enforcer []) test_map test_plugin test_controller alice "a" only_a
    ≡ (ok tt, record { plugin_state = []; notices = "mea.delete.start" ∷ "mea.delete.end" ∷ [] })
unfolding delete notify attempt ◌>>=◌ pure on_plugin enforce build_match_rule
    get_resource_and_action split_once
deletes_a = refl

delete-allowed_example :
    (obj : Dict Slot) × (t : List String) × (test_plugin.show alice "a" [] ("a" ∷ []) ≡ (ok obj, t))
    × (enforce (test_enforcer []) test_map alice "delete_mea" (of_object obj) ≡ ok tt)
    × (test_plugin.delete alice "a" t ≡ (ok tt, []))
    × (◌≡◌ {A = List String}
        ("mea.delete.start" ∷ "mea.delete.end" ∷ [])
        ("mea.delete.start" ∷ "mea.delete.end" ∷ []))
delete-allowed_example =
    delete-allowed (test_enforcer []) test_map test_plugin test_controller alice "a" only_a
      (record { plugin_state = []; notices = "mea.delete.start" ∷ "mea.delete.end" ∷ [] }) deletes_a
